-- ===== src/Uart/Tests.antt =====
-- Runs of hal/mock/hal_uart_mock.c.
use test_controller.Base.{◌≡◌, refl, true, some, [], ◌∷◌, ◌++◌, length, set}
use test_controller.Uart.{Port, Uart, mock_reset, read_until}
use test_controller.Uart.Reading.{upto, unread, skip_read, read_until-upto}
use test_controller.Uart.Invariant.{
  IsUart, init_call, transmit_call, set_rx_call, read_until_call, run_calls, mock_reset-IsUart,
}

abbrev waiting : Port
waiting = record {
  tx = [];
  rx = 79 ∷ 75 ∷ 10 ∷ 88 ∷ [];
  rx_read_pos = 0;
  baudrate = 115200;
  initialized = true;
}

abbrev ports : Uart
unfolding mock_reset
ports = set mock_reset 1 waiting

one_line : (read_until 1 511 10 ports).1 ≡ some (79 ∷ 75 ∷ 10 ∷ [])
unfolding read_until ports mock_reset
one_line = refl

read_until-upto_example :
    let taken = upto 511 10 (unread waiting) in
    let p' = skip_read (length taken) waiting in
    (read_until 1 511 10 ports ≡ (set ports 1 p', some taken))
    × (taken ++ unread p' ≡ unread waiting)
unfolding ports mock_reset
read_until-upto_example = read_until-upto 1 511 10 ports waiting (refl, refl)

mock_reset-IsUart_example : IsUart (
    run_calls
      (init_call 1 115200
        ∷ transmit_call 1 (65 ∷ 66 ∷ [])
        ∷ set_rx_call 1 (79 ∷ 75 ∷ 10 ∷ [])
        ∷ read_until_call 1 511 10
        ∷ [])
      mock_reset)
mock_reset-IsUart_example = mock_reset-IsUart (
    init_call 1 115200
    ∷ transmit_call 1 (65 ∷ 66 ∷ [])
    ∷ set_rx_call 1 (79 ∷ 75 ∷ 10 ∷ [])
    ∷ read_until_call 1 511 10
    ∷ [])
