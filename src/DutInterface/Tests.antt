-- ===== src/DutInterface/Tests.antt =====
-- Runs of dut/dut_interface_mock.c on the second port, with an unsigned long of 32 bits.
use test_controller.Base.{◌≡◌, refl, true, false, some, [], ◌∷◌, codes, arith, truncated}
use test_controller.Uart.{Port, Uart, transmit, sent, read_until}
use test_controller.DutInterface.{DutState, no_response, command, inject_response, get_last_command}
use test_controller.DutInterface.Replies.{Concludes, command-inject_response}

abbrev port : Port
port = record { tx = []; rx = []; rx_read_pos = 0; baudrate = 115200; initialized = true }

abbrev ports : Uart
ports = port ∷ port ∷ port ∷ []

abbrev dut : DutState
dut = record {
  initialized = true;
  last_response = no_response;
  last_error = 0;
  default_timeout_ms = 1000;
  debug_logging = false;
}

-- HAL_UART_Init alone empties the buffer: the helper gives all that was sent.
all_sent :
    get_last_command 1 4294967295 64
      (command 1 4294967295
        (codes "B")
        (dut, (command 1 4294967295 (codes "A") (dut, ports)).uart)).uart
    ≡ some (65 ∷ 13 ∷ 10 ∷ 66 ∷ 13 ∷ 10 ∷ [])
unfolding command get_last_command transmit truncated sent read_until
all_sent = refl

command-inject_response_example :
    Concludes 1 4294967295
      (command 1 4294967295
        (codes "STATUS")
        (dut, inject_response 1 4294967295 (codes "OK 1") ports))
      dut
      (codes "OK 1")
command-inject_response_example =
    command-inject_response 1 4294967295 (codes "STATUS") (codes "OK 1") dut ports port refl
      (refl, refl)
      (
        (omega arith, (refl, refl)),
        (
          (omega arith, (refl, refl)),
          ((omega arith, (refl, refl)), ((omega arith, (refl, refl)), tt)),
        ),
      )
      (omega arith)
