-- ===== src/Uart.antt =====
-- hal/mock/hal_uart_mock.c: the serial ports of the host build. A buffer with its index is the list of
-- its bytes; a port that is out of range or not initialised answers -1, here `none`. The ports share one
-- interface with the drivers, whose header is not in the repository.
pub mod Invariant
pub mod Reading
mod Tests
use test_controller.Base.{
  ℕ, zero, suc, ◌+◌, ◌-◌, Bool, true, false, not, Option, none, some, List, [], ◌∷◌, ◌++◌, length,
  get_elem?, set, take, replicate, leb, ltb, ◌==◌, if◌then◌else◌,
}
use test_controller.Base.Int.{ℤ, pos, negsuc}

abbrev pub mock_buffer_size : ℕ
mock_buffer_size = 256

-- `tx` is tx_buffer up to tx_index, `rx` is rx_buffer up to rx_index.
pub record Port : Type 0 where
  pub tx : List ℕ
  pub rx : List ℕ
  pub rx_read_pos : ℕ
  pub baudrate : ℕ
  pub initialized : Bool

-- uart_mock
abbrev pub Uart : Type 0
Uart = List Port

unfoldable pub mock_reset : Uart
mock_reset =
    replicate 3 (record { tx = []; rx = []; rx_read_pos = 0; baudrate = 0; initialized = false })

-- if (port >= 3 || !uart_mock.port[port].initialized) return -1;
abbrev pub open_port : ℕ → Uart → Option Port
open_port port u = elim (get_elem? u port) [
  | none ↦ none
  | some p ↦ if p.initialized then some p else none
]

unfoldable pub init : ℕ → ℕ → Uart → Uart × ℤ
init port baudrate u = elim (get_elem? u port) [
  | none ↦ (u, negsuc 0)
  | some p ↦ (
    set u port
        (record { tx = []; rx = []; rx_read_pos = 0; baudrate = baudrate; initialized = true }),
    pos 0,
  )
]

abbrev pub to_write : Port → List ℕ → ℕ
to_write p bytes =
    if leb (length p.tx + length bytes) mock_buffer_size
    then length bytes
    else mock_buffer_size - length p.tx

unfoldable pub transmit : ℕ → List ℕ → Uart → Uart × Option ℕ
transmit port bytes u = elim (open_port port u) [
  | none ↦ (u, none)
  | some p ↦ (
    set u port (record p { tx = p.tx ++ take (to_write p bytes) bytes }),
    some (to_write p bytes),
  )
]

-- The bytes that have arrived and were not read; `none` for -1. An invariant says that it is no less than 0.
unfoldable pub available : ℕ → Uart → Option ℕ
available port u = elim (open_port port u) [
  | none ↦ none
  | some p ↦ some (length p.rx - p.rx_read_pos)
]

-- The lookup fails where rx_read_pos has come to rx_index.
unfoldable pub read : ℕ → Uart → Uart × Option ℕ
read port u = elim (open_port port u) [
  | none ↦ (u, none)
  | some p ↦ elim (get_elem? p.rx p.rx_read_pos) [
    | none ↦ (u, none)
    | some byte ↦ (set u port (record p { rx_read_pos = suc p.rx_read_pos }), some byte)
  ]
]

-- The loop of HAL_UART_ReadBytes, with the rounds that are left.
unfoldable pub read_loop : ℕ → ℕ → Uart → Uart × List ℕ
unfolding read
read_loop zero port u = (u, [])
read_loop (suc n) port u =
    let r = read port u in
    elim r.1 [
      | none ↦ (r.0, [])
      | some byte ↦ let rest = read_loop n port r.0 in (rest.0, byte ∷ rest.1)
    ]

-- The result is what HAL_UART_ReadBytes returns with what is in the buffer.
unfoldable pub read_bytes : ℕ → ℕ → Uart → Uart × Option (ℕ × List ℕ)
unfolding available read_loop
read_bytes port max u = elim (available port u) [
  | none ↦ (u, none)
  | some n ↦
      let to_read = if ltb n max then n else max in
      let r = read_loop to_read port u in (r.0, some (to_read, r.1))
]

-- The loop of HAL_UART_ReadUntil; `n` is max_length - count.
unfoldable pub until_loop : ℕ → ℕ → ℕ → Uart → Uart × List ℕ
unfolding read
until_loop zero delimiter port u = (u, [])
until_loop (suc n) delimiter port u =
    let r = read port u in
    elim r.1 [
      | none ↦ (r.0, [])
      | some byte ↦
          let rest = until_loop n delimiter port r.0 in
          if byte == delimiter then (r.0, byte ∷ []) else (rest.0, byte ∷ rest.1)
    ]

unfoldable pub read_until : ℕ → ℕ → ℕ → Uart → Uart × Option (List ℕ)
unfolding until_loop
read_until port max_length delimiter u = elim (open_port port u) [
  | none ↦ (u, none)
  | some p ↦ let r = until_loop max_length delimiter port u in (r.0, some r.1)
]

unfoldable pub deinit : ℕ → Uart → Uart × ℤ
deinit port u = elim (get_elem? u port) [
  | none ↦ (u, negsuc 0)
  | some p ↦ (set u port (record p { initialized = false }), pos 0)
]

unfoldable pub flush_rx : ℕ → Uart → Uart × ℤ
flush_rx port u = elim (open_port port u) [
  | none ↦ (u, negsuc 0)
  | some p ↦ (set u port (record p { rx_read_pos = length p.rx }), pos 0)
]

-- HAL_UART_FlushTx and HAL_UART_RegisterRxCallback
unfoldable pub check_only : ℕ → Uart → ℤ
check_only port u = elim (open_port port u) [ none ↦ negsuc 0 | some p ↦ pos 0 ]

-- HAL_UART_Mock_GetTxBuffer, up to HAL_UART_Mock_GetTxLength
unfoldable pub sent : ℕ → Uart → List ℕ
sent port u = elim (get_elem? u port) [ none ↦ [] | some p ↦ p.tx ]

unfoldable pub set_rx_buffer : ℕ → List ℕ → Uart → Uart
set_rx_buffer port bytes u = elim (get_elem? u port) [
  | none ↦ u
  | some p ↦
      if ltb mock_buffer_size (length bytes)
      then u
      else set u port (record p { rx = bytes; rx_read_pos = 0 })
]
