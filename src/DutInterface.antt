-- ===== src/DutInterface.antt =====
-- dut/dut_interface_mock.c: the commands to a device over the serial port of the host build, and the
-- replies of the device. `port` is HAL_UART_PORT_1 and `ulong_max` ULONG_MAX. Timeouts, which the mock of
-- the port does not use, are left out.
pub mod Lines
pub mod Replies
pub mod Values
mod Tests
use test_controller.Base.{
  behind, ℕ, zero, suc, ◌+◌, ◌-◌, ◌%◌, Bool, true, false, not, ◌&&◌, ◌||◌, Option, none, some, List,
  [], ◌∷◌, ◌++◌, CString, codes, truncated, length, get_or, take, ◌==◌, if◌then◌else◌,
}
use test_controller.Base.Int.{ℤ, pos, negsuc}
use test_controller.Base.Decimal.{decimal, strtoul}
use test_controller.Json.{c_string}
use test_controller.Uart.{Uart, init, transmit, read_until, deinit, sent, set_rx_buffer}

-- DUT_Response_t; the codes of errors are the numbers of DUT_ErrorCode_t.
pub record Response : Type 0 where
  pub success : Bool
  pub error_code : ℕ
  pub value : ℕ  -- uint32_t
  pub text : CString  -- data

abbrev pub dut_success : ℕ
dut_success = 0

abbrev pub dut_error_timeout : ℕ
dut_error_timeout = 3

abbrev pub dut_error_unknown : ℕ
dut_error_unknown = 99

-- memset(response, 0, sizeof)
abbrev pub no_response : Response
no_response = record { success = false; error_code = dut_success; value = 0; text = [] }

-- dut_state
pub record DutState : Type 0 where
  pub initialized : Bool
  pub last_response : Response
  pub last_error : ℕ
  pub default_timeout_ms : ℕ
  pub debug_logging : Bool

-- DUT_Interface_Mock_Reset
unfoldable pub mock_reset : DutState
mock_reset = record {
  initialized = false;
  last_response = no_response;
  last_error = dut_success;
  default_timeout_ms = 1000;
  debug_logging = false;
}

unfoldable pub set_default_timeout : ℕ → DutState → DutState
set_default_timeout ms d = record d { default_timeout_ms = ms }

unfoldable pub set_debug_logging : Bool → DutState → DutState
set_debug_logging enable d = record d { debug_logging = enable }

unfoldable pub skip_spaces : CString → CString
skip_spaces [] = []
skip_spaces (c ∷ cs) = let rest = skip_spaces cs in if c == 32 then rest else c ∷ cs

unfoldable pub ok_response : ℕ → CString → Response
ok_response ulong_max [] = record { success = true; error_code = dut_success; value = 0; text = [] }
ok_response ulong_max (c ∷ cs) = record {
  success = true;
  error_code = dut_success;
  value = strtoul ulong_max (c ∷ cs) % 4294967296;
  text = truncated 256 (c ∷ cs);
}

unfoldable pub error_response : ℕ → CString → Response
error_response ulong_max [] = record no_response { error_code = dut_error_unknown }
error_response ulong_max (c ∷ cs) = record no_response {
  error_code = strtoul ulong_max (c ∷ cs) % 4294967296;
}

-- `none` for -1, with an empty response.
unfoldable pub parse_response : ℕ → CString → Option Response
unfolding behind skip_spaces ok_response error_response
parse_response ulong_max s = elim (behind (codes "OK") s) [
  | some rest ↦ some (ok_response ulong_max (skip_spaces rest))
  | none ↦ elim (behind (codes "ERROR") s) [
    | some rest ↦ some (error_response ulong_max (skip_spaces rest))
    | none ↦ none
  ]
]

-- The loop that strips CR and LF from the end of the first `n` bytes: how many are left.
unfoldable pub stripped : ℕ → List ℕ → ℕ
stripped zero bytes = 0
stripped (suc n) bytes =
    let rest = stripped n bytes in
    if (get_or bytes n 0 == 10) || (get_or bytes n 0 == 13) then rest else suc n

abbrev pub strip : List ℕ → List ℕ
strip bytes = take (stripped (length bytes) bytes) bytes

-- What a command returns, with the response if it was written.
pub record Reply : Type 0 where
  pub dut : DutState
  pub uart : Uart
  pub status : ℤ
  pub response : Option Response

abbrev pub refused : DutState → Uart → Reply
refused d u = record { dut = d; uart = u; status = negsuc 0; response = none }

abbrev pub failed_with : ℕ → DutState → Uart → Reply
failed_with error d u = record {
  dut = record d { last_error = error };
  uart = u;
  status = negsuc 0;
  response = some no_response;
}

-- Behind the parser.
unfoldable pub conclude : DutState → Uart → Option Response → Reply
conclude d u none = failed_with dut_error_unknown d u
conclude d u (some r) = record {
  dut = record d { last_error = r.error_code; last_response = r };
  uart = u;
  status = if r.success then pos 0 else negsuc 0;
  response = some r;
}

module _ (port ulong_max : ℕ) where
  unfoldable pub start : DutState × Uart → (DutState × Uart) × ℤ
  start (d, u) =
      let r = init port 115200 u in
      if d.initialized then ((d, u), pos 0) else elim r.1 [
        | negsuc n ↦ ((d, r.0), negsuc 0)
        | pos n ↦
            if n == 0
            then (
              (
                record d { initialized = true; default_timeout_ms = 1000; debug_logging = false },
                r.0,
              ),
              pos 0,
            )
            else ((d, r.0), negsuc 0)
      ]

  unfoldable pub stop : DutState × Uart → (DutState × Uart) × ℤ
  stop (d, u) =
      if d.initialized
      then ((record d { initialized = false }, (deinit port u).0), pos 0)
      else ((d, u), negsuc 0)

  -- What was read; an empty line is a timeout.
  unfoldable pub received : DutState → Uart → Option (List ℕ) → Reply
  unfolding conclude parse_response
  received d u none = failed_with dut_error_timeout d u
  received d u (some []) = failed_with dut_error_timeout d u
  received d u (some (b ∷ bytes)) =
      conclude d u (parse_response ulong_max (c_string (strip (b ∷ bytes))))

  -- Behind the transmission.
  unfoldable pub await_reply : DutState → Uart → Option ℕ → Reply
  unfolding received
  await_reply d u none = failed_with dut_error_timeout d u
  await_reply d u (some n) = let r = read_until port 511 10 u in received d r.0 r.1

  unfoldable pub command : CString → DutState × Uart → Reply
  unfolding await_reply
  command text (d, u) =
      let t = transmit port (truncated 512 (text ++ 13 ∷ 10 ∷ [])) u in
      if d.initialized then await_reply d t.0 t.1 else refused d u

  -- 1 for a device that answers, 0 for one that does not, -1 without an interface.
  unfoldable pub is_responsive : DutState × Uart → (DutState × Uart) × ℤ
  unfolding command
  is_responsive (d, u) =
      let r = command (codes "STATUS") (d, u) in
      if d.initialized
      then (
        (r.dut, r.uart),
        (elim r.status [ negsuc n ↦ pos 0 | pos n ↦ if n == 0 then pos 1 else pos 0 ]),
      )
      else ((d, u), negsuc 0)

  -- snprintf into 64 bytes, then the command.
  unfoldable pub short_command : CString → DutState × Uart → Reply
  unfolding command
  short_command text s = command (truncated 64 text) s

  unfoldable pub gpio_set : ℕ → ℕ → ℕ → DutState × Uart → Reply
  unfolding short_command
  gpio_set bank pin level s =
      short_command
        (codes "GPIO_SET "
          ++ decimal bank
          ++ codes " "
          ++ decimal pin
          ++ codes " "
          ++ decimal level)
        s

  -- The value of a command that returned 0, in an integer with `range` values; `none` for -1.
  abbrev pub value_of : ℕ → Reply → Option ℕ
  value_of range r = elim r.status [
    | negsuc n ↦ none
    | pos n ↦ elim r.response [ none ↦ none | some response ↦ some (response.value % suc range) ]
  ]

  unfoldable pub gpio_get : ℕ → ℕ → DutState × Uart → Reply × Option ℕ
  unfolding short_command
  gpio_get bank pin s =
      let r = short_command (codes "GPIO_GET " ++ decimal bank ++ codes " " ++ decimal pin) s in
      (r, value_of 255 r)

  unfoldable pub adc_read : ℕ → DutState × Uart → Reply × Option ℕ
  unfolding short_command
  adc_read channel s =
      let r = short_command (codes "ADC_READ " ++ decimal channel) s in (r, value_of 65535 r)

  unfoldable pub adc_init : DutState × Uart → Reply
  unfolding command
  adc_init s = command (codes "ADC_INIT") s

  unfoldable pub dac_write : ℕ → ℕ → DutState × Uart → Reply
  unfolding short_command
  dac_write channel value_mv s =
      short_command (codes "DAC_WRITE " ++ decimal channel ++ codes " " ++ decimal value_mv) s

  unfoldable pub get_version : ℕ → DutState × Uart → Reply × Option CString
  unfolding command
  get_version buffer_size (d, u) =
      let r = command (codes "VERSION") (d, u) in
      if buffer_size == 0 then (refused d u, none) else (
        r,
        elim r.status [
          | negsuc n ↦ none
          | pos n ↦ elim r.response [
            | none ↦ none
            | some response ↦ some (truncated buffer_size response.text)
          ]
        ],
      )

  unfoldable pub inject_response : CString → Uart → Uart
  inject_response text u = set_rx_buffer port (truncated 512 (text ++ 10 ∷ [])) u

  -- `none` for 0.
  unfoldable pub get_last_command : ℕ → Uart → Option (List ℕ)
  get_last_command buffer_size u = elim (sent port u) [
    | [] ↦ none
    | b ∷ bytes ↦ if buffer_size == 0 then none else some (take (buffer_size - 1) (b ∷ bytes))
  ]
