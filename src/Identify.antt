-- ===== src/Identify.antt =====
-- src/dut_identify.c: the UID of a device, read from what it prints on its UART.
pub mod Runs
pub mod Longest
mod Tests
use test_controller.Base.{
  ℕ, ◌+◌, ◌-◌, min, Bool, true, false, not, ◌&&◌, ◌||◌, Option, none, some, List, [], ◌∷◌, ◌++◌,
  map, ltb, leb, ◌==◌, if◌then◌else◌, CString, length, take,
}

-- MIN_HEX_RUN
abbrev pub min_hex_run : ℕ
min_hex_run = 8

-- MON_BUF_SZ
abbrev pub mon_buf_sz : ℕ
mon_buf_sz = 2048

unfoldable pub is_hex : ℕ → Bool
is_hex c = (leb 48 c && leb c 57) || ((leb 65 c && leb c 70) || (leb 97 c && leb c 102))

-- toupper of the C locale
unfoldable pub to_upper : ℕ → ℕ
to_upper c = if leb 97 c && leb c 122 then c - 32 else c

-- The variables of the loop. A pointer into the buffer is the bytes from there to its end.
pub record Scan : Type 0 where
  pub best_start : Option CString
  pub best_len : ℕ
  pub run_start : Option CString
  pub run_len : ℕ

unfoldable pub extend_run : CString → Scan → Scan
extend_run here s = elim s.run_start [
  | none ↦ record s { run_start = some here; run_len = 1 }
  | some start ↦ record s { run_len = s.run_len + 1 }
]

unfoldable pub end_run : Scan → Scan
end_run s = elim s.run_start [
  | none ↦ record s { run_start = none; run_len = 0 }
  | some start ↦
      if leb min_hex_run s.run_len && ltb s.best_len s.run_len
      then record s { best_start = some start; best_len = s.run_len; run_start = none; run_len = 0 }
      else record s { run_start = none; run_len = 0 }
]

-- The loop; behind the last byte it reads a 0, which is no digit.
unfoldable pub scan : CString → Scan → Scan
scan [] s = end_run s
scan (c ∷ cs) s = scan cs (if is_hex c then extend_run (c ∷ cs) s else end_run s)

abbrev pub unscanned : Scan
unscanned = record { best_start = none; best_len = 0; run_start = none; run_len = 0 }

-- What arrives in `out`, and the count that is returned. A size of 0 is undefined in the source.
unfoldable pub copy_token : ℕ → CString → Scan → CString × ℕ
copy_token out_sz out s = elim s.best_start [
  | none ↦ (out, 0)
  | some start ↦
      if ltb s.best_len min_hex_run
      then (out, 0)
      else let copy = if ltb s.best_len (out_sz - 1) then s.best_len else out_sz - 1 in
        (map to_upper (take copy start), copy)
]

unfoldable pub extract_hex_token : ℕ → CString → CString → CString × ℕ
extract_hex_token out_sz out buf = copy_token out_sz out (scan buf unscanned)

-- The reads of the window, each with the bytes that the driver has; it hands over at most as many
-- as it is asked for.
unfoldable pub receive : List CString → CString → CString
receive [] rxbuf = rxbuf
receive (bytes ∷ reads) rxbuf =
    if ltb (length rxbuf) (mon_buf_sz - 1)
    then receive reads (rxbuf ++ take (mon_buf_sz - 1 - length rxbuf) bytes)
    else rxbuf

-- What the driver answers: to uart_driver_install, to the configuration, and to the reads.
pub record Uart : Type 0 where
  pub installs : Bool
  pub configures : Bool
  pub reads : List CString

-- `out` and the result of dut_identify_uart, and whether the UART driver is left installed.
pub record Identified : Type 0 where
  pub out : CString
  pub found : ℕ
  pub installed : Bool

unfoldable pub identify_received : ℕ → CString → Identified
identify_received out_sz [] = record { out = []; found = 0; installed = false }
identify_received out_sz (c ∷ cs) =
    let r = extract_hex_token out_sz [] (c ∷ cs) in
    record { out = r.0; found = r.1; installed = false }

unfoldable pub identify_uart : ℕ → Uart → Identified
identify_uart out_sz u =
    if not u.installs
    then record { out = []; found = 0; installed = false }
    else if not u.configures
    then record { out = []; found = 0; installed = false }
    else identify_received out_sz (receive u.reads [])
