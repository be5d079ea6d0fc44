-- ===== src/DutInterface/Replies.antt =====
-- dut/dut_interface_mock.c: what a command makes of a line that the device sends.
use test_controller.Base.{
  ℕ, ◌+◌, ◌≤◌, ◌≡◌, refl, sym, ap, ◌∙◌, true, false, some, List, [], ◌∷◌, ◌++◌, CString, truncated,
  truncated_fits, length, length-append, set, take, All, ltb, arith, if_true,
}
use test_controller.Json.{c_string}
use test_controller.Uart.{Port, Uart, to_write, transmit, set_rx_buffer}
use test_controller.Uart.Reading.{
  upto, unread, skip_read, Holds, open_port-Holds, Holds-set, read_until-upto,
}
use test_controller.DutInterface.{
  DutState, Reply, parse_response, strip, conclude, received, await_reply, command, inject_response,
}
use test_controller.DutInterface.Lines.{IsPlain, line_end, upto-line, c_string-plain, strip-line}

nothing_more : (xs ys : List ℕ) → xs ++ ys ≡ xs → ys ≡ []
nothing_more xs [] e = refl
nothing_more xs (y ∷ ys) e =
    let sizes : length (xs ++ y ∷ ys) ≡ length xs = ap length e in
    absurd (omega (arith, length-append xs (y ∷ ys), sizes))

module _ (port ulong_max : ℕ) where
  received-line :
      (d : DutState) (u : Uart) (line : CString)
      → All IsPlain line
      → received port ulong_max d u (some (line ++ line_end))
        ≡ conclude d u (parse_response ulong_max line)
  unfolding received
  received-line d u line p =
      opened line
      ∙ ap (λ (s : CString). conclude d u (parse_response ulong_max s))
          (ap c_string (strip-line line p) ∙ c_string-plain line p)
    where
      opened :
          (xs : CString)
          → received port ulong_max d u (some (xs ++ line_end))
            ≡ conclude d u (parse_response ulong_max (c_string (strip (xs ++ line_end))))
      opened [] = refl
      opened (x ∷ xs) = refl

  -- The reply to a command for which a line is waiting.
  abbrev pub Concludes : Reply → DutState → CString → Type 0
  Concludes r d line =
      (u : Uart) × (r ≡ conclude d u (parse_response ulong_max line))
      × ((q : Port) × Holds port u q × (unread q ≡ []))

  await_reply-line :
      (d : DutState) (u : Uart) (p : Port) (n : ℕ) (line : CString)
      → Holds port u p
      → unread p ≡ line ++ line_end
      → All IsPlain line
      → length line ≤ 255
      → Concludes (await_reply port ulong_max d u (some n)) d line
  unfolding await_reply
  await_reply-line d u p n line h waiting plain short =
      let taken = upto 511 10 (unread p) in
      let p' : Port = skip_read (length taken) p in
      let step = read_until-upto port 511 10 u p h in
      let got : taken ≡ line ++ line_end =
        ap (upto 511 10) waiting ∙ upto-line 511 line plain (omega arith) in
      let rest : (line ++ line_end) ++ unread p' ≡ line ++ line_end =
        ap (λ (bs : List ℕ). bs ++ unread p') (sym got) ∙ step.1 ∙ waiting in
      (
        set u port p',
        rw (step.0, await_reply)
            (ap (λ (bs : List ℕ). received port ulong_max d (set u port p') (some bs)) got
              ∙ received-line d (set u port p') line plain),
        (p', Holds-set port u p p' h h.1, nothing_more (line ++ line_end) (unread p') rest),
      )

  -- A command for which one line is waiting ends as the parser says of that line, and leaves nothing to be
  -- read, if the interface and its port are initialised, and the line has at most 255 bytes, none of which
  -- is NUL, CR or LF.
  pub command-inject_response :
      (text line : CString) (d : DutState) (u : Uart) (p : Port)
      → d.initialized ≡ true
      → Holds port u p
      → All IsPlain line
      → length line ≤ 255
      → Concludes (command port ulong_max text (d, inject_response port ulong_max line u)) d line
  unfolding command inject_response set_rx_buffer transmit
  command-inject_response text line d u p on h plain short =
      let p1 : Port = record p { rx = line ++ line_end; rx_read_pos = 0 } in
      let u1 = set u port p1 in
      let h1 : Holds port u1 p1 = Holds-set port u p p1 h h.1 in
      let size : length (line ++ line_end) ≡ length line + 1 = length-append line line_end in
      let whole : truncated 512 (line ++ line_end) ≡ line ++ line_end =
        truncated_fits 512 (line ++ line_end) (omega arith) in
      let fits : ltb 256 (length (line ++ line_end)) ≡ false = ground (arith, size, short) in
      let injected : inject_response port ulong_max line u ≡ u1 =
        rw (whole, inject_response) (rw (h.0, set_rx_buffer) (rw fits refl)) in
      let bytes = truncated 512 (text ++ 13 ∷ 10 ∷ []) in
      let p2 : Port = record p1 { tx = p1.tx ++ take (to_write p1 bytes) bytes } in
      let transmitted : transmit port bytes u1 ≡ (set u1 port p2, some (to_write p1 bytes)) =
        rw (open_port-Holds port u1 p1 h1, transmit) refl in
      let ended =
        await_reply-line d (set u1 port p2) p2 (to_write p1 bytes) line
          (Holds-set port u1 p1 p2 h1 h1.1) refl plain short in
      let sent : command port ulong_max text (d, u1)
          ≡ await_reply port ulong_max d (set u1 port p2) (some (to_write p1 bytes)) =
        rw (transmitted, command) (if_true _ d.initialized on) in
      rw injected (rw sent ended)
