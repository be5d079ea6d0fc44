-- ===== src/Identify/Longest.antt =====
-- src/dut_identify.c: extract_hex_token finds the longest run of digits.
use test_controller.Base.{
  ℕ, ◌+◌, ◌-◌, ◌≤◌, ◌<◌, min, true, false, Option, none, some, List, [], ◌∷◌, map, ltb, leb, ◌≡◌,
  refl, ◌∙◌, if◌then◌else◌, CString, length, take, arith, leb→le, ap, Bool-cases, inl, inr, ◌⊎◌,
  ◌++◌, length-append, length-take,
}
use test_controller.Identify.Runs.{lead, longest, IsSuffix, IsBest, at, extracted-best}
use test_controller.Identify.{
  receive, Uart, identify_uart, identify_received, mon_buf_sz, to_upper, end_run, scan, unscanned,
  copy_token, extract_hex_token,
}

not_short : (l : ℕ) → 8 ≤ l → ltb l 8 ≡ false
not_short l h = ground arith

shorter_len : (l n : ℕ) → (if ltb l n then l else n) ≡ min l n
shorter_len l n = ground arith

-- The copy of a best run: as much of it as fits, in capitals.
copied :
    (out_sz : ℕ) (out buf : CString) (b r : Option CString) (l n : ℕ)
    → IsBest buf l b
    → 0 < l
    → (p : CString) × ((lead p ≡ l)
        × (IsSuffix p buf
            × (copy_token out_sz out (at b r l n)
                ≡ (map to_upper (take (min l (out_sz - 1)) p), min l (out_sz - 1)))))
unfolding copy_token
copied out_sz out buf none r l n e h = absurd (omega arith)
copied out_sz out buf (some p) r l n (run, (long, q)) h =
    (p, (run, (q, rw (not_short l long, shorter_len l (out_sz - 1)) refl)))

not_copied :
    (out_sz : ℕ) (out buf : CString) (b r : Option CString) (l n : ℕ)
    → IsBest buf l b
    → l ≡ 0
    → copy_token out_sz out (at b r l n) ≡ (out, 0)
unfolding copy_token
not_copied out_sz out buf none r l n e h = refl
not_copied out_sz out buf (some p) r l n (run, (long, q)) h = absurd (omega arith)

at_least_one : (n l : ℕ) → leb 8 n ≡ true → l ≡ n → 0 < l
at_least_one n l e h = ground arith

-- A result for a text: the longest run of digits, if it has eight, cut to the size of `out` and in
-- capitals; else `out` is kept and the count is 0.
abbrev pub IsToken : ℕ → CString → CString → CString × ℕ → Type 0
IsToken out_sz out buf r =
    ((longest buf < 8) × (r ≡ (out, 0)))
    ⊎ ((p : CString) × ((8 ≤ longest buf)
          × ((lead p ≡ longest buf)
              × (IsSuffix p buf
                  × (r ≡ (
                    map to_upper (take (min (longest buf) (out_sz - 1)) p),
                    min (longest buf) (out_sz - 1),
                  ))))))

extract-IsToken :
    (out_sz : ℕ) (out buf : CString) → IsToken out_sz out buf (extract_hex_token out_sz out buf)
unfolding extract_hex_token
extract-IsToken out_sz out buf =
    let s = scan buf unscanned in
    let best = (extracted-best buf).0.1 in
    let len = (extracted-best buf).1 in
    elim (Bool-cases (leb 8 (longest buf))) [
      | inl e ↦
          let same : s.best_len ≡ longest buf = len ∙ rw (e) refl in
          let c =
            copied out_sz out buf s.best_start s.run_start s.best_len s.run_len best
              (at_least_one (longest buf) s.best_len e same) in
          inr (
            c.0,
            (
              leb→le 8 (longest buf) e,
              (
                c.1.0 ∙ same,
                (
                  c.1.1.0,
                  c.1.1.1
                      ∙ ap
                          (λ (l : ℕ).
                            (map to_upper (take (min l (out_sz - 1)) c.0), min l (out_sz - 1)))
                          same,
                ),
              ),
            ),
          )
      | inr e ↦ inl (
        ground (arith, e),
        not_copied out_sz out buf s.best_start s.run_start s.best_len s.run_len best
            (rw (len, e) refl),
      )
    ]

room : (n m : ℕ) → ltb n 2047 ≡ true → n + min (2047 - n) m < 2048
room n m e = ground arith

receive-fits :
    (reads : List CString) (rxbuf : CString)
    → length rxbuf < mon_buf_sz
    → length (receive reads rxbuf) < mon_buf_sz
unfolding receive
receive-fits [] rxbuf h = h
receive-fits (bytes ∷ reads) rxbuf h = elim (Bool-cases (ltb (length rxbuf) 2047)) [
  | inl e ↦ rw (e) (
      receive-fits reads (rxbuf ++ take (2047 - length rxbuf) bytes) (
        rw
          (
            length-append rxbuf (take (2047 - length rxbuf) bytes),
            length-take (2047 - length rxbuf) bytes,
          )
          (room (length rxbuf) (length bytes) e)))
  | inr e ↦ rw (e) h
]

received-extract :
    (out_sz : ℕ) (buf : CString)
    → identify_received out_sz buf ≡ (
        let r = extract_hex_token out_sz [] buf in
        record { out = r.0; found = r.1; installed = false })
unfolding identify_received extract_hex_token scan copy_token end_run
received-extract out_sz [] = refl
received-extract out_sz (c ∷ cs) = refl

-- With a UART that can be set up, the reader takes fewer bytes than its buffer has, leaves the driver
-- removed, and gives the longest run of digits of the bytes, if that has eight: in capitals, and cut to
-- one byte less than `out` has (at least one); else it gives 0 and an empty text.
pub identify-Longest :
    (out_sz : ℕ) (u : Uart)
    → 0 < out_sz
    → u.installs ≡ true
    → u.configures ≡ true
    → let buf = receive u.reads [] in
      let r = identify_uart out_sz u in
      (length buf < mon_buf_sz) × ((r.installed ≡ false) × IsToken out_sz [] buf (r.out, r.found))
unfolding identify_uart
identify-Longest out_sz u h i c = (
  receive-fits u.reads [] (omega arith),
  rw (i, c, received-extract out_sz (receive u.reads []))
      (refl, extract-IsToken out_sz [] (receive u.reads [])),
)
