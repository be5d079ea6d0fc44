-- ===== src/Identify/Runs.antt =====
-- src/dut_identify.c: extract_hex_token the loop over the bytes, and the best run.
use Prim.Native.Nat.{max}
use test_controller.Base.{
  ℕ, suc, ◌+◌, ◌≤◌, true, false, Option, none, some, [], ◌∷◌, ltb, leb, ◌≡◌, refl, ◌∙◌,
  if◌then◌else◌, CString, arith, ◌&&◌, ap, Bool-cases, inl, inr,
}
use test_controller.Identify.{Scan, is_hex, extend_run, end_run, scan, unscanned}

-- The number of digits that a text begins with.
unfoldable pub lead : CString → ℕ
lead [] = 0
lead (c ∷ cs) = if is_hex c then suc (lead cs) else 0

-- The length of the longest run of digits.
unfoldable pub longest : CString → ℕ
longest [] = 0
longest (c ∷ cs) = max (lead (c ∷ cs)) (longest cs)

-- A pointer into the text.
pub data IsSuffix (p : CString) : CString → Type 0 where
  here : IsSuffix p p
  there : {c : ℕ} {cs : CString} → IsSuffix p cs → IsSuffix p (c ∷ cs)

-- A run is the best one of all if it has eight digits and more than the best so far.
abbrev pub better : ℕ → ℕ → ℕ
better best m = if leb 8 m then max best m else best

abbrev pub IsRun : CString → CString → ℕ → Option CString → Type 0
IsRun buf cs n none = n ≡ 0
IsRun buf cs n (some r) = (lead r ≡ n + lead cs) × IsSuffix r buf

abbrev pub IsBest : CString → ℕ → Option CString → Type 0
IsBest buf n none = n ≡ 0
IsBest buf n (some b) = (lead b ≡ n) × ((8 ≤ n) × IsSuffix b buf)

abbrev pub at : Option CString → Option CString → ℕ → ℕ → Scan
at b r l n = record { best_start = b; best_len = l; run_start = r; run_len = n }

abbrev pub IsScan : CString → CString → Scan → Type 0
IsScan buf cs s = IsRun buf cs s.run_len s.run_start × IsBest buf s.best_len s.best_start

long_run : (l n : ℕ) → (leb 8 n && ltb l n) ≡ true → 8 ≤ n
long_run l n e = ground arith

extend_run-IsScan :
    (buf : CString) (c : ℕ) (cs : CString) (b r : Option CString) (l n : ℕ)
    → is_hex c ≡ true
    → IsSuffix (c ∷ cs) buf
    → IsScan buf (c ∷ cs) (at b r l n)
    → IsScan buf cs (extend_run (c ∷ cs) (at b r l n))
unfolding extend_run lead
extend_run-IsScan buf c cs b none l n h p (run, best) = ((rw (h) (omega arith), p), best)
extend_run-IsScan buf c cs b (some r) l n h p ((run, q), best) =
    ((run ∙ rw (h) (omega arith), q), best)

end_run-IsScan :
    (buf cs ds : CString) (b r : Option CString) (l n : ℕ)
    → lead cs ≡ 0
    → IsScan buf cs (at b r l n)
    → IsScan buf ds (end_run (at b r l n))
unfolding end_run
end_run-IsScan buf cs ds b none l n h (run, best) = (refl, best)
end_run-IsScan buf cs ds b (some r) l n h ((run, q), best) =
    elim (Bool-cases (leb 8 n && ltb l n)) [
      | inl e ↦ rw (e) (refl, (omega arith, (long_run l n e, q)))
      | inr e ↦ rw (e) (refl, best)
    ]

tail_suffix : {c : ℕ} {cs buf : CString} → IsSuffix (c ∷ cs) buf → IsSuffix cs buf
tail_suffix here = there here
tail_suffix (there p) = there (tail_suffix p)

scan-digit :
    (c : ℕ) (cs : CString) (s : Scan)
    → is_hex c ≡ true
    → scan (c ∷ cs) s ≡ scan cs (extend_run (c ∷ cs) s)
unfolding scan
scan-digit c cs s e = rw (e) refl

scan-other :
    (c : ℕ) (cs : CString) (s : Scan) → is_hex c ≡ false → scan (c ∷ cs) s ≡ scan cs (end_run s)
unfolding scan
scan-other c cs s e = rw (e) refl

lead-digit : (c : ℕ) (cs : CString) → is_hex c ≡ true → lead (c ∷ cs) ≡ suc (lead cs)
unfolding lead
lead-digit c cs e = rw (e) refl

lead-other : (c : ℕ) (cs : CString) → is_hex c ≡ false → lead (c ∷ cs) ≡ 0
unfolding lead
lead-other c cs e = rw (e) refl

longest-cons : (c : ℕ) (cs : CString) → longest (c ∷ cs) ≡ max (lead (c ∷ cs)) (longest cs)
unfolding longest
longest-cons c cs = refl

scan-IsScan :
    (buf cs : CString) (s : Scan) → IsSuffix cs buf → IsScan buf cs s → IsScan buf [] (scan cs s)
unfolding scan lead
scan-IsScan buf [] s p h =
    end_run-IsScan buf [] [] s.best_start s.run_start s.best_len s.run_len refl h
scan-IsScan buf (c ∷ cs) s p h = elim (Bool-cases (is_hex c)) [
  | inl e ↦ rw (scan-digit c cs s e) (
      scan-IsScan buf cs (extend_run (c ∷ cs) s) (tail_suffix p)
        (extend_run-IsScan buf c cs s.best_start s.run_start s.best_len s.run_len e p h))
  | inr e ↦ rw (scan-other c cs s e) (
      scan-IsScan buf cs (end_run s) (tail_suffix p) (
        end_run-IsScan buf (c ∷ cs) cs s.best_start s.run_start s.best_len s.run_len
          (lead-other c cs e) h))
]

abbrev pub run_length : Option CString → ℕ → ℕ
run_length none n = 0
run_length (some r) n = n

lead≤longest : (cs : CString) → lead cs ≤ longest cs
unfolding lead longest
lead≤longest [] = omega arith
lead≤longest (c ∷ cs) = omega arith

-- What the loop finds behind the end of a run.
behind_run :
    (cs : CString) (o : Option CString) (r : CString) (l n : ℕ)
    → ((o : Option CString) (l : ℕ)
        → (scan cs (at o none l 0)).best_len ≡ better l (max (0 + lead cs) (longest cs)))
    → (scan cs (end_run (at o (some r) l n))).best_len ≡ better l (max n (longest cs))
unfolding end_run
behind_run cs o r l n ih = elim (Bool-cases (leb 8 n && ltb l n)) [
  | inl e ↦ rw (e) (ih (some r) n ∙ grind (arith, lead≤longest cs))
  | inr e ↦ rw (e) (ih o l ∙ grind (arith, lead≤longest cs))
]

-- How far the loop gets.
scan-best_len :
    (cs : CString) (b r : Option CString) (l n : ℕ)
    → (scan cs (at b r l n)).best_len ≡ better l (max (run_length r n + lead cs) (longest cs))
unfolding scan lead longest end_run extend_run
scan-best_len [] b none l n = ground arith
scan-best_len [] b (some r) l n = ground arith
scan-best_len (c ∷ cs) b none l n = elim (Bool-cases (is_hex c)) [
  | inl e ↦
      ap (λ s. s.best_len) (scan-digit c cs (at b none l n) e)
      ∙ scan-best_len cs b (some (c ∷ cs)) l 1
      ∙ ap (better l) (omega (arith, lead-digit c cs e, longest-cons c cs))
  | inr e ↦
      ap (λ s. s.best_len) (scan-other c cs (at b none l n) e)
      ∙ scan-best_len cs b none l 0
      ∙ ap (better l) (omega (arith, lead-other c cs e, longest-cons c cs, lead≤longest cs))
]
scan-best_len (c ∷ cs) b (some r) l n = elim (Bool-cases (is_hex c)) [
  | inl e ↦
      ap (λ s. s.best_len) (scan-digit c cs (at b (some r) l n) e)
      ∙ scan-best_len cs b (some r) l (n + 1)
      ∙ ap (better l) (omega (arith, lead-digit c cs e, longest-cons c cs))
  | inr e ↦
      ap (λ s. s.best_len) (scan-other c cs (at b (some r) l n) e)
      ∙ behind_run cs b r l n (λ o m. scan-best_len cs o none m 0)
      ∙ ap (better l) (omega (arith, lead-other c cs e, longest-cons c cs, lead≤longest cs))
]

pub extracted-best :
    (buf : CString)
    → IsScan buf [] (scan buf unscanned)
      × ((scan buf unscanned).best_len ≡ (if leb 8 (longest buf) then longest buf else 0))
extracted-best buf = (
  scan-IsScan buf buf unscanned here (refl, refl),
  scan-best_len buf none none 0 0 ∙ grind (arith, lead≤longest buf),
)
