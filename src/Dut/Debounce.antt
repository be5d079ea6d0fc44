-- ===== src/Dut/Debounce.antt =====
-- The presence of src/dut_detect.c against a plain debouncer.
use test_controller.Base.{
  ℕ, zero, suc, ◌+◌, ◌≤◌, ◌<◌, ◌≡◌, refl, Bool, true, false, not, Option, none, some, List, [], ◌∷◌,
  arith, ltb, leb, ◌==◌, if◌then◌else◌, ap, Option-cases, sym, ◌∙◌, Bool-cases, inl, inr,
}
use test_controller.Dut.Detect.{
  Detector, Pending, Reading, threshold, debounce, equal, debounced, on_sample, publish_presence,
  poll, polls,
}

-- The presence that a sample shows; `none` for one that is passed over.
abbrev pub shown : Reading → Option Bool
shown r = elim r.sample [
  | none ↦ none
  | some mv ↦ if mv == 0 then none else some (ltb mv threshold)
]

-- The plain debouncer: the presence, and how many readings in a row have contradicted it.
abbrev pub settle : Option Bool → Bool × ℕ → Bool × ℕ
settle none (present, n) = (present, n)
settle (some d) (present, n) =
    if equal d present then (present, 0) else if leb 2 n then (d, 0) else (present, n + 1)

unfoldable pub settled : List Reading → Bool × ℕ → Bool × ℕ
settled [] pn = pn
settled (r ∷ rs) pn = settled rs (settle (shown r) pn)

-- What the task keeps once it has reported: a pending count stands for the other presence.
pub record IsSettling (s : Detector) (l : Pending) : Type 0 where
  pub reported : s.first_report ≡ false
  pub few : l.debounce_count ≤ 2
  pub other : 0 < l.debounce_count → l.pending_state ≡ not s.dut_present

contradicts : (d p : Bool) → equal d p ≡ false → not p ≡ d
contradicts true true h = absurd (cc)
contradicts true false h = refl
contradicts false true h = refl
contradicts false false h = absurd (cc)

new_count : (d p : Bool) (n : ℕ) → (0 < n → p ≡ d) → (if equal d p then n + 1 else 1) ≡ n + 1
new_count true true n h = refl
new_count true false zero h = refl
new_count true false (suc n) h = absurd (false_true (h (omega arith)))
  where
    false_true : false ≡ true → ⊥
    false_true e = cc
new_count false true zero h = refl
new_count false true (suc n) h = absurd (true_false (h (omega arith)))
  where
    true_false : true ≡ false → ⊥
    true_false e = cc
new_count false false n h = refl

next_test : (n : ℕ) → leb debounce (n + 1) ≡ leb 2 n
next_test n = ground arith

still_few : (n : ℕ) → leb 2 n ≡ false → n + 1 ≤ 2
still_few n h = ground arith

debounced-settle :
    (d : Bool) (mv : ℕ) (r : Reading) (s : Detector) (l : Pending)
    → IsSettling s l
    → IsSettling (debounced d mv r s l).0 (debounced d mv r s l).1
      × (((debounced d mv r s l).0.dut_present, (debounced d mv r s l).1.debounce_count)
          ≡ settle (some d) (s.dut_present, l.debounce_count))
unfolding debounced
debounced-settle d mv r s l v = elim (Bool-cases (equal d s.dut_present)) [
  | inl agree ↦
      rw (agree, debounced)
        (
          record { reported = v.reported; few = omega arith; other = λ h. absurd (omega arith) },
          refl,
        )
  | inr differ ↦
      let other = contradicts d s.dut_present differ in
      let counted = new_count d l.pending_state l.debounce_count (λ h. v.other h ∙ other) in
      elim (Bool-cases (leb 2 l.debounce_count)) [
        | inl third ↦
            rw (differ, debounced)
              (rw (counted) (
                rw (next_test l.debounce_count ∙ third, third)
                  (
                    record {
                      reported = v.reported;
                      few = omega arith;
                      other = λ h. absurd (omega arith);
                    },
                    refl,
                  )))
        | inr fewer ↦
            rw (differ, debounced)
              (rw (counted) (
                rw (next_test l.debounce_count ∙ fewer, fewer)
                  (
                    record {
                      reported = v.reported;
                      few = still_few l.debounce_count fewer;
                      other = λ h. sym other;
                    },
                    refl,
                  )))
      ]
]

on_sample-debounced :
    (mv : ℕ) (r : Reading) (s : Detector) (l : Pending)
    → s.first_report ≡ false
    → on_sample mv r s l ≡ debounced (ltb mv threshold) mv r (record s { last_mv = mv }) l
unfolding on_sample
on_sample-debounced mv r s l reported =
    let d = ltb mv threshold in
    let first = record s { last_mv = mv; dut_present = d; first_report = false } in
    ap
      (λ b.
        if b
        then (first, record l { debounce_count = 0 }, publish_presence d mv r first)
        else debounced d mv r (record s { last_mv = mv }) l)
      reported

poll-settle :
    (r : Reading) (s : Detector) (l : Pending)
    → IsSettling s l
    → IsSettling (poll r (s, l)).0 (poll r (s, l)).1
      × (((poll r (s, l)).0.dut_present, (poll r (s, l)).1.debounce_count)
          ≡ settle (shown r) (s.dut_present, l.debounce_count))
unfolding poll
poll-settle r s l v = elim (Option-cases r.sample) [
  | inl failed ↦ rw (failed, poll) (v, refl)
  | inr (mv, sampled) ↦ elim (Bool-cases (mv == 0)) [
    | inl early ↦ rw (sampled, poll) (rw early (v, refl))
    | inr valid ↦
        rw (sampled, poll)
          (rw valid (
            rw (on_sample-debounced mv r s l v.reported) (
              debounced-settle (ltb mv threshold) mv r (record s { last_mv = mv }) l
                (record { reported = v.reported; few = v.few; other = v.other }))))
  ]
]

-- Once a presence has been reported, the task's presence and count are those of the plain debouncer,
-- which changes the presence at the third reading in a row that contradicts it.
pub polls-settled :
    (rs : List Reading) (s : Detector) (l : Pending)
    → IsSettling s l
    → IsSettling (polls rs (s, l)).0 (polls rs (s, l)).1
      × (((polls rs (s, l)).0.dut_present, (polls rs (s, l)).1.debounce_count)
          ≡ settled rs (s.dut_present, l.debounce_count))
unfolding polls settled
polls-settled [] s l v = (v, refl)
polls-settled (r ∷ rs) s l v =
    let one = poll-settle r s l v in
    let rest = polls-settled rs (poll r (s, l)).0 (poll r (s, l)).1 one.0 in
    (rest.0, rest.1 ∙ ap (settled rs) one.1)
