-- ===== src/Watchdog/Removal.antt =====
-- What makes the watchdog of src/recipe_task.c report a removal, and what the detection lets it see.
use test_controller.Base.{
  ℕ, zero, suc, ◌≤◌, ◌≡◌, refl, Bool, true, false, Option, none, some, List, [], ◌∷◌, arith, ◌⊎◌,
  inl, inr, ◌∙◌,
}
use test_controller.Base.Int.{ℤ, ltb_ℤ}
use test_controller.Watchdog.{
  Observation, Pass, watching, ended, removed, near_zero_ma, on_current, pass, after_pass, watch,
}
use test_controller.Dut.Detect.{Detector, stop, pause, resume, off_idle, set_autostart}

abbrev is_near_zero : Option ℤ → Bool
is_near_zero none = false
is_near_zero (some ma) = ltb_ℤ ma near_zero_ma

-- A reading near zero while testing.
pub record IsLow (o : Observation) : Type 0 where
  pub testing : (o.testing ≡ true) × (o.still_testing ≡ true)
  pub low : is_near_zero o.current_ma ≡ true

-- Two observations in a row, the second without a device.
unfoldable pub Removed : List Observation → Type 0
Removed [] = ⊥
Removed (a ∷ []) = ⊥
Removed (a ∷ (b ∷ os)) = (IsLow a × IsLow b × (b.present ≡ false)) ⊎ Removed (b ∷ os)

pass-watching :
    (n m : ℕ) (o : Observation) → pass n o ≡ watching m → (m ≡ 0) ⊎ ((m ≡ suc n) × IsLow o)
unfolding pass on_current
pass-watching n m o h = ground arith

pass-removed :
    (n : ℕ) (o : Observation) → pass n o ≡ removed → IsLow o × (o.present ≡ false) × (1 ≤ n)
unfolding pass on_current
pass-removed n o h = ground arith

-- The next observation ends the wait of a count that is not 0.
unfoldable Waiting : ℕ → List Observation → Type 0
Waiting n [] = ⊥
Waiting n (o ∷ os) = (1 ≤ n) × IsLow o × (o.present ≡ false)

behind : (o : Observation) (os : List Observation) → Removed os → Removed (o ∷ os)
unfolding Removed
behind o [] h = absurd h
behind o (x ∷ os) h = inr h

closes :
    (n m : ℕ) (o : Observation) (os : List Observation)
    → (m ≡ 0) ⊎ ((m ≡ suc n) × IsLow o)
    → Waiting m os
    → Removed (o ∷ os)
unfolding Waiting Removed
closes n m o [] h w = absurd w
closes n m o (x ∷ os) (inl none_yet) w = absurd (omega arith)
closes n m o (x ∷ os) (inr next) w = inl (next.1, w.1, w.2)

after_pass-Waiting :
    (n : ℕ) (o : Observation) (os : List Observation)
    → ((m : ℕ) → watch m os ≡ true → Removed os ⊎ Waiting m os)
    → (p : Pass) → pass n o ≡ p
    → after_pass p (λ m. watch m os) ≡ true
    → Removed (o ∷ os) ⊎ Waiting n (o ∷ os)
unfolding Waiting after_pass
after_pass-Waiting n o os later (watching m) e g = elim (later m g) [
  | inl gone ↦ inl (behind o os gone)
  | inr now ↦ inl (closes n m o os (pass-watching n m o e) now)
]
after_pass-Waiting n o os later ended e g = absurd (cc)
after_pass-Waiting n o os later removed e g = let r = pass-removed n o e in inr (r.2, r.0, r.1)

watch-Waiting : (n : ℕ) (os : List Observation) → watch n os ≡ true → Removed os ⊎ Waiting n os
unfolding watch after_pass
watch-Waiting n [] h = absurd (cc)
watch-Waiting n (o ∷ os) h = after_pass-Waiting n o os (λ m. watch-Waiting m os) (pass n o) refl h

not-Waiting : (os : List Observation) → ¬ Waiting 0 os
unfolding Waiting
not-Waiting [] w = w
not-Waiting (o ∷ os) w = absurd (omega arith)

-- The watchdog reports a removal only if two observations in a row had a current near zero while the
-- test ran, and at the second the detection said that no device is present.
pub watch-Removed : (os : List Observation) → watch 0 os ≡ true → Removed os
watch-Removed os h = elim (watch-Waiting 0 os h) [
  | inl gone ↦ gone
  | inr waiting ↦ absurd (not-Waiting os waiting)
]

pass-gone : (n : ℕ) (o : Observation) → IsLow o → o.present ≡ false → 1 ≤ n → pass n o ≡ removed
unfolding pass on_current
pass-gone n o low gone h = ground arith

pass-first : (o : Observation) → IsLow o → pass 0 o ≡ watching 1
unfolding pass on_current
pass-first o low = ground arith

-- Two observations in a row with a current near zero and no device are reported, whatever the count.
pub removal_seen :
    (n : ℕ) (a b : Observation) (os : List Observation)
    → IsLow a
    → IsLow b
    → a.present ≡ false
    → b.present ≡ false
    → watch n (a ∷ (b ∷ os)) ≡ true
unfolding watch
removal_seen zero a b os low_a low_b gone_a gone_b =
    rw (pass-first a low_a, watch) (rw (pass-gone 1 b low_b gone_b (omega arith)) refl)
removal_seen (suc n) a b os low_a low_b gone_a gone_b =
    rw (pass-gone (suc n) a low_a gone_a (omega arith), watch) refl

after_pass-there :
    (n : ℕ) (o : Observation) (os : List Observation)
    → o.present ≡ true
    → ((m : ℕ) → watch m os ≡ false)
    → (p : Pass) → pass n o ≡ p
    → after_pass p (λ m. watch m os) ≡ false
unfolding after_pass
after_pass-there n o os there later (watching m) e = later m
after_pass-there n o os there later ended e = refl
after_pass-there n o os there later removed e = let r = pass-removed n o e in absurd (cc)

-- What is called while a test runs, with the detection task ended: the state machine has stopped it
-- when it left IDLE.
pub data Quiet : Type 0 where
  stopping pausing resuming leaving_idle : Quiet
  switching : Bool → Quiet

unfoldable pub call : Quiet → Detector → Detector
unfolding stop pause resume off_idle set_autostart
call stopping s = stop s
call pausing s = pause s
call resuming s = resume s
call leaving_idle s = off_idle s
call (switching b) s = set_autostart b s

pub record Moment : Type 0 where
  pub calls : List Quiet
  pub in_test : Bool
  pub still_in_test : Bool
  pub current : Option ℤ

unfoldable pub calls_all : List Quiet → Detector → Detector
unfolding call
calls_all [] s = s
calls_all (q ∷ qs) s = calls_all qs (call q s)

abbrev observation : Detector → Moment → Observation
observation s m = record {
  testing = m.in_test;
  still_testing = m.still_in_test;
  current_ma = m.current;
  present = s.dut_present;
}

-- What the watchdog observes, with the calls between its passes.
unfoldable pub observe : Detector → List Moment → List Observation
unfolding calls_all
observe s [] = []
observe s (m ∷ ms) = let s' = calls_all m.calls s in observation s' m ∷ observe s' ms

calls_all-keep : (qs : List Quiet) (s : Detector) → (calls_all qs s).dut_present ≡ s.dut_present
unfolding calls_all call stop pause resume off_idle set_autostart
calls_all-keep [] s = refl
calls_all-keep (q ∷ qs) s = calls_all-keep qs (call q s) ∙ by_call q
  where
    by_call : (x : Quiet) → (call x s).dut_present ≡ s.dut_present
    by_call stopping = refl
    by_call pausing = refl
    by_call resuming = refl
    by_call leaving_idle = refl
    by_call (switching b) = refl

-- With the detection stopped, the removal of a device that was there when the test began is never
-- reported, whatever currents are read.
pub removal_unseen :
    (s : Detector) (n : ℕ) (ms : List Moment)
    → s.dut_present ≡ true
    → watch n (observe s ms) ≡ false
unfolding watch observe after_pass
removal_unseen s n [] there = refl
removal_unseen s n (m ∷ ms) there =
    let kept = calls_all-keep m.calls s ∙ there in
    after_pass-there n (observation (calls_all m.calls s) m) (observe (calls_all m.calls s) ms) kept
      (λ k. removal_unseen (calls_all m.calls s) k ms kept)
      (pass n (observation (calls_all m.calls s) m)) refl
