-- ===== src/Watchdog.antt =====
-- src/recipe_task.c: the watchdog that stops a test when the device under test is removed.
pub mod Removal
mod Tests
use test_controller.Base.{
  ℕ, zero, suc, ◌+◌, Bool, true, false, not, Option, none, some, List, [], ◌∷◌, leb, if◌then◌else◌,
}
use test_controller.Base.Int.{ℤ, pos, ltb_ℤ}

-- What one pass of the loop finds: the state machine is testing, in front of the delay and behind it;
-- the current (`none` for a failed reading); what dut_detect_present answers.
pub record Observation : Type 0 where
  pub testing : Bool
  pub still_testing : Bool
  pub current_ma : Option ℤ
  pub present : Bool

abbrev pub near_zero_ma : ℤ
near_zero_ma = pos 2

-- What a pass does: goes on with the count of readings near zero, ends the task, or reports the
-- removal (tc_sm_cmd_dut_removed) and ends the task.
pub data Pass : Type 0 where
  watching : ℕ → Pass
  ended : Pass
  removed : Pass

unfoldable pub on_current : ℕ → Bool → ℤ → Pass
on_current consecutive_zero present ma =
    if ltb_ℤ ma near_zero_ma
    then (if leb 2 (consecutive_zero + 1)
        then (if not present then removed else watching 0)
        else watching (consecutive_zero + 1))
    else watching 0

unfoldable pub pass : ℕ → Observation → Pass
unfolding on_current
pass consecutive_zero o =
    if not o.testing then ended else if not o.still_testing then ended else elim o.current_ma [
      | none ↦ watching 0
      | some ma ↦ on_current consecutive_zero o.present ma
    ]

-- What follows a pass: the next one, or the end of the task; `true` for a reported removal.
unfoldable pub after_pass : Pass → (ℕ → Bool) → Bool
after_pass (watching m) next = next m
after_pass ended next = false
after_pass removed next = true

-- The passes of dut_watchdog_task over what they find, from a count; `true` when it reports a removal.
unfoldable pub watch : ℕ → List Observation → Bool
unfolding pass after_pass
watch n [] = false
watch n (o ∷ os) = after_pass (pass n o) (λ m. watch m os)
