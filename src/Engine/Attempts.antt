-- ===== src/Engine/Attempts.antt =====
-- src/recipe_engine.c: the retry loop of one step.
use test_controller.Base.{
  ℕ, zero, suc, ◌+◌, ◌-◌, ◌/◌, ◌%◌, ◌^◌, Bool, false, Option, none, some, List, CString, codes,
  str_eq, length, take, drop, get_elem?, ltb, if◌then◌else◌,
}
use test_controller.Base.Int.{ℤ, pos}
use test_controller.Selftest.{Selftest}
use test_controller.Recipe.{RecoveryBranch, RecipeStep}
use test_controller.Engine.Machine.{
  Environment, Machine, Meas, verdict, execute, find_branch, run_recovery_branch,
}

-- The locals of the loop body that outlive an attempt.
pub record Attempt (F : Type 0) : Type 0 where
  pub step_ok : Bool
  pub has_value : Bool
  pub measured_value : ℤ
  pub step_meas : Option (Meas F)
  pub duration_ms : ℕ  -- uint32_t

abbrev pub no_attempt : {F : Type 0} → Attempt F
no_attempt = record {
  step_ok = false;
  has_value = false;
  measured_value = pos 0;
  step_meas = none;
  duration_ms = 0;
}

-- (uint32_t)((end - start) / 1000); the timer does not run backwards.
abbrev pub elapsed_ms : ℕ → ℕ → ℕ
elapsed_ms start end = ((end - start) / 1000) % 2 ^ 32

-- The last check of the buffer, if the primitive added any.
unfoldable pub capture_value : {F : Type 0} → Selftest → Selftest → Attempt F → Attempt F
capture_value before after a =
    if ltb (length before.checks) (length after.checks)
    then elim (get_elem? after.checks (length after.checks - 1)) [
      | none ↦ a
      | some c ↦ record a { has_value = c.has_value; measured_value = c.value }
    ]
    else a

abbrev pub is_recovery : CString → Bool
is_recovery on_error = str_eq (take 9 on_error) (codes "recovery:")

module _ (env : Environment) where
  open env use {World, Params, Float}

  -- The units of an entry and of the captured measurement are arrays of one size.
  unfoldable pub capture_meas : World → World → Attempt Float → Attempt Float
  capture_meas before after a =
      if ltb (env.meas_count before) (env.meas_count after)
      then elim (env.meas_entry after (env.meas_count after - 1)) [
        | none ↦ a
        | some me ↦ record a { step_meas = some me }
      ]
      else a

  -- One pass of the loop, up to the test of `step_ok`.
  unfoldable pub attempt_once :
      RecipeStep Params
      → (Params → Selftest × World → Selftest × World)
      → Machine World Float × Attempt Float
      → Machine World Float × Attempt Float
  unfolding execute capture_value capture_meas verdict
  attempt_once step fn (m, a) =
      let m' = execute env step.primitive fn step.params m in
      let judged = record a {
        step_ok = verdict m.selftest m'.selftest;
        duration_ms = elapsed_ms (env.timer_us m.world) (env.timer_us m'.world);
      } in
      (m', capture_meas m.world m'.world (capture_value m.selftest m'.selftest judged))

  -- `left` attempts may still be made. A recovery branch that fails ends the loop.
  unfoldable pub attempts_loop :
      RecipeStep Params
      → (Params → Selftest × World → Selftest × World)
      → Option (RecoveryBranch Params)
      → ℕ
      → Machine World Float × Attempt Float
      → Machine World Float × Attempt Float
  unfolding attempt_once run_recovery_branch
  attempts_loop step fn branch zero ma = ma
  attempts_loop step fn branch (suc left) ma =
      let tried = attempt_once step fn ma in
      let retry = attempts_loop step fn branch left tried in
      if tried.1.step_ok then tried else elim branch [
        | none ↦ retry
        | some b ↦
            let (recovered, branch_ok) = run_recovery_branch env b tried.0 in
            let again = attempts_loop step fn branch left (recovered, tried.1) in
            if ltb 0 left then (if branch_ok then again else (recovered, tried.1)) else retry
      ]

  -- The branch that the step's `on_error` names, if there is one.
  unfoldable pub branch_of :
      List (RecoveryBranch Params) → RecipeStep Params → Option (RecoveryBranch Params)
  unfolding find_branch
  branch_of branches step =
      if is_recovery step.on_error then find_branch env (drop 9 step.on_error) branches else none

  abbrev pub max_retries : Option (RecoveryBranch Params) → ℕ
  max_retries none = 1
  max_retries (some b) = 1 + b.max_attempts
