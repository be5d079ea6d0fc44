-- ===== src/Engine/RetryAfter.antt =====
-- `onComplete` of a recovery branch: src/recipe_json.c parses it into `retry_after`, and
-- src/recipe_engine.c does not read it.
use mathlib.Core.Option
use test_controller.Base.{
  ℕ, zero, suc, ◌≡◌, refl, ap, Bool, Option, none, some, List, [], ◌∷◌, map, arith, CString, drop,
  Option-cases, inl, inr,
}
use test_controller.Selftest.{Selftest}
use test_controller.Recipe.{RecoveryBranch, RecipeStep, Recipe}
use test_controller.Engine.Machine.{Environment, Machine, find_branch, run_recovery_branch}
use test_controller.Engine.Attempts.{Attempt, attempt_once, attempts_loop, branch_of, max_retries}
use test_controller.Engine.Steps.{
  Progress, announce, try_step, run_step, run_steps, run, enabled_total, finish, initial,
}

pub set_retry_after : {P : Type 0} → Bool → RecoveryBranch P → RecoveryBranch P
set_retry_after v b = record b { retry_after = v }

-- The recipe with `retry_after` set to one value in every branch.
pub with_retry_after : {P : Type 0} → Bool → Recipe P → Recipe P
unfolding set_retry_after
with_retry_after v r = record r { recovery_branches = map (set_retry_after v) r.recovery_branches }

module _ (env : Environment) (v : Bool) where
  open env use {World, Params, Float}

  find_branch-map :
      (name : CString) (bs : List (RecoveryBranch Params))
      → find_branch env name (map (set_retry_after v) bs)
        ≡ Option.map (set_retry_after v) (find_branch env name bs)
  unfolding find_branch set_retry_after
  find_branch-map name [] = refl
  find_branch-map name (b ∷ bs) = ground (arith, find_branch-map name bs)

  branch_of-map :
      (bs : List (RecoveryBranch Params)) (step : RecipeStep Params)
      → branch_of env (map (set_retry_after v) bs) step
        ≡ Option.map (set_retry_after v) (branch_of env bs step)
  unfolding branch_of
  branch_of-map bs step = ground (arith, find_branch-map (drop 9 step.on_error) bs)

  attempts_loop-map :
      (step : RecipeStep Params) (fn : Params → Selftest × World → Selftest × World)
      (branch : Option (RecoveryBranch Params)) (left : ℕ)
      (ma : Machine World Float × Attempt Float)
      → attempts_loop env step fn (Option.map (set_retry_after v) branch) left ma
        ≡ attempts_loop env step fn branch left ma
  unfolding attempts_loop set_retry_after run_recovery_branch
  attempts_loop-map step fn none left ma = refl
  attempts_loop-map step fn (some b) zero ma = refl
  attempts_loop-map step fn (some b) (suc left) ma =
      let tried = attempt_once env step fn ma in
      let branched = run_recovery_branch env b tried.0 in
      rw (
        attempts_loop-map step fn (some b) left tried,
        attempts_loop-map step fn (some b) left (branched.0, tried.1),
      )

  max_retries-map :
      (branch : Option (RecoveryBranch Params))
      → max_retries env (Option.map (set_retry_after v) branch) ≡ max_retries env branch
  unfolding set_retry_after
  max_retries-map none = refl
  max_retries-map (some b) = refl

  try_step-map :
      (bs : List (RecoveryBranch Params)) (total : ℕ) (step : RecipeStep Params)
      (fn : Params → Selftest × World → Selftest × World) (p : Progress World Float)
      → try_step env (map (set_retry_after v) bs) total step fn p ≡ try_step env bs total step fn p
  unfolding try_step
  try_step-map bs total step fn p =
      rw (branch_of-map bs step, max_retries-map (branch_of env bs step))
        (attempts_loop-map step fn (branch_of env bs step) (max_retries env (branch_of env bs step))
          (announce env total step p))

  run_step-map :
      (recipe : Recipe Params) (total start_us : ℕ) (step : RecipeStep Params)
      (p : Progress World Float)
      → run_step env (with_retry_after v recipe) total start_us step p
        ≡ run_step env recipe total start_us step p
  unfolding run_step with_retry_after
  run_step-map recipe total start_us step p = elim (Option-cases (env.primitive step.primitive)) [
    | inl gone ↦ rw (gone, run_step)
    | inr (fn, found) ↦
        rw (found, run_step) (rw (try_step-map recipe.recovery_branches total step fn p))
  ]

  run_steps-map :
      (recipe : Recipe Params) (total start_us : ℕ) (steps : List (RecipeStep Params))
      (p : Progress World Float)
      → run_steps env (with_retry_after v recipe) total start_us steps p
        ≡ run_steps env recipe total start_us steps p
  unfolding run_steps
  run_steps-map recipe total start_us [] p = refl
  run_steps-map recipe total start_us (step ∷ steps) p =
      let (p', stop) = run_step env recipe total start_us step p in
      rw (run_step-map recipe total start_us step p, run_steps-map recipe total start_us steps p')

  -- A run does not depend on `retry_after`: a branch that says "abort" on completion has its step
  -- retried all the same.
  pub run-with_retry_after :
      (recipe : Recipe Params) (sw : Selftest × World)
      → run env (with_retry_after v recipe) sw ≡ run env recipe sw
  unfolding run with_retry_after
  run-with_retry_after recipe (st, w) =
      let start_us = env.timer_us w in
      let total = enabled_total recipe.steps in
      ap (finish env start_us)
        (run_steps-map recipe total start_us recipe.steps (initial env (st, w)))
