-- ===== src/Engine/Accounting.antt =====
-- The counters and the results of a run of src/recipe_engine.c.
use test_controller.Base.{
  ℕ, suc, ◌+◌, ◌≤◌, ◌≡◌, true, List, [], ◌∷◌, ◌++◌, arith, length, length-append, if◌then◌else◌,
}
use test_controller.Selftest.{Selftest}
use test_controller.Recipe.{RecipeStep, Recipe, StepResult, RunResult, recipe_steps_max}
use test_controller.Engine.Machine.{Environment, Machine}
use test_controller.Engine.Attempts.{Attempt}
use test_controller.Engine.Steps.{
  Progress, step_result, settle_step, check_timeout, try_step, run_step, run_steps, enabled_total,
  initial, finish, run,
}
use test_controller.Engine.Loop.{run_step_rule, run_steps_rule}

pub passed_results : List StepResult → ℕ
passed_results [] = 0
passed_results (r ∷ rs) = if r.passed then suc (passed_results rs) else passed_results rs

passed_results-append :
    (rs : List StepResult) (r : StepResult)
    → passed_results (rs ++ r ∷ []) ≡ passed_results rs + (if r.passed then 1 else 0)
unfolding passed_results
passed_results-append [] r = ground arith
passed_results-append (x ∷ rs) r = ground (arith, passed_results-append rs r)

-- The counters say what the array of results says.
pub record IsCounted (r : RunResult) : Type 0 where
  pub total_recorded : r.total_count ≡ length r.step_results
  pub passes_recorded : r.pass_count ≡ passed_results r.step_results

-- Room for the results of the steps that are left, all of which have been counted in `total`.
record Room (r : RunResult) (total : ℕ) {P : Type 0} (left : List (RecipeStep P)) : Type 0 where
  counted : IsCounted r
  room : r.total_count + length left ≤ recipe_steps_max
  below : r.total_count + enabled_total left ≤ total

module _ (env : Environment) (recipe : Recipe env.Params) (total start_us : ℕ) where
  open env use {World, Params, Float}

  settle_step-Room :
      (step : RecipeStep Params) (rest : List (RecipeStep Params))
      (ma : Machine World Float × Attempt Float) (p : Progress World Float)
      → step.enabled ≡ true
      → Room p.result total (step ∷ rest)
      → Room (settle_step env step ma p).result total rest
  unfolding settle_step enabled_total
  settle_step-Room step rest (m, a) p on v = ground (
    arith,
    length-append p.result.step_results (step_result step a ∷ []),
    passed_results-append p.result.step_results (step_result step a),
  )

  check_timeout-Room :
      (timeout_ms : ℕ) (step : RecipeStep Params) (rest : List (RecipeStep Params))
      (p : Progress World Float)
      → Room p.result total rest
      → Room (check_timeout env timeout_ms start_us step p).0.result total rest
  unfolding check_timeout
  check_timeout-Room timeout_ms step rest p v = ground arith

  skip-Room :
      (step : RecipeStep Params) (rest : List (RecipeStep Params)) (r : RunResult)
      → Room r total (step ∷ rest)
      → Room r total rest
  unfolding enabled_total
  skip-Room step rest r v = ground arith

  run_step-Room :
      (step : RecipeStep Params) (rest : List (RecipeStep Params)) (p : Progress World Float)
      → Room p.result total (step ∷ rest)
      → Room (run_step env recipe total start_us step p).0.result total rest
  run_step-Room step rest p v =
      run_step_rule env recipe total start_us (λ q. Room q.0.result total rest) step p
        (skip-Room step rest p.result v)
        (λ on gate fn. check_timeout-Room recipe.timeout_ms step rest _ (
          settle_step-Room step rest (try_step env recipe.recovery_branches total step fn p) p on
            v))

  run_steps-Room :
      (steps : List (RecipeStep Params)) (p : Progress World Float)
      → Room p.result total steps
      → (rest : List (RecipeStep Params)) × Room
          (run_steps env recipe total start_us steps p).result
          total
          rest
  run_steps-Room =
      run_steps_rule env recipe total start_us (λ rest q. Room q.result total rest) run_step-Room

module _ (env : Environment) where
  open env use {World, Params, Float}

  -- In a run of a recipe of at most 140 steps every step that is counted has its result recorded, the
  -- passes are counted as recorded, and no more steps are counted than are enabled.
  pub run-IsCounted :
      (recipe : Recipe Params) (sw : Selftest × World)
      → length recipe.steps ≤ recipe_steps_max
      → IsCounted (run env recipe sw).result
        × ((run env recipe sw).result.total_count ≤ enabled_total recipe.steps)
  unfolding run finish initial passed_results
  run-IsCounted recipe (st, w) fits =
      let start_us = env.timer_us w in
      let total = enabled_total recipe.steps in
      let (rest, v) =
        run_steps-Room env recipe total start_us recipe.steps (initial env (st, w)) (omega arith) in
      ground (arith, v)
