-- ===== src/Engine/Steps.antt =====
-- src/recipe_engine.c: the loop over the steps of a recipe, and the outcome.
use test_controller.Base.{
  ℕ, suc, ◌+◌, Bool, true, false, not, ◌&&◌, ◌||◌, none, some, List, [], ◌∷◌, ◌++◌, CString, codes,
  str_eq, truncated, length, ltb, if◌then◌else◌,
}
use test_controller.Selftest.{Selftest, reset_checks}
use test_controller.Recipe.{
  Criticality, critical, required, optional, RecoveryBranch, RecipeStep, Recipe, Outcome, pass,
  fail, abort, timeout, StepResult, RunResult, recipe_steps_max,
}
use test_controller.Engine.Machine.{Environment, Machine, progress, step_done, power_cut}
use test_controller.Engine.Attempts.{
  Attempt, no_attempt, elapsed_ms, is_recovery, branch_of, max_retries, attempts_loop,
}

-- The locals of recipe_engine_run that live across steps.
pub record Progress (W F : Type 0) : Type 0 where
  pub machine : Machine W F
  pub result : RunResult
  pub step_num : ℕ
  pub any_required_fail : Bool
  pub aborted : Bool

abbrev pub is_empty : CString → Bool
is_empty [] = true
is_empty (c ∷ cs) = false

abbrev pub or_else : CString → CString → CString
or_else s t = if is_empty s then t else s

unfoldable pub enabled_total : {P : Type 0} → List (RecipeStep P) → ℕ
enabled_total [] = 0
enabled_total (s ∷ ss) = if s.enabled then suc (enabled_total ss) else enabled_total ss

abbrev pub last_duration : List StepResult → ℕ
last_duration [] = 0
last_duration (r ∷ []) = r.duration_ms
last_duration (r ∷ (x ∷ rs)) = last_duration (x ∷ rs)

abbrev pub first_failure : CString → RunResult → RunResult
first_failure id r =
    if is_empty r.failed_step then record r { failed_step = truncated 32 id } else r

abbrev pub step_result : {P F : Type 0} → RecipeStep P → Attempt F → StepResult
step_result step a = record {
  step_id = truncated 32 step.id;
  passed = a.step_ok;
  measured_value = a.measured_value;
  has_value = a.has_value;
  duration_ms = a.duration_ms;
}

unfoldable pub record_result : {P F : Type 0} → RecipeStep P → Attempt F → RunResult → RunResult
record_result step a r =
    if ltb (length r.step_results) recipe_steps_max
    then record r { step_results = r.step_results ++ step_result step a ∷ [] }
    else r

module _ (env : Environment) where
  open env use {World, Params, Float}

  -- The switch on the criticality of a step that failed.
  unfoldable pub handle_failure :
      RecipeStep Params → Criticality → Progress World Float → Progress World Float
  handle_failure step critical p = record p {
    machine = record p.machine {
      world = env.cut_power p.machine.world;
      events = power_cut ∷ p.machine.events;
    };
    result = record p.result { failed_step = truncated 32 step.id; outcome = abort };
    aborted = true;
  }
  handle_failure step required p = record p {
    result = first_failure step.id p.result;
    any_required_fail = true;
    aborted =
        if not (is_recovery step.on_error) && not (str_eq step.on_error (codes "skip"))
        then true
        else p.aborted;
  }
  handle_failure step optional p = p

  abbrev pub status_of : RecipeStep Params → CString
  status_of step = or_else step.status_msg (or_else step.label step.id)

  -- The progress message in front of the retry loop.
  abbrev pub announce :
      ℕ → RecipeStep Params → Progress World Float → Machine World Float × Attempt Float
  announce total step p = (
    record p.machine {
      events =
          progress (p.step_num + 1) total (or_else step.label step.id) (status_of step)
          ∷ p.machine.events;
    },
    no_attempt,
  )

  -- From the count of the step to the end of its retry loop.
  unfoldable pub try_step :
      List (RecoveryBranch Params)
      → ℕ
      → RecipeStep Params
      → (Params → Selftest × World → Selftest × World)
      → Progress World Float
      → Machine World Float × Attempt Float
  unfolding attempts_loop branch_of
  try_step branches total step fn p =
      let branch = branch_of env branches step in
      attempts_loop env step fn branch (max_retries env branch) (announce total step p)

  -- The result of the step is recorded and published, and a failure is handled.
  unfoldable pub settle_step :
      RecipeStep Params
      → Machine World Float × Attempt Float
      → Progress World Float
      → Progress World Float
  unfolding record_result handle_failure
  settle_step step (m, a) p =
      let num = p.step_num + 1 in
      let recorded = record_result step a p.result in
      let published = record m {
        events =
            step_done num step.id (status_of step) a.step_ok (last_duration recorded.step_results)
              a.step_meas
            ∷ m.events;
      } in
      let counted = record recorded { total_count = recorded.total_count + 1 } in
      if a.step_ok
      then record p {
        machine = published;
        result = record counted { pass_count = counted.pass_count + 1 };
        step_num = num;
      }
      else handle_failure step step.criticality
          (record p { machine = published; result = counted; step_num = num })

  -- What follows a settled step: the break of an abort, or the check of the recipe's timeout.
  unfoldable pub check_timeout :
      ℕ → ℕ → RecipeStep Params → Progress World Float → Progress World Float × Bool
  check_timeout timeout_ms start_us step p =
      if p.aborted
      then (p, true)
      else if ltb 0 timeout_ms
          && ltb timeout_ms (elapsed_ms start_us (env.timer_us p.machine.world))
      then (
        record p { result = record (first_failure step.id p.result) { outcome = timeout } },
        true,
      )
      else (p, false)

  -- One pass of the loop over the steps; `true` when the loop is left.
  unfoldable pub run_step :
      Recipe Params → ℕ → ℕ → RecipeStep Params → Progress World Float → Progress World Float × Bool
  unfolding try_step settle_step check_timeout
  run_step recipe total start_us step p =
      if not step.enabled
      then (p, false)
      else if step.requires_pass && p.any_required_fail
      then (p, false)
      else elim (env.primitive step.primitive) [
        | none ↦ (p, false)
        | some fn ↦
            check_timeout recipe.timeout_ms start_us step
              (settle_step step (try_step recipe.recovery_branches total step fn p) p)
      ]

  unfoldable pub run_steps :
      Recipe Params → ℕ → ℕ → List (RecipeStep Params) → Progress World Float → Progress World Float
  unfolding run_step
  run_steps recipe total start_us [] p = p
  run_steps recipe total start_us (step ∷ steps) p =
      let (p', stop) = run_step recipe total start_us step p in
      let onward = run_steps recipe total start_us steps p' in if stop then p' else onward

  abbrev pub is_final : Outcome → Bool
  is_final pass = false
  is_final fail = false
  is_final abort = true
  is_final timeout = true

  unfoldable pub initial : Selftest × World → Progress World Float
  unfolding reset_checks
  initial (st, w) = record {
    machine = record { selftest = reset_checks st; world = env.meas_reset w; events = [] };
    result = record {
      outcome = pass;
      failed_step = [];
      duration_ms = 0;
      pass_count = 0;
      total_count = 0;
      step_results = [];
    };
    step_num = 0;
    any_required_fail = false;
    aborted = false;
  }

  -- The code behind the label `done`.
  unfoldable pub finish : ℕ → Progress World Float → Progress World Float
  finish start_us p =
      let r = record p.result {
        duration_ms = elapsed_ms start_us (env.timer_us p.machine.world);
      } in
      record p {
        result =
            if is_final r.outcome
            then r
            else record r { outcome = if p.aborted || p.any_required_fail then fail else pass };
      }

  -- recipe_engine_run, for a recipe and a result that are no NULL.
  unfoldable pub run : Recipe Params → Selftest × World → Progress World Float
  unfolding run_steps initial finish enabled_total
  run recipe (st, w) =
      let start_us = env.timer_us w in
      finish start_us
        (run_steps recipe (enabled_total recipe.steps) start_us recipe.steps (initial (st, w)))
