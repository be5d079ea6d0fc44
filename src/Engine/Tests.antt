-- ===== src/Engine/Tests.antt =====
-- Runs of src/recipe_engine.c on a small fixture, and its theorems at them.
use test_controller.Base.{
  ℕ, ◌+◌, ◌≤◌, ◌≡◌, ◌≢◌, refl, Bool, true, false, Option, none, some, List, [], ◌∷◌, arith, CString,
  codes, str_eq, truncated, replicate, if◌then◌else◌,
}
use Prim.Native.String.{String}
use test_controller.Base.Int.{pos}
use test_controller.Selftest.{Selftest, Check, st_record, reset_checks, count_passes}
use test_controller.Recipe.{
  RecoveryBranch, RecipeStep, Recipe, Criticality, critical, required, optional, pass, abort,
}
use test_controller.Engine.Machine.{
  Environment, verdict, execute, find_branch, run_recovery_steps, run_recovery_branch,
}
use test_controller.Engine.Attempts.{
  attempts_loop, attempt_once, branch_of, capture_value, capture_meas,
}
use test_controller.Engine.Steps.{
  Progress, try_step, settle_step, check_timeout, run_step, run_steps, initial, finish, run,
  enabled_total, record_result, handle_failure,
}
use test_controller.Engine.Verdict.{record_all, verdict-record_all, verdict-record_all_full}
use test_controller.Engine.Retries.{recoveries-try_step, recoveries}
use test_controller.Engine.Abort.{AbortsByCut, run-AbortsByCut}
use test_controller.Engine.Outcome.{Explained, pass-Explained}
use test_controller.Engine.Gates.{ungated, required_failure_gates}

-- The world is the time in microseconds; a primitive records the check that its parameter says, and
-- takes five milliseconds.
abbrev check_primitive : Bool → Selftest × ℕ → Selftest × ℕ
check_primitive ok (s, now) = (st_record (codes "check") ok s, now + 5000)

abbrev table : CString → Option (Bool → Selftest × ℕ → Selftest × ℕ)
table name = if str_eq name (codes "check") then some check_primitive else none

abbrev fixture : Environment
fixture = record {
  World = ℕ;
  Params = Bool;
  Float = ℕ;
  timer_us = λ now. now;
  meas_count = λ now. 0;
  meas_entry = λ now i. none;
  meas_reset = λ now. now;
  cut_power = λ now. now;
  primitive = table;
}

abbrev step_of : String → String → Criticality → Bool → String → RecipeStep Bool
step_of id primitive criticality ok on_error = record {
  id = codes id;
  primitive = codes primitive;
  label = [];
  status_msg = [];
  on_error = codes on_error;
  criticality = criticality;
  enabled = true;
  requires_pass = false;
  params = ok;
}

abbrev retry_branch : RecoveryBranch Bool
retry_branch = record {
  name = codes "power";
  steps = record { id = codes "cycle"; primitive = codes "check"; params = true } ∷ [];
  retry_after = false;
  max_attempts = 2;
}

abbrev recipe_of : List (RecipeStep Bool) → Recipe Bool
recipe_of steps = record {
  recipe_id = codes "r";
  recipe_version = codes "1";
  name = codes "test";
  timeout_ms = 60000;
  steps = steps;
  recovery_branches = retry_branch ∷ [];
}

abbrev idle : Selftest × ℕ
idle = (record { pass = 0; total = 0; checks = [] }, 0)

abbrev good_step : RecipeStep Bool
good_step = step_of "good" "check" required true "abort"

abbrev advisory_step : RecipeStep Bool
advisory_step = step_of "advisory" "check" optional false "abort"

abbrev fatal_step : RecipeStep Bool
fatal_step = step_of "fatal" "check" critical false "recovery:power"

-- Everything that a run of the fixture goes through.
engine_run : Recipe Bool → Progress ℕ ℕ
unfolding run run_steps run_step try_step settle_step check_timeout initial finish enabled_total
    attempts_loop attempt_once branch_of capture_value capture_meas execute verdict find_branch
    run_recovery_branch run_recovery_steps record_result handle_failure reset_checks st_record
    count_passes str_eq truncated
engine_run recipe = run fixture recipe idle

-- The CRITICAL step is tried three times, with two recoveries, and cuts the power.
fatal_run :
    (engine_run (recipe_of (good_step ∷ fatal_step ∷ good_step ∷ []))).result.outcome ≡ abort
unfolding engine_run
fatal_run = refl

fatal_run_counts :
    let r = (engine_run (recipe_of (good_step ∷ fatal_step ∷ good_step ∷ []))).result in
    (r.pass_count ≡ 1) × (r.total_count ≡ 2) × (r.duration_ms ≡ 30)
unfolding engine_run
fatal_run_counts = (refl, refl, refl)

verdict-record_all_example :
    verdict idle.0 (record_all ((codes "a", true) ∷ (codes "b", false) ∷ []) idle.0) ≡ false
verdict-record_all_example =
    verdict-record_all (codes "a", true) ((codes "b", false) ∷ []) idle.0 (omega arith)

abbrev passed_check : Check
passed_check = record { id = codes "p"; pass = true; has_value = false; value = pos 0 }

abbrev full_buffer : Selftest
full_buffer = record { pass = 0; total = 0; checks = replicate 128 passed_check }

verdict-record_all_full_example :
    verdict full_buffer (record_all ((codes "a", false) ∷ []) full_buffer) ≡ true
verdict-record_all_full_example =
    verdict-record_all_full ((codes "a", false) ∷ []) full_buffer (omega arith)

recoveries-try_step_example :
    recoveries
      (try_step fixture
        (retry_branch ∷ [])
        1
        fatal_step
        check_primitive
        (initial fixture idle)).0.events
    ≤ 2
unfolding branch_of find_branch str_eq initial recoveries
recoveries-try_step_example =
    recoveries-try_step fixture (retry_branch ∷ []) 1 fatal_step check_primitive
      (initial fixture idle)

run-AbortsByCut_example :
    AbortsByCut
      (run fixture (recipe_of (fatal_step ∷ [])) idle).result.outcome
      (run fixture (recipe_of (fatal_step ∷ [])) idle).machine.events
run-AbortsByCut_example = run-AbortsByCut fixture (recipe_of (fatal_step ∷ [])) idle

pass-Explained_example :
    Explained
      (good_step ∷ advisory_step ∷ [])
      (run fixture (recipe_of (good_step ∷ advisory_step ∷ [])) idle).result.step_results
unfolding engine_run
pass-Explained_example =
    pass-Explained fixture (recipe_of (good_step ∷ advisory_step ∷ [])) idle refl

abbrev flashing_step : RecipeStep Bool
flashing_step = record good_step { requires_pass = true }

abbrev bad_step : RecipeStep Bool
bad_step = step_of "bad" "check" required false "skip"

bad_step_fails :
    (try_step fixture
      (retry_branch ∷ [])
      2
      bad_step
      check_primitive
      (initial fixture idle)).1.step_ok
    ≡ false
unfolding engine_run
bad_step_fails = refl

required_failure_gates_example :
    let p = initial fixture idle in
    let r = recipe_of (bad_step ∷ flashing_step ∷ []) in
    (run_steps fixture r 2 0 (bad_step ∷ flashing_step ∷ []) p
      ≡ run_steps fixture r 2 0 (bad_step ∷ ungated fixture (flashing_step ∷ [])) p)
    × ((finish fixture 0 (run_steps fixture r 2 0 (bad_step ∷ flashing_step ∷ []) p)).result.outcome
        ≢ pass)
unfolding str_eq
required_failure_gates_example =
    required_failure_gates fixture (recipe_of (bad_step ∷ flashing_step ∷ [])) 2 0 bad_step
      (flashing_step ∷ []) (initial fixture idle) check_primitive refl refl refl refl bad_step_fails

abbrev misspelt_step : RecipeStep Bool
misspelt_step = step_of "typo" "chekc" critical false "abort"
