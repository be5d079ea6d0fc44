-- ===== src/RecipeTask.antt =====
-- src/recipe_task.c: recipe_run_task, which loads a recipe from the store, runs it and reports.
pub mod Reports
pub mod Upload
mod Tests
use test_controller.Base.{ℕ, Bool, Option, none, some, List, [], ◌∷◌, CString, codes, truncated}
use test_controller.Selftest.{Selftest}
use test_controller.Recipe.{Recipe, Outcome, abort}
use test_controller.Engine.Machine.{Environment}
use test_controller.Engine.Steps.{Progress, run}
use test_controller.Parser.{Cjson, parse}
use test_controller.Parser.Runs.{over}
use test_controller.Storage.Interface.{KeyValue}
use test_controller.RecipeJson.{load_nvs}

-- The arguments of tc_sm_recipe_done.
pub record Report : Type 0 where
  pub outcome : Outcome
  pub failed_step : CString
  pub duration_ms : ℕ
  pub pass_count : ℕ
  pub total_count : ℕ

-- What the task has done when it ends: its report, the version that it passed to
-- tc_sm_set_recipe_version, and the run of the engine, if there was one.
pub record TaskEnd (W F : Type 0) : Type 0 where
  pub report : Report
  pub version : Option CString
  pub ran : Option (Progress W F)

unfoldable pub give_up : {W F : Type 0} → CString → TaskEnd W F
give_up step = record {
  report = record {
    outcome = abort;
    failed_step = step;
    duration_ms = 0;
    pass_count = 0;
    total_count = 0;
  };
  version = none;
  ran = none;
}

-- The argument, or what NVS gives for the active recipe: nothing where it is missing or too long.
unfoldable pub chosen_id : CString → CString → CString
chosen_id active [] = active
chosen_id active (c ∷ cs) = truncated 64 (c ∷ cs)

module _ (cj : Cjson) (kv : KeyValue) (env : Environment)
    (primitive : CString
      → Option (Option cj.Json → Selftest × env.World → Selftest × env.World)) where
  open env use {World, Float}

  unfoldable pub run_recipe : Recipe (Option cj.Json) → Selftest × World → TaskEnd World Float
  run_recipe recipe sw =
      let p = run (over cj env primitive) recipe sw in
      record {
        report = record {
          outcome = p.result.outcome;
          failed_step = truncated 32 p.result.failed_step;
          duration_ms = p.result.duration_ms;
          pass_count = p.result.pass_count;
          total_count = p.result.total_count;
        };
        version = some recipe.recipe_version;
        ran = some p;
      }

  unfoldable pub run_text : Option CString → Selftest × World → TaskEnd World Float
  unfolding run_recipe give_up
  run_text none sw = give_up (codes "recipe_not_found")
  run_text (some json) sw = elim (parse cj json) [
    | none ↦ give_up (codes "recipe_not_found")
    | some recipe ↦ run_recipe recipe sw
  ]

  unfoldable pub run_id : Bool → kv.State → CString → Selftest × World → TaskEnd World Float
  unfolding run_text give_up
  run_id has_buffer s [] sw = give_up (codes "recipe_not_configured")
  run_id has_buffer s (c ∷ cs) sw = run_text (load_nvs kv has_buffer s (c ∷ cs)) sw

  unfoldable pub run_task :
      CString → Bool → kv.State → CString → Selftest × World → TaskEnd World Float
  unfolding run_id chosen_id
  run_task active has_buffer s arg sw = run_id has_buffer s (chosen_id active arg) sw
