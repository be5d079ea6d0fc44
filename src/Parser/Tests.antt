-- ===== src/Parser/Tests.antt =====
-- Runs of src/recipe_json.c on a document whose items are numbered: 0 is the root, 1 the array of the
-- steps, 2 a step, 3 its onError, 4 the object of the branches, 5 a branch.
use test_controller.Base.{
  ℕ, ◌≤◌, ◌≡◌, refl, false, ◌&&◌, Option, none, some, [], ◌∷◌, CString, codes, All, length, ◌==◌,
  str_eq, if◌then◌else◌,
}
use test_controller.Selftest.{Selftest}
use test_controller.Recipe.{RecoveryBranch, Recipe}
use test_controller.Engine.Machine.{Environment}
use test_controller.Engine.Attempts.{branch_of}
use test_controller.Engine.Steps.{run, enabled_total}
use test_controller.Engine.Accounting.{IsCounted}
use test_controller.Parser.{Cjson, parse, build}
use test_controller.Parser.Limits.{FitsRecipe, parse-FitsRecipe}
use test_controller.Parser.Runs.{over, parsed_branches, parsed_run-IsCounted}

field : ℕ → CString → Option ℕ
field item key =
    if (item == 0) && str_eq key (codes "steps")
    then some 1
    else if (item == 2) && str_eq key (codes "onError")
    then some 3
    else if (item == 0) && str_eq key (codes "recoveryBranches")
    then some 4
    else none

abbrev document : Cjson
document = record {
  Json = ℕ;
  parse_with_length = λ text. elim text [ [] ↦ none | c ∷ cs ↦ some 0 ];
  get_object_item = field;
  valuestring =
      λ item. if item == 3 then some (codes "recovery:power_cycle_everything_twice") else none;
  name = λ item. if item == 5 then some (codes "power_cycle_everything_twice") else none;
  as_u32 = λ item. 0;
  as_u8 = λ item. 0;
  is_string = λ item. item == 3;
  is_number = λ item. false;
  is_true = λ item. false;
  is_array = λ item. item == 1;
  is_object = λ item. item == 4;
  children = λ item. if item == 1 then 2 ∷ [] else if item == 4 then 5 ∷ [] else [];
}

abbrev bare : Environment
bare = record {
  World = ℕ;
  Params = ℕ;
  Float = ℕ;
  timer_us = λ w. w;
  meas_count = λ w. 0;
  meas_entry = λ w i. none;
  meas_reset = λ w. w;
  cut_power = λ w. w;
  primitive = λ name. none;
}

abbrev parsed : Recipe (Option ℕ)
parsed = build document 0

one_step : length parsed.steps ≡ 1
unfolding build field str_eq
one_step = refl

parsed_ok : parse document (123 ∷ []) ≡ some parsed
unfolding parse
parsed_ok = refl

parse-FitsRecipe_example : FitsRecipe parsed
parse-FitsRecipe_example = parse-FitsRecipe document (123 ∷ []) parsed parsed_ok

parsed_branches_example :
    All
      (λ s.
        (b : RecoveryBranch (Option ℕ))
        → branch_of (over document bare (λ name. none)) parsed.recovery_branches s ≡ some b
        → length b.name ≤ 22)
      parsed.steps
parsed_branches_example = parsed_branches document bare (λ name. none) (123 ∷ []) parsed parsed_ok

abbrev idle : Selftest × ℕ
idle = (record { pass = 0; total = 0; checks = [] }, 0)

parsed_run-IsCounted_example :
    IsCounted (run (over document bare (λ name. none)) parsed idle).result
    × ((run (over document bare (λ name. none)) parsed idle).result.total_count
        ≤ enabled_total parsed.steps)
parsed_run-IsCounted_example =
    parsed_run-IsCounted document bare (λ name. none) (123 ∷ []) parsed idle parsed_ok
