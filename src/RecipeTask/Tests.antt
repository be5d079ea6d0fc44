-- ===== src/RecipeTask/Tests.antt =====
-- Runs of src/recipe_task.c, with trees of whole numbers and the mock of the store.
use test_controller.Base.{List, ℕ, true, none, some, [], ◌∷◌, CString, codes, Option}
use test_controller.Base.Int.{ℤ}
use test_controller.Json.{reader}
use test_controller.RecipeJson.Commands.{Console, do_recipe}
use test_controller.RecipeTask.Upload.{board}
use test_controller.Json.Tree.{Tree}
use test_controller.Json.Tree.Text.{code}
use test_controller.Json.Tree.Instance.{tree}
use test_controller.Storage.{Store, mock_reset, init}
use test_controller.Storage.Interface.{mock_storage, mock_storage-IsMap}
use test_controller.Selftest.{Selftest}
use test_controller.Recipe.{Recipe, RecipeStep, critical}
use test_controller.Engine.Machine.{Environment}
use test_controller.RecipeJson.{recipe_to_json}

abbrev bare : Environment
bare = record {
  World = ℕ;
  Params = ℕ;
  Float = ℕ;
  timer_us = λ w. w;
  meas_count = λ w. 0;
  meas_entry = λ w i. none;
  meas_reset = λ w. w;
  cut_power = λ w. w;
  primitive = λ name. none;
}

abbrev no_primitive : CString → Option (Option Tree → Selftest × ℕ → Selftest × ℕ)
no_primitive name = none

abbrev idle : Selftest × ℕ
idle = (record { pass = 0; total = 0; checks = [] }, 0)

abbrev flash : Store
flash = (init mock_reset).0

abbrev step : RecipeStep (Option Tree)
step = record {
  id = codes "usb";
  primitive = codes "PRIM_DETECT_USB";
  label = [];
  status_msg = [];
  params = none;
  on_error = codes "abort";
  enabled = true;
  criticality = critical;
  requires_pass = true;
}

abbrev recipe : Recipe (Option Tree)
recipe = record {
  recipe_id = codes "ALS-7";
  recipe_version = codes "1.0";
  name = codes "Sensor";
  timeout_ms = 5000;
  steps = step ∷ [];
  recovery_branches = [];
}

abbrev text : CString
unfolding recipe_to_json code
text = code (recipe_to_json tree recipe)

-- A decoder for texts that are their own base64.
abbrev plain : CString → Option (List ℕ)
plain word = some word

abbrev seat : Console Store ℕ
seat = record { store = flash; active = []; active_ver = []; selftest = idle.0; world = 0 }

abbrev console : List CString → Console Store ℕ → Console Store ℕ × ℤ
console =
    do_recipe (reader tree) mock_storage bare no_primitive
      (board (reader tree) mock_storage mock_storage-IsMap bare no_primitive plain)
