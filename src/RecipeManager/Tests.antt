-- ===== src/RecipeManager/Tests.antt =====
-- Runs of recipes/recipe_manager_mock.c, with a layout of the name and the revision.
use test_controller.Base.{
  List, ℕ, ◌-◌, ◌≡◌, refl, true, false, [], ◌∷◌, ◌++◌, CString, codes, str_eq, truncated, length,
  drop, replicate, get_or, arith,
}
use test_controller.Base.Int.{pos}
use test_controller.Json.{c_string}
use test_controller.Storage.Entries.{recipes, find, matches, domain_eq, memcpy}
use test_controller.Storage.Map.{lookup}
use test_controller.Storage.{Store, mock_reset, init, write, write_string}
use test_controller.Storage.Invariant.{init-Inv, mock_reset-Inv}
use test_controller.Storage.Interface.{IsOpen, mock_storage-IsMap}
use test_controller.RecipeManager.{
  TestRecipe, Layout, HasImage, Manager, save_recipe, save_as_last_used, start, stop,
}
use test_controller.RecipeManager.Locking.{
  Call, load_call, save_call, delete_call, lock_call, load_last_call, start_call, run_calls, writes,
  run_calls-locked,
}
use test_controller.RecipeManager.Restart.{Keeps, start-stop}

abbrev named : CString → ℕ → TestRecipe
named name revision = record {
  name = name;
  description = [];
  version = [];
  product = [];
  variant = [];
  duration_ms = 0;
  requires_dut_uart = false;
  step_count = 0;
  steps = [];
  created_timestamp = 0;
  last_modified_timestamp = 0;
  created_by = [];
  revision = revision;
}

abbrev layout : Layout
unfolding c_string
layout = record {
  size_of = 65;
  image = λ r. r.revision ∷ (r.name ++ replicate (64 - length r.name) 0);
  of_image = λ bytes. named (c_string (drop 1 bytes)) (get_or bytes 0 0);
  zeros = named [] 0;
}

abbrev als : TestRecipe
als = named (codes "ALS-7") 3

als-HasImage : HasImage layout als
unfolding layout c_string
als-HasImage = record { length-image = refl; of_image-image = refl; some_bytes = refl; fits = refl }

abbrev flash : Store
flash = (init mock_reset).0

flash-IsOpen : IsOpen flash
unfolding init mock_reset
flash-IsOpen = record { kept = init-Inv mock_reset mock_reset-Inv; apart = tt; on = refl }

abbrev ready : Manager
ready = record {
  initialized = true;
  current_recipe = named [] 0;
  recipe_loaded = false;
  locked = false;
}

saved_ok : (save_recipe layout als (ready, flash)).1 ≡ pos 0
unfolding save_recipe write init mock_reset find layout
saved_ok = refl

abbrev held : Manager
held = record { initialized = true; current_recipe = als; recipe_loaded = true; locked = true }

abbrev attempts : List Call
attempts =
    load_call (codes "B")
    ∷ delete_call (codes "ALS-7")
    ∷ save_call als
    ∷ load_last_call
    ∷ lock_call
    ∷ start_call
    ∷ []

run_calls-locked_example :
    run_calls layout attempts (held, flash)
    ≡ (held, (run_calls layout (writes attempts) (held, flash)).1)
run_calls-locked_example =
    run_calls-locked layout held refl refl attempts flash (tt, (tt, (tt, (tt, (tt, (tt, tt))))))

abbrev filled : Store
unfolding save_recipe
filled = (save_recipe layout als (held, flash)).0

filled-IsOpen : IsOpen filled
unfolding filled save_recipe mock_storage-IsMap
filled-IsOpen =
    mock_storage-IsMap.put-IsReady flash recipes als.name (layout.image als) (omega arith)
      flash-IsOpen

filled-Keeps : Keeps layout filled als
unfolding filled save_recipe lookup write init mock_reset find layout str_eq matches domain_eq
    truncated memcpy
filled-Keeps = refl

last_ok : (save_as_last_used (held, filled)).1 ≡ pos 0
unfolding save_as_last_used filled save_recipe write write_string init mock_reset find layout str_eq
    matches domain_eq
last_ok = refl

start-stop_example :
    (start layout (stop (held, filled)).0).0.0
    ≡ record held { initialized = true; recipe_loaded = true; locked = false }
start-stop_example =
    start-stop layout held filled als-HasImage refl refl filled-IsOpen filled-Keeps (omega arith)
      (omega arith, (omega arith, (omega arith, (omega arith, (omega arith, tt))))) last_ok
