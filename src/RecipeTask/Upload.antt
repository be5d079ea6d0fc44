-- ===== src/RecipeTask/Upload.antt =====
-- src/recipe_json.c and src/recipe_task.c: a recipe from the console to the task.
use test_controller.Base.{ℕ, true, Option, List, [], ◌∷◌, CString, codes}
use test_controller.Selftest.{Selftest}
use test_controller.Engine.Machine.{Environment}
use test_controller.Parser.{Cjson}
use test_controller.Storage.Interface.{KeyValue, IsMap}
use test_controller.RecipeJson.Commands.{Board, Console}

-- recipe set-b64 and recipe select
abbrev pub set_b64_words : CString → CString → List CString
set_b64_words id b64 = codes "recipe" ∷ (codes "set-b64" ∷ (id ∷ (b64 ∷ [])))

abbrev pub select_words : CString → List CString
select_words id = codes "recipe" ∷ (codes "select" ∷ (id ∷ []))

module _ (cj : Cjson) (kv : KeyValue) (m : IsMap kv) (env : Environment)
    (primitive : CString → Option (Option cj.Json → Selftest × env.World → Selftest × env.World))
    (decode : CString → Option (List ℕ)) where
  -- A board with memory and with NVS that takes what is written.
  abbrev pub board : Board
  board = record { memory = true; nvs_opens = true; nvs_sets = true; base64_decode = decode }

  abbrev Seat : Type 0
  Seat = Console kv.State env.World
