-- ===== src/RecipeJson/Commands.antt =====
-- src/recipe_json.c: the console command recipe. Its printouts are left out.
use test_controller.Base.{
  ℕ, zero, suc, Bool, not, ◌&&◌, Option, none, some, List, [], ◌∷◌, CString, codes, str_eq,
  truncated, behind, arg, length, ltb, ◌==◌, if◌then◌else◌,
}
use test_controller.Base.Int.{ℤ, pos, negsuc}
use test_controller.Selftest.{Selftest}
use test_controller.Recipe.{Recipe, Outcome, pass, fail, abort, timeout}
use test_controller.Engine.Machine.{Environment}
use test_controller.Engine.Steps.{is_empty, run}
use test_controller.Parser.{Cjson, parse}
use test_controller.Parser.Runs.{over}
use test_controller.Storage.Entries.{recipes}
use test_controller.Storage.Interface.{KeyValue, not_positive}
use test_controller.RecipeJson.{from_hardcoded, store_nvs, load_nvs, delete_nvs}

-- What the command meets: whether there is memory, whether NVS opens, and the decoder of base64, which
-- gives nothing where it fails.
pub record Board : Type 0 where
  pub memory : Bool
  pub nvs_opens : Bool
  pub nvs_sets : Bool  -- nvs_set_str takes a text
  pub base64_decode : CString → Option (List ℕ)

-- What the command changes: the store, the two texts in NVS, and what the engine and its primitives change.
pub record Console (S W : Type 0) : Type 0 where
  pub store : S
  pub active : CString
  pub active_ver : CString
  pub selftest : Selftest
  pub world : W

-- strstr, and what stands behind the text that was found.
unfoldable pub find_text : CString → CString → Option CString
unfolding behind
find_text text [] = none
find_text text (c ∷ cs) =
    let later = find_text text cs in
    elim (behind text (c ∷ cs)) [ some rest ↦ some rest | none ↦ later ]

-- At most `n` bytes, up to a quotation mark.
unfoldable pub quoted : ℕ → CString → CString
quoted zero s = []
quoted (suc n) [] = []
quoted (suc n) (c ∷ cs) = let rest = quoted n cs in if c == 34 then [] else c ∷ rest

abbrev pub or_default : List CString → CString
or_default argv = if ltb (length argv) 3 then codes "default" else arg argv 2

abbrev pub done : {C : Type 0} → C → C × ℤ
done c = (c, pos 0)

abbrev pub refuse : {C : Type 0} → C → C × ℤ
refuse c = (c, pos 1)

abbrev pub passes : Outcome → ℤ
passes pass = pos 0
passes fail = pos 1
passes abort = pos 1
passes timeout = pos 1

module _ (cj : Cjson) (kv : KeyValue) (env : Environment)
    (primitive : CString → Option (Option cj.Json → Selftest × env.World → Selftest × env.World))
    (b : Board) where
  abbrev pub Seat : Type 0
  Seat = Console kv.State env.World

  -- The name that is given, or the one in NVS, if it fits 64 bytes.
  abbrev pub shown_id : List CString → Seat → CString
  shown_id argv c =
      if ltb (length argv) 3
      then (if b.nvs_opens && ltb (length c.active) 64 then c.active else [])
      else truncated 64 (arg argv 2)

  unfoldable pub recipe_show : List CString → Seat → Seat × ℤ
  recipe_show argv c =
      if is_empty (shown_id argv c)
      then refuse c
      else elim (load_nvs kv b.memory c.store (shown_id argv c)) [
        | none ↦ refuse c
        | some json ↦ done c
      ]

  unfoldable pub recipe_load : List CString → Seat → Seat × ℤ
  recipe_load argv c = elim (load_nvs kv b.memory c.store (or_default argv)) [
    | none ↦ refuse c
    | some json ↦
        if not b.memory
        then refuse c
        else elim (parse cj json) [ none ↦ (c, negsuc 0) | some recipe ↦ done c ]
  ]

  -- Behind the decoder.
  unfoldable pub upload : CString → Option (List ℕ) → Seat → Seat × ℤ
  upload id none c = refuse c
  upload id (some bytes) c = elim (cj.parse_with_length bytes) [
    | none ↦ refuse c
    | some root ↦ let r = store_nvs kv c.store id bytes in (record c { store = r.0 }, r.1)
  ]

  unfoldable pub recipe_set_b64 : List CString → Seat → Seat × ℤ
  unfolding upload
  recipe_set_b64 argv c =
      if ltb (length argv) 4
      then refuse c
      else if not b.memory
      then refuse c
      else upload (arg argv 2) (b.base64_decode (arg argv 3)) c

  unfoldable pub recipe_delete : List CString → Seat → Seat × ℤ
  recipe_delete argv c =
      let r = delete_nvs kv c.store (arg argv 2) in
      if ltb (length argv) 3 then refuse c else (record c { store = r.0 }, r.1)

  -- The version that select finds in the text.
  unfoldable pub note_version : Option CString → Seat → Seat
  unfolding find_text quoted
  note_version none c = c
  note_version (some json) c = elim (find_text (codes "\"recipeVersion\":\"") json) [
    | none ↦ c
    | some rest ↦ if b.nvs_sets then record c { active_ver = quoted 31 rest } else c
  ]

  unfoldable pub recipe_select : List CString → Seat → Seat × ℤ
  unfolding note_version
  recipe_select argv c =
      let id = arg argv 2 in
      if ltb (length argv) 3
      then refuse c
      else if not_positive (kv.size_of c.store recipes id)
      then refuse c
      else if not b.nvs_opens
      then refuse c
      else let noted = if b.nvs_sets then record c { active = id } else c in
        done (note_version (load_nvs kv b.memory c.store id) noted)

  -- The engine on a recipe, and the result of the command.
  unfoldable pub run_on : Recipe (Option cj.Json) → Seat → Seat × ℤ
  run_on recipe c =
      let p = run (over cj env primitive) recipe (c.selftest, c.world) in
      (record c { selftest = p.machine.selftest; world = p.machine.world }, passes p.result.outcome)

  unfoldable pub recipe_run : List CString → Seat → Seat × ℤ
  unfolding run_on
  recipe_run argv c = elim (load_nvs kv b.memory c.store (or_default argv)) [
    | none ↦ run_on (from_hardcoded none) c
    | some json ↦ elim (parse cj json) [ none ↦ refuse c | some recipe ↦ run_on recipe c ]
  ]

  unfoldable pub do_recipe : List CString → Seat → Seat × ℤ
  unfolding recipe_show recipe_load recipe_set_b64 recipe_delete recipe_select recipe_run
  do_recipe argv c =
      if ltb (length argv) 2
      then refuse c
      else if str_eq (arg argv 1) (codes "show")
      then recipe_show argv c
      else if str_eq (arg argv 1) (codes "store")
      then refuse c
      else if str_eq (arg argv 1) (codes "load")
      then recipe_load argv c
      else if str_eq (arg argv 1) (codes "list")
      then done c
      else if str_eq (arg argv 1) (codes "set-b64")
      then recipe_set_b64 argv c
      else if str_eq (arg argv 1) (codes "delete")
      then recipe_delete argv c
      else if str_eq (arg argv 1) (codes "select")
      then recipe_select argv c
      else if str_eq (arg argv 1) (codes "run")
      then recipe_run argv c
      else refuse c
