-- ===== src/RecipeJson.antt =====
-- src/recipe_json.c: recipe_json_serialize, the built-in recipe, and the recipes in the store.
pub mod RoundTrip
pub mod Stored
pub mod Commands
use test_controller.Base.{
  ℕ, zero, suc, ◌+◌, Bool, true, false, Option, none, some, List, [], ◌∷◌, CString, codes,
  truncated, length, take, ltb, if◌then◌else◌,
}
use test_controller.Base.Int.{ℤ, pos, negsuc}
use test_controller.Json.{JsonApi, c_string}
use test_controller.Recipe.{Criticality, required, RecipeStep, Recipe, recipe_steps_max}
use test_controller.Primitives.{PrimitiveEntry, primitives}
use test_controller.Storage.Entries.{recipes}
use test_controller.Storage.Interface.{KeyValue, not_positive}

module _ {F : Type 0} (js : JsonApi F) where
  open js use {Json}

  -- cJSON_AddStringToObject
  unfoldable pub add_string : CString → CString → Json → Json
  add_string key text o = js.add_item o key (js.of_string text)

  -- `if (text[0])` in front of it.
  unfoldable pub add_text : CString → CString → Json → Json
  unfolding add_string
  add_text key [] o = o
  add_text key (c ∷ cs) o = add_string key (c ∷ cs) o

  -- A duplicate is the same tree.
  unfoldable pub add_params : Option Json → Json → Json
  add_params none o = o
  add_params (some p) o = js.add_item o (codes "params") p

  unfoldable pub step_to_json : RecipeStep (Option Json) → Json
  unfolding add_string add_text add_params
  step_to_json s =
      let named =
        add_string (codes "primitive") s.primitive (add_string (codes "id") s.id js.empty_object) in
      let shown =
        add_text (codes "status_msg") s.status_msg (add_text (codes "label") s.label named) in
      add_params s.params (
        js.add_item (add_string (codes "onError") s.on_error shown) (codes "enabled")
          (js.of_bool s.enabled))

  -- The loop over the steps.
  unfoldable pub append_steps : List (RecipeStep (Option Json)) → Json → Json
  unfolding step_to_json
  append_steps [] a = a
  append_steps (s ∷ ss) a = append_steps ss (js.append a (step_to_json s))

  unfoldable pub recipe_to_json : Recipe (Option Json) → Json
  unfolding add_string append_steps
  recipe_to_json r =
      js.add_item
        (js.add_item
          (add_string (codes "name") r.name (
            add_string (codes "recipeVersion") r.recipe_version
              (add_string (codes "recipeId") r.recipe_id js.empty_object)))
          (codes "timeoutMs") (js.of_int (pos r.timeout_ms)))
        (codes "steps") (append_steps r.steps js.empty_array)

  -- recipe_json_serialize, for an argument that is no NULL.
  unfoldable pub serialize : Recipe (Option Json) → Option CString
  unfolding recipe_to_json
  serialize r = js.print (recipe_to_json r)

-- One step of the built-in recipe; the first six are enabled.
unfoldable pub hardcoded_step : {P : Type 0} → P → ℕ → PrimitiveEntry → RecipeStep P
hardcoded_step null i e = record {
  id = truncated 32 e.id;
  primitive = truncated 32 e.id;
  label = [];
  status_msg = [];
  on_error = codes "abort";
  criticality = required;
  enabled = ltb i 6;
  requires_pass = false;
  params = null;
}

unfoldable pub hardcoded_steps : {P : Type 0} → P → ℕ → List PrimitiveEntry → List (RecipeStep P)
unfolding hardcoded_step
hardcoded_steps null i [] = []
hardcoded_steps null i (e ∷ es) = hardcoded_step null i e ∷ hardcoded_steps null (i + 1) es

-- recipe_json_from_hardcoded; `null` is a NULL for the parameters of a step, and memset leaves each
-- criticality at its first value.
unfoldable pub from_hardcoded : {P : Type 0} → P → Recipe P
unfolding hardcoded_steps
from_hardcoded null = record {
  recipe_id = codes "fixture-selftest";
  recipe_version = codes "1.0.0";
  name = codes "G3 Fixture Selftest";
  timeout_ms = 60000;
  steps = take recipe_steps_max (hardcoded_steps null 0 primitives);
  recovery_branches = [];
}

module _ (kv : KeyValue) where
  unfoldable pub store_nvs : kv.State → CString → List ℕ → kv.State × ℤ
  store_nvs s recipe_id json = kv.put s recipes recipe_id json

  -- Behind the size of the entry, with a buffer: the text in front of its first NUL.
  unfoldable pub load_sized : kv.State → CString → ℕ → Option CString
  load_sized s recipe_id sz =
      let r = kv.get s recipes recipe_id sz in
      if not_positive r.0 then none else some (c_string r.1)

  -- recipe_json_load_nvs; `has_buffer` says whether one of the two allocations gives the buffer.
  unfoldable pub load_nvs : Bool → kv.State → CString → Option CString
  unfolding load_sized
  load_nvs has_buffer s recipe_id = elim (kv.size_of s recipes recipe_id) [
    | negsuc n ↦ none
    | pos n ↦
        if not_positive (pos n) then none else if has_buffer then load_sized s recipe_id n else none
  ]

  unfoldable pub delete_nvs : kv.State → CString → kv.State × ℤ
  delete_nvs s recipe_id = kv.remove s recipes recipe_id
