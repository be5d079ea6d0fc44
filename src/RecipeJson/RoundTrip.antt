-- ===== src/RecipeJson/RoundTrip.antt =====
-- src/recipe_json.c: what recipe_json_parse reads back of what recipe_json_serialize wrote.
use test_controller.Base.{
  ℕ, ◌≤◌, ◌<◌, ◌≡◌, refl, sym, ap, ◌∙◌, Bool, true, false, Option, none, some, List, [], ◌∷◌, ◌++◌,
  map, CString, codes, str_eq, truncated_fits, length, length-map, take, take_all, arith, All,
  if◌then◌else◌,
}
use test_controller.Base.Int.{pos}
use mathlib.Core.List.{append_assoc, append-nil}
use test_controller.Json.{JsonApi, IsJson, or_else, or_else-none, same_key, reader}
use test_controller.Recipe.{required, RecipeStep, Recipe, recipe_steps_max}
use test_controller.Parser.{
  build, parse_step, text_of, flag_of, criticality_of, on_error_of, or_abort, says,
}
use test_controller.Parser.Limits.{FitsStep, Fits}
use test_controller.RecipeJson.{
  add_string, add_text, add_params, step_to_json, append_steps, recipe_to_json,
}

-- What the text of a step does not say.
abbrev pub forget : {P : Type 0} → RecipeStep P → RecipeStep P
forget s = record s { criticality = required; requires_pass = false }

if_none : {A : Type 0} (b : Bool) → ◌≡◌ {A = Option A} (if b then none else none) none
if_none true = refl
if_none false = refl

module _ {F : Type 0} (js : JsonApi F) (ok : IsJson js) where
  open js use {Json}

  abbrev text_item : CString → Option Json
  text_item [] = none
  text_item (c ∷ cs) = some (js.of_string (c ∷ cs))

  item-add_text :
      (k t : CString) (o : Json) (k' : CString)
      → js.item (add_text js k t o) k'
        ≡ or_else (js.item o k') (if same_key k k' then text_item t else none)
  unfolding add_text
  item-add_text k [] o k' = rw (if_none (same_key k k'), or_else-none) refl
  item-add_text k (c ∷ cs) o k' = ok.item-add_item o k (js.of_string (c ∷ cs)) k'

  item-add_params :
      (p : Option Json) (o : Json) (k' : CString)
      → js.item (add_params js p o) k'
        ≡ or_else (js.item o k') (if same_key (codes "params") k' then p else none)
  unfolding add_params
  item-add_params none o k' = rw (if_none (same_key (codes "params") k'), or_else-none) refl
  item-add_params (some p) o k' = ok.item-add_item o (codes "params") p k'

  text_of-text_item :
      (o : Json) (k t : CString) (n : ℕ)
      → js.item o k ≡ text_item t
      → length t < n
      → text_of (reader js) o k n ≡ t
  unfolding text_of
  text_of-text_item o k [] n e h = rw (e, text_of) refl
  text_of-text_item o k (c ∷ cs) n e h =
      rw (e, text_of) (rw (ok.valuestring-of_string (c ∷ cs)) (truncated_fits n (c ∷ cs) h))

  text_of-string :
      (o : Json) (k t : CString) (n : ℕ)
      → js.item o k ≡ some (js.of_string t)
      → length t < n
      → text_of (reader js) o k n ≡ t
  unfolding text_of
  text_of-string o k t n e h =
      rw (e, text_of) (rw (ok.valuestring-of_string t) (truncated_fits n t h))

  module _ (s : RecipeStep (Option Json)) where
    abbrev node : Json
    node = step_to_json js s

    id-item : js.item node (codes "id") ≡ some (js.of_string s.id)
    unfolding step_to_json add_string str_eq
    id-item = simp (item-add_params, ok.item-add_item, item-add_text, ok.item-empty_object)

    primitive-item : js.item node (codes "primitive") ≡ some (js.of_string s.primitive)
    unfolding step_to_json add_string str_eq
    primitive-item = simp (item-add_params, ok.item-add_item, item-add_text, ok.item-empty_object)

    label-item : js.item node (codes "label") ≡ text_item s.label
    unfolding step_to_json add_string str_eq
    label-item =
        simp (item-add_params, ok.item-add_item, item-add_text, ok.item-empty_object, or_else-none)

    status_msg-item : js.item node (codes "status_msg") ≡ text_item s.status_msg
    unfolding step_to_json add_string str_eq
    status_msg-item =
        simp (item-add_params, ok.item-add_item, item-add_text, ok.item-empty_object, or_else-none)

    on_error-item : js.item node (codes "onError") ≡ some (js.of_string s.on_error)
    unfolding step_to_json add_string str_eq
    on_error-item =
        simp (item-add_params, ok.item-add_item, item-add_text, ok.item-empty_object, or_else-none)

    enabled-item : js.item node (codes "enabled") ≡ some (js.of_bool s.enabled)
    unfolding step_to_json add_string str_eq
    enabled-item =
        simp (item-add_params, ok.item-add_item, item-add_text, ok.item-empty_object, or_else-none)

    params-item : js.item node (codes "params") ≡ s.params
    unfolding step_to_json add_string str_eq
    params-item = simp (item-add_params, ok.item-add_item, item-add_text, ok.item-empty_object)

    criticality-item : js.item node (codes "criticality") ≡ none
    unfolding step_to_json add_string str_eq
    criticality-item =
        simp (item-add_params, ok.item-add_item, item-add_text, ok.item-empty_object, or_else-none)

    requires_pass-item : js.item node (codes "requiresPass") ≡ none
    unfolding step_to_json add_string str_eq
    requires_pass-item =
        simp (item-add_params, ok.item-add_item, item-add_text, ok.item-empty_object, or_else-none)

  or_abort-set : (t : CString) → 0 < length t → or_abort t ≡ t
  unfolding or_abort
  or_abort-set [] h = absurd (omega arith)
  or_abort-set (c ∷ cs) h = refl

  parse_step-step_to_json :
      (s : RecipeStep (Option Json))
      → FitsStep s
      → parse_step (reader js) (step_to_json js s) ≡ forget s
  unfolding parse_step on_error_of criticality_of says flag_of
  parse_step-step_to_json s v =
      let o = step_to_json js s in
      let error : or_abort (text_of (reader js) o (codes "onError") 32) ≡ s.on_error =
        ap or_abort
          (text_of-string o (codes "onError") s.on_error 32 (on_error-item s) v.on_error_fits)
        ∙ or_abort-set s.on_error v.on_error_set in
      rw
        (
          text_of-string o (codes "id") s.id 32 (id-item s) v.id_fits,
          text_of-string o (codes "primitive") s.primitive 32 (primitive-item s) v.primitive_fits,
          text_of-text_item o (codes "label") s.label 48 (label-item s) v.label_fits,
          text_of-text_item o (codes "status_msg") s.status_msg 64 (status_msg-item s)
              v.status_fits,
          error,
        )
        (rw
          (
            criticality-item s,
            requires_pass-item s,
            enabled-item s,
            params-item s,
            flag_of,
            criticality_of,
          )
          (rw (ok.is_true-of_bool s.enabled) refl))

  children-append_steps :
      (ss : List (RecipeStep (Option Json))) (a : Json)
      → js.children (append_steps js ss a) ≡ js.children a ++ map (step_to_json js) ss
  unfolding append_steps
  children-append_steps [] a = sym (append-nil (js.children a))
  children-append_steps (s ∷ ss) a =
      children-append_steps ss (js.append a (step_to_json js s))
      ∙ ap (λ (xs : List Json). xs ++ map (step_to_json js) ss)
          (ok.children-append a (step_to_json js s))
      ∙ append_assoc (js.children a) (step_to_json js s ∷ []) (map (step_to_json js) ss)

  append_steps-is_array :
      (ss : List (RecipeStep (Option Json))) (a : Json)
      → js.is_array a ≡ true
      → js.is_array (append_steps js ss a) ≡ true
  unfolding append_steps
  append_steps-is_array [] a h = h
  append_steps-is_array (s ∷ ss) a h =
      append_steps-is_array ss (js.append a (step_to_json js s))
        (ok.append-is_array a (step_to_json js s) ∙ h)

  parsed_steps :
      (ss : List (RecipeStep (Option Json)))
      → All FitsStep ss
      → map (parse_step (reader js)) (map (step_to_json js) ss) ≡ map forget ss
  parsed_steps [] v = refl
  parsed_steps (s ∷ ss) v = rw (parse_step-step_to_json s v.0, parsed_steps ss v.1) refl

  -- The parser also wants the texts of the head to fit, and the time to be a uint32_t.
  pub record FitsHead (r : Recipe (Option Json)) : Type 0 where
    pub id_fits : length r.recipe_id < 64
    pub version_fits : length r.recipe_version < 16
    pub name_fits : length r.name < 64
    pub timeout_fits : r.timeout_ms ≤ 4294967295

  module _ (r : Recipe (Option Json)) where
    abbrev root : Json
    root = recipe_to_json js r

    recipe_id-item : js.item root (codes "recipeId") ≡ some (js.of_string r.recipe_id)
    unfolding recipe_to_json add_string str_eq
    recipe_id-item = simp (ok.item-add_item, ok.item-empty_object)

    recipe_version-item :
        js.item root (codes "recipeVersion") ≡ some (js.of_string r.recipe_version)
    unfolding recipe_to_json add_string str_eq
    recipe_version-item = simp (ok.item-add_item, ok.item-empty_object)

    name-item : js.item root (codes "name") ≡ some (js.of_string r.name)
    unfolding recipe_to_json add_string str_eq
    name-item = simp (ok.item-add_item, ok.item-empty_object)

    timeout-item : js.item root (codes "timeoutMs") ≡ some (js.of_int (pos r.timeout_ms))
    unfolding recipe_to_json add_string str_eq
    timeout-item = simp (ok.item-add_item, ok.item-empty_object)

    steps-item : js.item root (codes "steps") ≡ some (append_steps js r.steps js.empty_array)
    unfolding recipe_to_json add_string str_eq
    steps-item = simp (ok.item-add_item, ok.item-empty_object)

    branches-item : js.item root (codes "recoveryBranches") ≡ none
    unfolding recipe_to_json add_string str_eq
    branches-item = simp (ok.item-add_item, ok.item-empty_object)

  -- The recipe that is read back.
  abbrev pub forgetful : Recipe (Option Json) → Recipe (Option Json)
  forgetful r = record r { steps = map forget r.steps; recovery_branches = [] }

  pub build-recipe_to_json :
      (r : Recipe (Option Json))
      → Fits r
      → FitsHead r
      → build (reader js) (recipe_to_json js r) ≡ forgetful r
  unfolding build
  build-recipe_to_json r v h =
      let o = recipe_to_json js r in
      let array = append_steps js r.steps js.empty_array in
      let items : js.children array ≡ map (step_to_json js) r.steps =
        children-append_steps r.steps js.empty_array
        ∙ ap (λ (xs : List Json). xs ++ map (step_to_json js) r.steps) ok.children-empty_array in
      let few : take recipe_steps_max (map (step_to_json js) r.steps)
          ≡ map (step_to_json js) r.steps =
        take_all recipe_steps_max (map (step_to_json js) r.steps)
          (omega (arith, length-map r.steps (step_to_json js), v.steps_fit)) in
      rw
        (
          text_of-string o (codes "recipeId") r.recipe_id 64 (recipe_id-item r) h.id_fits,
          text_of-string o (codes "recipeVersion") r.recipe_version 16 (recipe_version-item r)
              h.version_fits,
          text_of-string o (codes "name") r.name 64 (name-item r) h.name_fits,
        )
        (rw (timeout-item r, steps-item r, branches-item r)
          (rw (append_steps-is_array r.steps js.empty_array ok.empty_array-is_array) (
            rw items (
              rw
                (
                  few,
                  parsed_steps r.steps v.each_step,
                  ok.as_u32-of_int r.timeout_ms h.timeout_fits,
                )
                refl))))
