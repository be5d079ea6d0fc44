-- ===== src/RecipeJson/Stored.antt =====
-- src/recipe_json.c: recipes that go through the store.
use test_controller.Base.{
  ℕ, ◌≤◌, ◌<◌, ◌≡◌, refl, ap, ◌∙◌, true, false, Option, none, some, List, [], ◌∷◌, CString, codes,
  length, arith, All,
}
use test_controller.Base.Int.{pos}
use test_controller.Json.{JsonApi, IsJson, reader, c_string}
use test_controller.Recipe.{RecipeStep, Recipe}
use test_controller.Parser.{parse}
use test_controller.Parser.Limits.{Fits}
use test_controller.Storage.Entries.{recipes}
use test_controller.Storage.Search.{same_slot_refl}
use test_controller.Storage.Interface.{
  KeyValue, IsMap, not_positive, size_of-some, get-some, positive,
}
use test_controller.RecipeJson.{
  add_string, add_text, add_params, step_to_json, append_steps, recipe_to_json, serialize,
  store_nvs, load_nvs, load_sized,
}
use test_controller.RecipeJson.RoundTrip.{forgetful, FitsHead, build-recipe_to_json}

module _ {F : Type 0} (js : JsonApi F) (ok : IsJson js) where
  open js use {Json}

  -- The parameters of a step can be printed.
  abbrev pub HasText : Option Json → Type 0
  HasText none = Unit {0}
  HasText (some p) = ok.IsPrintable p

  add_string-IsPrintable :
      (k t : CString) (o : Json) → ok.IsPrintable o → ok.IsPrintable (add_string js k t o)
  unfolding add_string
  add_string-IsPrintable k t o h =
      ok.add_item-IsPrintable o k (js.of_string t) h (ok.of_string-IsPrintable t)

  add_text-IsPrintable :
      (k t : CString) (o : Json) → ok.IsPrintable o → ok.IsPrintable (add_text js k t o)
  unfolding add_text
  add_text-IsPrintable k [] o h = h
  add_text-IsPrintable k (c ∷ cs) o h = add_string-IsPrintable k (c ∷ cs) o h

  add_params-IsPrintable :
      (p : Option Json) (o : Json)
      → HasText p
      → ok.IsPrintable o
      → ok.IsPrintable (add_params js p o)
  unfolding add_params
  add_params-IsPrintable none o t h = h
  add_params-IsPrintable (some p) o t h = ok.add_item-IsPrintable o (codes "params") p h t

  step_to_json-IsPrintable :
      (s : RecipeStep (Option Json)) → HasText s.params → ok.IsPrintable (step_to_json js s)
  unfolding step_to_json
  step_to_json-IsPrintable s t = add_params-IsPrintable s.params _ t (
      ok.add_item-IsPrintable _ (codes "enabled") _
        (add_string-IsPrintable (codes "onError") s.on_error _ (
          add_text-IsPrintable (codes "status_msg") s.status_msg _ (
            add_text-IsPrintable (codes "label") s.label _ (
              add_string-IsPrintable (codes "primitive") s.primitive _
                (add_string-IsPrintable (codes "id") s.id _ ok.empty_object-IsPrintable)))))
        (ok.of_bool-IsPrintable s.enabled))

  append_steps-IsPrintable :
      (ss : List (RecipeStep (Option Json))) (a : Json)
      → All (λ s. HasText s.params) ss
      → ok.IsPrintable a
      → ok.IsPrintable (append_steps js ss a)
  unfolding append_steps
  append_steps-IsPrintable [] a t h = h
  append_steps-IsPrintable (s ∷ ss) a t h =
      append_steps-IsPrintable ss _ t.1
        (ok.append-IsPrintable a _ h (step_to_json-IsPrintable s t.0))

  recipe_to_json-IsPrintable :
      (r : Recipe (Option Json))
      → All (λ s. HasText s.params) r.steps
      → r.timeout_ms ≤ 4294967295
      → ok.IsPrintable (recipe_to_json js r)
  unfolding recipe_to_json
  recipe_to_json-IsPrintable r t h =
      ok.add_item-IsPrintable _ (codes "steps") _
        (ok.add_item-IsPrintable _ (codes "timeoutMs") _
          (add_string-IsPrintable (codes "name") r.name _ (
            add_string-IsPrintable (codes "recipeVersion") r.recipe_version _ (
              add_string-IsPrintable (codes "recipeId") r.recipe_id _ ok.empty_object-IsPrintable)))
          (ok.of_int-IsPrintable (pos r.timeout_ms) (omega arith, omega arith)))
        (append_steps-IsPrintable r.steps _ t ok.empty_array-IsPrintable)

  -- A recipe that fits its arrays is read back from its text, but for the criticality of its steps,
  -- their requires_pass and the recovery branches, which the text does not say.
  pub parse-serialize :
      (r : Recipe (Option Json)) (text : CString)
      → Fits r
      → FitsHead js ok r
      → All (λ s. HasText s.params) r.steps
      → serialize js r ≡ some text
      → (parse (reader js) text ≡ some (forgetful js ok r))
        × (c_string text ≡ text)
        × (0 < length text)
  unfolding parse serialize
  parse-serialize r text v h t printed =
      let o = recipe_to_json js r in
      let whole = ok.c_string-print o text printed in
      let read : js.parse (c_string text) ≡ some o =
        ap js.parse whole
        ∙ ok.parse-print o text (recipe_to_json-IsPrintable r t h.timeout_fits) printed in
      (
        rw (read, parse) (ap some (build-recipe_to_json js ok r v h)),
        whole,
        ok.print-nonempty o text printed,
      )

module _ (kv : KeyValue) (m : IsMap kv) where
  pub size_of-store_nvs :
      (s : kv.State) (id : CString) (text : List ℕ)
      → m.IsReady s
      → length id < 64
      → (store_nvs kv s id text).1 ≡ pos 0
      → kv.size_of (store_nvs kv s id text).0 recipes id ≡ pos (length text)
  unfolding store_nvs
  size_of-store_nvs s id text ready short done =
      size_of-some kv m (kv.put s recipes id text).0 recipes id text
        (m.put-IsReady s recipes id text short ready)
        (m.entry-put s recipes id text recipes id short ready done
          ∙ rw (same_slot_refl recipes id) refl)

  -- A text that was stored is loaded again, up to its first NUL.
  pub load_nvs-store_nvs :
      (s : kv.State) (id : CString) (text : List ℕ)
      → m.IsReady s
      → length id < 64
      → 0 < length text
      → (store_nvs kv s id text).1 ≡ pos 0
      → load_nvs kv true (store_nvs kv s id text).0 id ≡ some (c_string text)
  unfolding load_nvs store_nvs load_sized
  load_nvs-store_nvs s id text ready short some_text done =
      let s' = (kv.put s recipes id text).0 in
      let ready' = m.put-IsReady s recipes id text short ready in
      let kept : m.entry s' recipes id ≡ some text =
        m.entry-put s recipes id text recipes id short ready done
        ∙ rw (same_slot_refl recipes id) refl in
      let sized = size_of-store_nvs s id text ready short done in
      let got = get-some kv m s' recipes id text ready' kept in
      let some_bytes : not_positive (pos (length text)) ≡ false =
        positive (length text) some_text in
      rw (sized, load_nvs) (rw (some_bytes) (rw (got, load_sized) (rw some_bytes refl)))
