-- ===== src/Config/Paths.antt =====
-- src/tc_config.c: what the accessors read behind a write.
use test_controller.Base.{
  ◌≡◌, refl, sym, ◌∙◌, true, false, none, some, List, [], ◌∷◌, map, CString, str_eq→eq, str_eq_refl,
  Bool-cases, Option-cases, ◌⊎◌, inl, inr,
}
use test_controller.Base.Int.{ℤ}
use test_controller.Json.{JsonApi, IsJson, IsInt32, same_key, to_lower, or_else-none}
use test_controller.Config.{
  segments, get_below, set_below, path_get, path_set, get_int, get_float, get_str, set_leaf,
  set_int, set_float, set_str,
}

same_key_refl : (k : CString) → same_key k k ≡ true
same_key_refl k = str_eq_refl (map to_lower k)

same_key-sym : (a b : CString) → same_key a b ≡ true → same_key b a ≡ true
same_key-sym a b h =
    rw (str_eq→eq (map to_lower a) (map to_lower b) h) (str_eq_refl (map to_lower b))

-- Neither path leads through the other.
abbrev pub Apart : CString → List CString → CString → List CString → Type 0
Apart a [] b ks = same_key a b ≡ false
Apart a (j ∷ js') b [] = same_key a b ≡ false
Apart a (j ∷ js') b (k ∷ ks) = (same_key a b ≡ false) ⊎ Apart j js' k ks

module _ {F : Type 0} (js : JsonApi F) (ok : IsJson js) where
  open js use {Json}

  -- The object that holds the leaf has it at most once.
  abbrev pub Once : Json → CString → List CString → Type 0
  Once node seg [] = js.item (js.delete_item node seg) seg ≡ none
  Once node seg (k ∷ ks) = (child : Json) → js.item node seg ≡ some child → Once child k ks

  Once-empty_object : (seg : CString) (ks : List CString) → Once js.empty_object seg ks
  Once-empty_object seg [] =
      ok.item-delete_none js.empty_object seg seg (ok.item-empty_object seg)
      ∙ ok.item-empty_object seg
  Once-empty_object seg (k ∷ ks) = λ child h. absurd (cc (ok.item-empty_object seg))

  get_below-set_below :
      (node : Json) (seg : CString) (ks : List CString) (value : Json)
      → Once node seg ks
      → get_below js (set_below js node seg ks value) seg ks ≡ some value
  unfolding get_below set_below
  get_below-set_below node seg [] value once =
      ok.item-add_item (js.delete_item node seg) seg value seg ∙ rw (once, same_key_refl seg) refl
  get_below-set_below node seg (k ∷ ks) value once = elim (Option-cases (js.item node seg)) [
    | inl gone ↦
        let inner = set_below js js.empty_object k ks value in
        let added : js.item (js.add_item node seg inner) seg ≡ some inner =
          ok.item-add_item node seg inner seg ∙ rw (gone, same_key_refl seg) refl in
        rw (gone, set_below)
          (rw (added, get_below)
            (get_below-set_below js.empty_object k ks value (Once-empty_object k ks)))
    | inr (child, there) ↦
        let f : Json → Json = λ o. set_below js o k ks value in
        let changed : js.item (js.update_item node seg f) seg ≡ some (f child) =
          ok.item-update_item node seg f child seg there ∙ rw (same_key_refl seg) refl in
        rw (there, set_below)
          (rw (changed, get_below) (get_below-set_below child k ks value (once child there)))
  ]

  -- A read depends on its first item only.
  get_below-item :
      (o o' : Json) (b : CString) (bs : List CString)
      → js.item o b ≡ js.item o' b
      → get_below js o b bs ≡ get_below js o' b bs
  unfolding get_below
  get_below-item o o' b [] h = h
  get_below-item o o' b (k ∷ ks) h = rw (h, get_below) refl

  get_below-empty : (b : CString) (bs : List CString) → get_below js js.empty_object b bs ≡ none
  unfolding get_below
  get_below-empty b [] = ok.item-empty_object b
  get_below-empty b (k ∷ ks) = rw (ok.item-empty_object b, get_below) refl

  add_item-other :
      (o : Json) (k : CString) (i : Json) (k' : CString)
      → same_key k k' ≡ false
      → js.item (js.add_item o k i) k' ≡ js.item o k'
  add_item-other o k i k' h = ok.item-add_item o k i k' ∙ rw h (or_else-none (js.item o k'))

  -- One level, where the other path goes elsewhere.
  set_below-elsewhere :
      (node : Json) (a : CString) (as' : List CString) (value : Json) (b : CString)
      → same_key a b ≡ false
      → js.item (set_below js node a as' value) b ≡ js.item node b
  unfolding set_below
  set_below-elsewhere node a [] value b h =
      add_item-other (js.delete_item node a) a value b h ∙ ok.item-delete_item node a b h
  set_below-elsewhere node a (j ∷ js') value b h = elim (Option-cases (js.item node a)) [
    | inl gone ↦
        rw (gone, set_below) (add_item-other node a (set_below js js.empty_object j js' value) b h)
    | inr (child, there) ↦
        rw (there, set_below)
          (ok.item-update_item node a (λ o. set_below js o j js' value) child b there ∙ rw h refl)
  ]

  -- Through a first segment that both paths share.
  through :
      (node : Json) (a j : CString) (js' : List CString) (value : Json) (b k : CString)
      (ks : List CString)
      → same_key a b ≡ true
      → ((o : Json) → get_below js (set_below js o j js' value) k ks ≡ get_below js o k ks)
      → get_below js (set_below js node a (j ∷ js') value) b (k ∷ ks) ≡ get_below js node b (k ∷ ks)
  unfolding get_below set_below
  through node a j js' value b k ks same ih = elim (Option-cases (js.item node a)) [
    | inl gone ↦
        let inner = set_below js js.empty_object j js' value in
        let missing : js.item node b ≡ none = sym (ok.item-same node a b same) ∙ gone in
        let added : js.item (js.add_item node a inner) b ≡ some inner =
          ok.item-add_item node a inner b ∙ rw (missing, same) refl in
        rw (gone, set_below)
          (rw (added, get_below)
            (rw (missing, get_below) (ih js.empty_object ∙ get_below-empty k ks)))
    | inr (child, there) ↦
        let f : Json → Json = λ o. set_below js o j js' value in
        let shared : js.item node b ≡ some child = sym (ok.item-same node a b same) ∙ there in
        let changed : js.item (js.update_item node a f) b ≡ some (f child) =
          ok.item-update_item node a f child b there ∙ rw same refl in
        rw (there, set_below) (rw (changed, get_below) (rw (shared, get_below) (ih child)))
  ]

  get_below-set_other :
      (node : Json) (a : CString) (as' : List CString) (value : Json) (b : CString)
      (bs : List CString)
      → Apart a as' b bs
      → get_below js (set_below js node a as' value) b bs ≡ get_below js node b bs
  get_below-set_other node a [] value b bs h =
      get_below-item (set_below js node a [] value) node b bs
        (set_below-elsewhere node a [] value b h)
  get_below-set_other node a (j ∷ js') value b [] h =
      get_below-item (set_below js node a (j ∷ js') value) node b []
        (set_below-elsewhere node a (j ∷ js') value b h)
  get_below-set_other node a (j ∷ js') value b (k ∷ ks) (inl h) =
      get_below-item (set_below js node a (j ∷ js') value) node b (k ∷ ks)
        (set_below-elsewhere node a (j ∷ js') value b h)
  get_below-set_other node a (j ∷ js') value b (k ∷ ks) (inr h) = elim (Bool-cases (same_key a b)) [
    | inr differ ↦
        get_below-item (set_below js node a (j ∷ js') value) node b (k ∷ ks)
          (set_below-elsewhere node a (j ∷ js') value b differ)
    | inl same ↦
        through node a j js' value b k ks same (λ o. get_below-set_other o j js' value k ks h)
  ]

  -- Behind each of the three writes the reader of its type gives the value at that path, whatever was
  -- there; and a write of any leaf leaves what is read at a path that leads neither through it nor below
  -- it. The object that holds the leaf has that name at most once.
  pub reads-writes :
      (cfg value : Json) (path path' : CString) (n dn : ℤ) (x dx : F) (t dt : CString)
      → IsInt32 n
      → Once cfg (segments path).0 (segments path).1
      → Apart (segments path).0 (segments path).1 (segments path').0 (segments path').1
      → (get_int js (set_int js path n (some cfg)) path dn ≡ n)
        × (get_float js (set_float js path x (some cfg)) path dx ≡ x)
        × (get_str js (set_str js path t (some cfg)) path dt ≡ t)
        × (path_get js (path_set js cfg path value) path' ≡ path_get js cfg path')
  unfolding get_int get_float get_str set_int set_float set_str set_leaf path_get path_set
  reads-writes cfg value path path' n dn x dx t dt range once apart =
      let (a, as') = segments path in
      let (b, bs) = segments path' in
      let here : (v : Json) → get_below js (set_below js cfg a as' v) a as' ≡ some v =
        λ v. get_below-set_below cfg a as' v once in
      (
        rw (here (js.of_int n), get_int) (rw (ok.of_int-is_number n) (ok.as_int-of_int n range)),
        rw (here (js.of_float x), get_float)
            (rw (ok.of_float-is_number x) (ok.as_float-of_float x)),
        rw (here (js.of_string t), get_str)
            (rw (ok.of_string-is_string t, ok.valuestring-of_string t) refl),
        get_below-set_other cfg a as' value b bs apart,
      )
