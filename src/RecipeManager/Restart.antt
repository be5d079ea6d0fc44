-- ===== src/RecipeManager/Restart.antt =====
-- recipes/recipe_manager_mock.c: recipes that are loaded again.
use test_controller.Base.{
  ℕ, zero, suc, ◌+◌, ◌≤◌, ◌<◌, ◌≡◌, refl, sym, ap, ◌∙◌, true, false, ◌&&◌, Option, some, List, [],
  ◌∷◌, ◌++◌, CString, length, length-append, take, take_all, All, leb, ltb, ◌==◌, if◌then◌else◌,
  if_true, if_false, arith,
}
use test_controller.Base.Int.{ℤ, pos}
use mathlib.Core.Path.{subst}
use test_controller.Json.{c_string}
use test_controller.Storage.Entries.{Domain, Entry, recipes, configuration, domain_eq}
use test_controller.Storage.Search.{same_slot, same_slot_refl}
use test_controller.Storage.Map.{lookup, read_result, queries-lookup}
use test_controller.Storage.Interface.{IsOpen, mock_storage-IsMap, not_positive, is_ok, positive}
use test_controller.Storage.{
  Store, init, deinit, mock_reset, read, read_string, string_result, write, write_string,
}
use test_controller.RecipeManager.{
  TestRecipe, Layout, HasImage, Manager, restored, loaded_from, load_recipe, load_last,
  load_last_used, save_recipe, save_as_last_used, start, stop, last_recipe_key,
}

-- The store has the recipe under its name.
abbrev pub Keeps : Layout → Store → TestRecipe → Type 0
Keeps l s r = lookup s recipes r.name ≡ some (l.image r)

read_result-short :
    (bytes : List ℕ) (n : ℕ)
    → length bytes ≤ n
    → read_result (some bytes) n ≡ (pos (length bytes), bytes)
read_result-short bytes n h =
    let fits : ltb n (length bytes) ≡ false = ground (arith, h) in
    rw (fits, take_all n bytes h) refl

restored-image :
    (l : Layout) (r : TestRecipe) (ok : HasImage l r) (name : CString)
    → restored l name l.size_of (l.image r) ≡ r
unfolding restored
restored-image l r ok name =
    let all : leb l.size_of l.size_of ≡ true = ground arith in
    let bytes : take l.size_of (l.image r) ≡ l.image r =
      take_all l.size_of (l.image r) (omega (arith, ok.length-image)) in
    rw (all, bytes) (ok.of_image-image)

loaded_from-size :
    (l : Layout) (name : CString) (m : Manager) (n : ℕ) (bytes : List ℕ)
    → 0 < n
    → loaded_from l name m (pos n, bytes)
      ≡ (record m { current_recipe = restored l name n bytes; recipe_loaded = true }, pos 0)
unfolding loaded_from
loaded_from-size l name m zero bytes h = absurd (omega arith)
loaded_from-size l name m (suc n) bytes h = refl

load_recipe-Keeps :
    (l : Layout) (r : TestRecipe) (ok : HasImage l r) (m : Manager) (s : Store)
    → m.initialized ≡ true
    → m.locked ≡ false
    → IsOpen s
    → Keeps l s r
    → load_recipe l r.name (m, s) ≡ (record m { current_recipe = r; recipe_loaded = true }, pos 0)
unfolding load_recipe
load_recipe-Keeps l r ok m s on free w k =
    let size = ok.length-image in
    let bytes : read s recipes (some r.name) (some 4096) ≡ (pos l.size_of, l.image r) =
      (queries-lookup s recipes r.name 4096 w.kept w.on).0
      ∙ ap (λ (o : Option (List ℕ)). read_result o 4096) k
      ∙ read_result-short (l.image r) 4096 (ground (arith, size, ok.fits))
      ∙ ap (λ (n : ℕ). (pos n, l.image r)) size in
    if_true _ m.initialized on
    ∙ if_false _ m.locked free
    ∙ ap (loaded_from l r.name m) bytes
    ∙ loaded_from-size l r.name m l.size_of (l.image r) (ground (arith, ok.some_bytes))
    ∙ ap (λ (x : TestRecipe). (record m { current_recipe = x; recipe_loaded = true }, pos 0))
        (restored-image l r ok r.name)

-- A recipe that was saved is loaded again under its name, by an unlocked manager over an open store.
pub load_recipe-save_recipe :
    (l : Layout) (r : TestRecipe) (ok : HasImage l r) (m : Manager) (s : Store)
    → m.initialized ≡ true
    → m.locked ≡ false
    → IsOpen s
    → length r.name < 64
    → (save_recipe l r (m, s)).1 ≡ pos 0
    → load_recipe l r.name (m, (save_recipe l r (m, s)).0)
      ≡ (record m { current_recipe = r; recipe_loaded = true }, pos 0)
unfolding save_recipe mock_storage-IsMap
load_recipe-save_recipe l r ok m s on free w short done =
    let written : save_recipe l r (m, s) ≡ write s recipes (some r.name) (some (l.image r)) =
      if_true _ m.initialized on in
    let s' = (write s recipes (some r.name) (some (l.image r))).0 in
    let open' : IsOpen s' = mock_storage-IsMap.put-IsReady s recipes r.name (l.image r) short w in
    let kept : Keeps l s' r =
      mock_storage-IsMap.entry-put s recipes r.name (l.image r) recipes r.name short w
        (ap (λ (x : Store × ℤ). x.1) (sym written) ∙ done)
      ∙ rw (same_slot_refl recipes r.name) refl in
    ap (λ (x : Store × ℤ). load_recipe l r.name (m, x.0)) written
    ∙ load_recipe-Keeps l r ok m s' on free open' kept

c_string-take :
    (name : CString) (n : ℕ)
    → All (λ c. 0 < c) name
    → length name ≤ n
    → c_string (take n (name ++ 0 ∷ [])) ≡ name
unfolding c_string
c_string-take [] zero p h = refl
c_string-take [] (suc n) p h = refl
c_string-take (c ∷ cs) zero p h = absurd (omega arith)
c_string-take (c ∷ cs) (suc n) p h =
    let go : (c == 0) ≡ false = ground (arith, p.0) in
    rw go (ap (◌∷◌ c) (c_string-take cs n p.1 (omega arith)))

string_result-positive :
    (n : ℕ) (bytes : List ℕ) → 0 < n → string_result (pos n, bytes) ≡ (pos (n + 1), bytes)
unfolding string_result
string_result-positive zero bytes h = absurd (omega arith)
string_result-positive (suc n) bytes h = refl

-- The store behind a Storage_Deinit and a Storage_Init.
abbrev pub reopened : Store → Store
reopened s = (init (deinit s).0).0

reopened_lem : (s : Store) → reopened s ≡ record s { initialized = true }
unfolding init deinit mock_reset
reopened_lem s = by_entries s.entries s.used_bytes
  where
    by_entries :
        (entries : List Entry) (used : ℕ)
        → (init (record { initialized = false; entries = entries; used_bytes = used })).0
          ≡ record { initialized = true; entries = entries; used_bytes = used }
    by_entries [] zero = refl
    by_entries [] (suc n) = refl
    by_entries (e ∷ es) used = refl

reopened-IsOpen : (s : Store) → IsOpen s → IsOpen (reopened s)
reopened-IsOpen s w = subst IsOpen (sym (reopened_lem s)) (record {
  kept = record { counted = w.kept.counted; few = w.kept.few; sound = w.kept.sound };
  apart = w.apart;
  on = refl;
})

lookup-reopened : (s : Store) (d : Domain) (k : CString) → lookup (reopened s) d k ≡ lookup s d k
unfolding lookup
lookup-reopened s d k = ap (λ (x : Store). lookup x d k) (reopened_lem s)

init_ok : (s : Store) → is_ok (init s).1 ≡ true
unfolding init
init_ok s = ground arith

-- What the store says of the name that was used last.
read_last :
    (s : Store) (name : CString)
    → IsOpen s
    → length name < 64
    → lookup s configuration last_recipe_key ≡ some (name ++ 0 ∷ [])
    → (n : ℕ) × (read_string s configuration (some last_recipe_key) 64
        ≡ (pos (n + 1), take 63 (name ++ 0 ∷ [])))
unfolding read_string
read_last s name w short e =
    let bytes = name ++ 0 ∷ [] in
    let size : length bytes ≡ length name + 1 = length-append name (0 ∷ []) in
    let n = if ltb 63 (length bytes) then 63 else length bytes in
    (
      n,
      ap string_result (
            (queries-lookup s configuration last_recipe_key 63 w.kept w.on).0
            ∙ ap (λ (o : Option (List ℕ)). read_result o 63) e)
          ∙ string_result-positive n (take 63 bytes) (ground (arith, size)),
    )

load_last_used-Keeps :
    (l : Layout) (r : TestRecipe) (ok : HasImage l r) (m : Manager) (s : Store)
    → m.initialized ≡ true
    → m.locked ≡ false
    → IsOpen s
    → Keeps l s r
    → length r.name < 64
    → All (λ c. 0 < c) r.name
    → lookup s configuration last_recipe_key ≡ some (r.name ++ 0 ∷ [])
    → load_last_used l (m, s) ≡ (record m { current_recipe = r; recipe_loaded = true }, pos 0)
unfolding load_last_used load_last
load_last_used-Keeps l r ok m s on free w k short text last =
    let (n, got) = read_last s r.name w short last in
    let name : c_string (take 63 (r.name ++ 0 ∷ [])) ≡ r.name =
      c_string-take r.name 63 text (omega arith) in
    let some_size : not_positive (pos (n + 1)) ≡ false = positive (n + 1) (omega arith) in
    let loaded = load_recipe-Keeps l r ok m s on free w k in
    if_true _ m.initialized on
    ∙ ap (λ (x : ℤ × List ℕ). load_last l x (m, s)) got
    ∙ if_false _ (not_positive (pos (n + 1))) some_size
    ∙ ap
        (λ (id : CString).
          let x = load_recipe l id (m, s) in if is_ok x.1 then (x.0, pos 0) else (x.0, pos 1))
        name
    ∙ ap (λ (x : Manager × ℤ). if is_ok x.1 then (x.0, pos 0) else (x.0, pos 1)) loaded

-- A manager that is stopped and started again has the recipe that it had, unlocked, if the store was open
-- and has the recipe, the name could be stored, and it fits and has no NUL.
pub start-stop :
    (l : Layout) (m : Manager) (s : Store) (ok : HasImage l m.current_recipe)
    → m.initialized ≡ true
    → m.recipe_loaded ≡ true
    → IsOpen s
    → Keeps l s m.current_recipe
    → length m.current_recipe.name < 64
    → All (λ c. 0 < c) m.current_recipe.name
    → (save_as_last_used (m, s)).1 ≡ pos 0
    → (start l (stop (m, s)).0).0.0
      ≡ record m { initialized = true; recipe_loaded = true; locked = false }
unfolding start stop save_as_last_used write_string mock_storage-IsMap domain_eq
start-stop l m s ok on loaded w k short text done =
    let r = m.current_recipe in
    let bytes = r.name ++ 0 ∷ [] in
    let written = write s configuration (some last_recipe_key) (some bytes) in
    let s1 = written.0 in
    let both : (m.initialized && m.recipe_loaded) ≡ true = ground (arith, on, loaded) in
    let saved : save_as_last_used (m, s) ≡ written =
      if_true _ (m.initialized && m.recipe_loaded) both in
    let w1 : IsOpen s1 =
      mock_storage-IsMap.put-IsReady s configuration last_recipe_key bytes (omega arith) w in
    let after : (d : Domain) (key : CString)
        → lookup s1 d key
          ≡ (if same_slot configuration last_recipe_key d key then some bytes else lookup s d key) =
      λ d key.
        mock_storage-IsMap.entry-put s configuration last_recipe_key bytes d key (omega arith) w
          (ap (λ (x : Store × ℤ). x.1) (sym saved) ∙ done) in
    let last : lookup (reopened s1) configuration last_recipe_key ≡ some bytes =
      lookup-reopened s1 configuration last_recipe_key
      ∙ after configuration last_recipe_key
      ∙ rw (same_slot_refl configuration last_recipe_key) refl in
    let kept : Keeps l (reopened s1) r =
      lookup-reopened s1 recipes r.name ∙ after recipes r.name ∙ k in
    let off : Manager = record m { initialized = false } in
    let fresh : Manager = record m { initialized = true; recipe_loaded = false; locked = false } in
    let stopped : stop (m, s) ≡ ((off, (deinit s1).0), pos 0) =
      if_true _ m.initialized on
      ∙ ap (λ (x : Store). ((off, (deinit x).0), pos 0))
          (if_true _ m.recipe_loaded loaded ∙ ap (λ (x : Store × ℤ). x.0) saved) in
    let again =
      load_last_used-Keeps l r ok fresh (reopened s1) refl refl (reopened-IsOpen s1 w1) kept short
        text last in
    ap (λ (x : (Manager × Store) × ℤ). (start l x.0).0.0) stopped
    ∙ ap (λ (x : (Manager × Store) × ℤ). x.0.0)
        (if_true _ (is_ok (init (deinit s1).0).1) (init_ok (deinit s1).0))
    ∙ ap (λ (x : Manager × ℤ). x.0) again
