-- ===== src/RecipeManager/Locking.antt =====
-- recipes/recipe_manager_mock.c: what a lock forbids.
use test_controller.Base.{
  ℕ, ◌≡◌, refl, ap, ◌∙◌, true, some, List, [], ◌∷◌, CString, All, if_true, if_either,
}
use test_controller.Base.Int.{ℤ, negsuc}
use test_controller.Json.{c_string}
use test_controller.Storage.{Store, read_string}
use test_controller.Storage.Entries.{configuration}
use test_controller.Storage.Interface.{not_positive}
use test_controller.RecipeManager.{
  TestRecipe, Layout, Manager, save_recipe, update_recipe, delete_recipe, load_recipe, lock, unlock,
  start, stop, load_last, load_last_used, save_as_last_used, last_recipe_key, recipe_name_max,
}

-- The public calls that change the manager or the store; RecipeManager_Mock_Reset is for tests.
pub data Call : Type 0 where
  load_call : CString → Call
  save_call : TestRecipe → Call
  update_call : TestRecipe → Call
  delete_call : CString → Call
  lock_call : Call
  unlock_call : Call
  load_last_call : Call
  save_last_call : Call
  start_call : Call
  stop_call : Call

unfoldable pub run_call : Layout → Call → Manager × Store → Manager × Store
run_call l (load_call name) (m, s) = ((load_recipe l name (m, s)).0, s)
run_call l (save_call r) (m, s) = (m, (save_recipe l r (m, s)).0)
run_call l (update_call r) (m, s) = (m, (update_recipe l r (m, s)).0)
run_call l (delete_call name) (m, s) = (m, (delete_recipe name (m, s)).0)
run_call l lock_call (m, s) = ((lock m).0, s)
run_call l unlock_call (m, s) = ((unlock m).0, s)
run_call l load_last_call (m, s) = ((load_last_used l (m, s)).0, s)
run_call l save_last_call (m, s) = (m, (save_as_last_used (m, s)).0)
run_call l start_call (m, s) = (start l (m, s)).0
run_call l stop_call (m, s) = (stop (m, s)).0

unfoldable pub run_calls : Layout → List Call → Manager × Store → Manager × Store
unfolding run_call
run_calls l [] w = w
run_calls l (c ∷ cs) w = run_calls l cs (run_call l c w)

-- A call that neither unlocks nor stops the manager.
abbrev pub IsQuiet : Call → Type 0
IsQuiet unlock_call = ⊥
IsQuiet stop_call = ⊥
IsQuiet _ = Unit {0}

-- The calls that only write to the store.
unfoldable pub writes : List Call → List Call
writes [] = []
writes (save_call r ∷ cs) = save_call r ∷ writes cs
writes (update_call r ∷ cs) = update_call r ∷ writes cs
writes (save_last_call ∷ cs) = save_last_call ∷ writes cs
writes (load_call name ∷ cs) = writes cs
writes (delete_call name ∷ cs) = writes cs
writes (lock_call ∷ cs) = writes cs
writes (unlock_call ∷ cs) = writes cs
writes (load_last_call ∷ cs) = writes cs
writes (start_call ∷ cs) = writes cs
writes (stop_call ∷ cs) = writes cs

module _ (l : Layout) (m : Manager) (on : m.initialized ≡ true) (held : m.locked ≡ true) where
  load_recipe-locked : (name : CString) (s : Store) → load_recipe l name (m, s) ≡ (m, negsuc 0)
  unfolding load_recipe
  load_recipe-locked name s = if_true _ m.initialized on ∙ if_true _ m.locked held

  delete_recipe-locked : (name : CString) (s : Store) → delete_recipe name (m, s) ≡ (s, negsuc 0)
  unfolding delete_recipe
  delete_recipe-locked name s = if_true _ m.initialized on ∙ if_true _ m.locked held

  load_last-locked : (n : ℤ) (bytes : List ℕ) (s : Store) → (load_last l (n, bytes) (m, s)).0 ≡ m
  unfolding load_last
  load_last-locked n bytes s =
      rw (load_recipe-locked (c_string bytes) s)
        (if_either (λ (r : Manager × ℤ). r.0 ≡ m) (not_positive n) refl refl)

  load_last_used-locked : (s : Store) → (load_last_used l (m, s)).0 ≡ m
  unfolding load_last_used
  load_last_used-locked s =
      let found = read_string s configuration (some last_recipe_key) recipe_name_max in
      ap (λ (r : Manager × ℤ). r.0) (if_true _ m.initialized on)
      ∙ load_last-locked found.0 found.1 s

  lock-locked : (lock m).0 ≡ m
  unfolding lock
  lock-locked = ap (λ (r : Manager × ℤ). r.0) (if_true _ m.initialized on ∙ if_true _ m.locked held)

  start-on : (s : Store) → (start l (m, s)).0 ≡ (m, s)
  unfolding start
  start-on s = ap (λ (r : (Manager × Store) × ℤ). r.0) (if_true _ m.initialized on)

  -- While a manager is locked, the public calls without an unlock and a stop leave the current recipe and the
  -- lock, and the store is the one that the saves, the updates and the notes of the last recipe among
  -- them make: no recipe is loaded, and none is deleted.
  pub run_calls-locked :
      (cs : List Call) (s : Store)
      → All IsQuiet cs
      → run_calls l cs (m, s) ≡ (m, (run_calls l (writes cs) (m, s)).1)
  unfolding run_calls run_call writes
  run_calls-locked [] s q = refl
  run_calls-locked (load_call name ∷ cs) s q =
      ap (λ (r : Manager × ℤ). run_calls l cs (r.0, s)) (load_recipe-locked name s)
      ∙ run_calls-locked cs s q.1
  run_calls-locked (save_call r ∷ cs) s q = run_calls-locked cs _ q.1
  run_calls-locked (update_call r ∷ cs) s q = run_calls-locked cs _ q.1
  run_calls-locked (delete_call name ∷ cs) s q =
      ap (λ (r : Store × ℤ). run_calls l cs (m, r.0)) (delete_recipe-locked name s)
      ∙ run_calls-locked cs s q.1
  run_calls-locked (lock_call ∷ cs) s q =
      ap (λ (x : Manager). run_calls l cs (x, s)) lock-locked ∙ run_calls-locked cs s q.1
  run_calls-locked (unlock_call ∷ cs) s q = absurd q.0
  run_calls-locked (load_last_call ∷ cs) s q =
      ap (λ (x : Manager). run_calls l cs (x, s)) (load_last_used-locked s)
      ∙ run_calls-locked cs s q.1
  run_calls-locked (save_last_call ∷ cs) s q = run_calls-locked cs _ q.1
  run_calls-locked (start_call ∷ cs) s q =
      ap (run_calls l cs) (start-on s) ∙ run_calls-locked cs s q.1
  run_calls-locked (stop_call ∷ cs) s q = absurd q.0
