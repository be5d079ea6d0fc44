-- ===== src/RecipeManager.antt =====
-- recipes/recipe_manager_mock.c and recipes/recipe.h: the manager of the host build, which keeps recipes
-- as images of their struct in the store (storage/storage_mock.c).
pub mod Locking
pub mod Restart
mod Tests
use test_controller.Base.{
  ℕ, zero, suc, ◌≡◌, Bool, true, false, not, ◌&&◌, ◌||◌, Option, none, some, List, [], ◌∷◌, ◌++◌,
  CString, codes, truncated, length, take, leb, ltb, if◌then◌else◌,
}
use test_controller.Base.Int.{ℤ, pos, negsuc}
use test_controller.Json.{c_string}
use test_controller.Storage.Entries.{recipes, configuration}
use test_controller.Storage.Interface.{not_positive, is_ok}
use test_controller.Storage.{
  Store, init, deinit, read, read_string, write, write_string, delete, exists, list_keys,
}

pub data PowerRail : Type 0 where
  vin_1 vin_2 rail_3v rail_5v : PowerRail

pub data PowerAction : Type 0 where
  enable disable : PowerAction

-- RecipeStep_t: its type with the member of the union. The text of a command is a pointer.
pub data TestAction : Type 0 where
  set_voltage : ℕ → TestAction
  measure_voltage : ℕ → ℕ → TestAction
  measure_current : ℕ → ℕ → TestAction
  set_stimulus : ℕ → TestAction
  measure_response : ℕ → ℕ → TestAction
  select_branch : ℕ → TestAction
  power_rail : PowerRail → PowerAction → TestAction
  dut_command : ℕ → ℕ → TestAction
  delay : ℕ → TestAction
  check_value : ℕ → ℕ → ℕ → TestAction

-- `description` is a pointer.
pub record TestStep : Type 0 where
  pub action : TestAction
  pub step_id : ℕ
  pub description : ℕ

-- Recipe_t; `steps` is the array with its 50 places.
pub record TestRecipe : Type 0 where
  pub name : CString
  pub description : CString
  pub version : CString
  pub product : CString
  pub variant : CString
  pub duration_ms : ℕ
  pub requires_dut_uart : Bool
  pub step_count : ℕ
  pub steps : List TestStep
  pub created_timestamp : ℕ
  pub last_modified_timestamp : ℕ
  pub created_by : CString
  pub revision : ℕ

-- RecipeMetadata_t
pub record Metadata : Type 0 where
  pub name : CString
  pub product : CString
  pub variant : CString
  pub revision : ℕ
  pub last_modified : ℕ

abbrev pub recipe_name_max : ℕ
recipe_name_max = 64

abbrev pub recipe_list_max : ℕ
recipe_list_max = 20

-- The compiler's layout of the struct: its size, its bytes, and what a memcpy of bytes makes of it;
-- `zeros` is what memset leaves.
pub record Layout : Type 0 where
  pub size_of : ℕ
  pub image : TestRecipe → List ℕ
  pub of_image : List ℕ → TestRecipe
  pub zeros : TestRecipe

-- A recipe that is what a copy of its bytes is, and fits the buffer of RecipeManager_LoadRecipe.
pub record HasImage (l : Layout) (r : TestRecipe) : Type 0 where
  pub length-image : length (l.image r) ≡ l.size_of
  pub of_image-image : l.of_image (l.image r) ≡ r
  pub some_bytes : ltb 0 l.size_of ≡ true
  pub fits : leb l.size_of 4096 ≡ true

-- recipe_manager, without the name that nothing uses.
pub record Manager : Type 0 where
  pub initialized : Bool
  pub current_recipe : TestRecipe
  pub recipe_loaded : Bool
  pub locked : Bool

abbrev failed : ℤ
failed = negsuc 0

-- A call that needs an initialized manager.
abbrev when_on {ℓ} : {A : Type ℓ} → Manager → A → A → A
when_on m off go = if m.initialized then go else off

unfoldable pub save_recipe : Layout → TestRecipe → Manager × Store → Store × ℤ
save_recipe l r (m, s) = when_on m (s, failed) (write s recipes (some r.name) (some (l.image r)))

unfoldable pub update_recipe : Layout → TestRecipe → Manager × Store → Store × ℤ
unfolding save_recipe
update_recipe l r (m, s) =
    when_on m (s, failed)
      (if is_ok (exists s recipes (some r.name)) then (s, failed) else save_recipe l r (m, s))

unfoldable pub delete_recipe : CString → Manager × Store → Store × ℤ
delete_recipe name (m, s) =
    when_on m (s, failed) (if m.locked then (s, failed) else delete s recipes (some name))

-- The recipe that the bytes in the buffer give.
unfoldable pub restored : Layout → CString → ℕ → List ℕ → TestRecipe
restored l name size bytes =
    if leb l.size_of size
    then l.of_image (take l.size_of bytes)
    else record l.zeros { name = truncated recipe_name_max name }

-- Behind the read.
unfoldable pub loaded_from : Layout → CString → Manager → ℤ × List ℕ → Manager × ℤ
unfolding restored
loaded_from l name m (negsuc n, bytes) = (m, failed)
loaded_from l name m (pos zero, bytes) = (m, failed)
loaded_from l name m (pos (suc n), bytes) =
    (record m { current_recipe = restored l name (suc n) bytes; recipe_loaded = true }, pos 0)

-- RecipeManager_LoadRecipe, and RecipeManager_LoadRecipeMultiChannel
unfoldable pub load_recipe : Layout → CString → Manager × Store → Manager × ℤ
unfolding loaded_from
load_recipe l name (m, s) =
    when_on m (m, failed)
      (if m.locked
        then (m, failed)
        else loaded_from l name m (read s recipes (some name) (some 4096)))

unfoldable pub get_current : Manager → Option TestRecipe
get_current m = if m.initialized && m.recipe_loaded then some m.current_recipe else none

unfoldable pub get_current_name : Manager → CString
get_current_name m = if m.initialized && m.recipe_loaded then m.current_recipe.name else []

-- strncpy into the fields of the metadata.
unfoldable pub get_current_metadata : Manager → Option Metadata
get_current_metadata m =
    if m.initialized && m.recipe_loaded
    then some (record {
      name = truncated 64 m.current_recipe.name;
      product = truncated 32 m.current_recipe.product;
      variant = truncated 32 m.current_recipe.variant;
      revision = m.current_recipe.revision;
      last_modified = m.current_recipe.last_modified_timestamp;
    })
    else none

-- The loop of RecipeManager_ListRecipes; `n` names are still wanted.
unfoldable pub listed : ℕ → Store → List CString → List CString
listed zero s keys = []
listed (suc n) s [] = []
listed (suc n) s (key ∷ keys) =
    let skipped = listed (suc n) s keys in
    let rest = listed n s keys in
    if not_positive (read s recipes (some key) (some 512)).0
    then skipped
    else truncated recipe_name_max key ∷ rest

-- The filters are not used; the result is `none` for -1.
unfoldable pub list_recipes : ℕ → Manager × Store → Option (List CString)
unfolding listed
list_recipes max_recipes (m, s) = when_on m none (elim (list_keys s recipes recipe_list_max) [
  | none ↦ none
  | some keys ↦ some (listed max_recipes s keys)
])

unfoldable pub get_recipe_count : Manager × Store → Option ℕ
get_recipe_count (m, s) =
    when_on m none
      (elim (list_keys s recipes recipe_list_max) [ none ↦ none | some keys ↦ some (length keys) ])

-- RecipeManager_SyncCurrentRecipe
unfoldable pub sync_current : Manager → ℤ
sync_current m = when_on m failed (pos 0)

unfoldable pub lock : Manager → Manager × ℤ
lock m =
    when_on m (m, failed) (if m.locked then (m, failed) else (record m { locked = true }, pos 0))

unfoldable pub unlock : Manager → Manager × ℤ
unlock m = when_on m (m, failed) (record m { locked = false }, pos 0)

unfoldable pub is_locked : Manager → ℤ
is_locked m = when_on m failed (if m.locked then pos 1 else pos 0)

abbrev pub last_recipe_key : CString
last_recipe_key = codes "_last_recipe"

-- Behind the read of the last name.
unfoldable pub load_last : Layout → ℤ × List ℕ → Manager × Store → Manager × ℤ
unfolding load_recipe
load_last l (n, bytes) (m, s) =
    let r = load_recipe l (c_string bytes) (m, s) in
    if not_positive n then (m, pos 1) else if is_ok r.1 then (r.0, pos 0) else (r.0, pos 1)

unfoldable pub load_last_used : Layout → Manager × Store → Manager × ℤ
unfolding load_last
load_last_used l (m, s) =
    when_on m (m, failed)
      (load_last l (read_string s configuration (some last_recipe_key) recipe_name_max) (m, s))

unfoldable pub save_as_last_used : Manager × Store → Store × ℤ
save_as_last_used (m, s) =
    if m.initialized && m.recipe_loaded
    then write_string s configuration (some last_recipe_key) (some m.current_recipe.name)
    else (s, failed)

unfoldable pub start : Layout → Manager × Store → (Manager × Store) × ℤ
unfolding load_last_used
start l (m, s) =
    let opened = init s in
    let m' : Manager = record m { initialized = true; recipe_loaded = false; locked = false } in
    if m.initialized
    then ((m, s), pos 0)
    else if is_ok opened.1
    then (((load_last_used l (m', opened.0)).0, opened.0), pos 0)
    else ((m, opened.0), failed)

unfoldable pub stop : Manager × Store → (Manager × Store) × ℤ
unfolding save_as_last_used
stop (m, s) =
    let saved = if m.recipe_loaded then (save_as_last_used (m, s)).0 else s in
    when_on m ((m, s), failed) ((record m { initialized = false }, (deinit saved).0), pos 0)

-- RecipeManager_Mock_CreateTestRecipe, where malloc gives memory.
unfoldable pub create_test_recipe : Layout → CString → CString → TestRecipe
create_test_recipe l name product = record l.zeros {
  name = truncated 64 name;
  product = truncated 32 product;
  revision = 1;
}

-- RecipeManager_Mock_Reset
unfoldable pub reset_manager : Layout → Manager
reset_manager l = record {
  initialized = false;
  current_recipe = l.zeros;
  recipe_loaded = false;
  locked = false;
}
