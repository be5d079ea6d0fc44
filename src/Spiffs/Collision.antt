-- ===== src/Spiffs/Collision.antt =====
-- storage/storage_spiffs.c under src/recipe_json.c and src/tc_config.c: a recipe in the place of the
-- configuration.
use test_controller.Base.{
  ℕ, ◌<◌, ◌≡◌, refl, ap, ◌∙◌, true, false, not, some, List, CString, codes, str_eq, length, take,
  take_all, ltb, arith, if_false,
}
use test_controller.Base.Int.{pos}
use test_controller.Json.{JsonApi, c_string}
use test_controller.Storage.Entries.{recipes, configuration, domain_eq}
use test_controller.Storage.Interface.{not_positive, positive}
use test_controller.RecipeJson.{store_nvs}
use test_controller.Config.{key, load, load_sized, load_text}
use test_controller.Spiffs.{Spiffs, Drivers, file_at, make_path, read, get_size, write, spiffs}
use test_controller.Spiffs.Slots.{entry, entry-write, write_file}

read_entry :
    (dr : Drivers) (s : Spiffs) (k : CString) (bytes : List ℕ)
    → s.s_mounted ≡ true
    → entry s configuration k ≡ some bytes
    → (get_size dr s configuration k ≡ pos (length bytes))
      × (read dr s configuration k (length bytes) ≡ (pos (length bytes), bytes))
unfolding entry read get_size domain_eq
read_entry dr s k bytes on there =
    let exact : ltb (length bytes) (length bytes) ≡ false = ground arith in
    let whole : take (length bytes) bytes ≡ bytes = take_all (length bytes) bytes (omega arith) in
    let on' : not s.s_mounted ≡ false = ap not on in
    let held : file_at (make_path k) s.files ≡ some bytes = there in
    (
      if_false _ (not s.s_mounted) on' ∙ rw held refl,
      if_false _ (not s.s_mounted) on' ∙ rw held (rw (exact, whole) refl),
    )

-- On the device the domain is no part of a file's name: a recipe that is stored under the name device is the
-- configuration that tc_config_load loads next, whatever was configured before, if the file system is
-- mounted, the store returned 0, and the text is JSON and not empty.
pub load-store_nvs :
    {F : Type 0} (js : JsonApi F) (dr : Drivers) (s : Spiffs) (text : CString) (root : js.Json)
    → s.s_mounted ≡ true
    → 0 < length text
    → (store_nvs (spiffs dr) s (codes "device") text).1 ≡ pos 0
    → js.parse (c_string text) ≡ some root
    → load js (spiffs dr) true (store_nvs (spiffs dr) s (codes "device") text).0
      ≡ (some root, pos 0)
unfolding load load_sized load_text store_nvs domain_eq entry str_eq
load-store_nvs js dr s text root on some_text done parsed =
    let s' = (write dr s recipes key text).0 in
    let on' : s'.s_mounted ≡ true =
      ap (λ (x : Spiffs). x.s_mounted) (write_file dr s recipes key text refl done) ∙ on in
    let here : entry s' configuration key ≡ some text =
      entry-write dr s recipes key text configuration key (omega arith) (omega arith) done in
    let (size, bytes) = read_entry dr s' key text on' here in
    let some_bytes : not_positive (pos (length text)) ≡ false = positive (length text) some_text in
    rw (size, load)
      (rw some_bytes (rw (bytes, load_sized) (rw some_bytes (rw (parsed, load_text) refl))))
