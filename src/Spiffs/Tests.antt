-- ===== src/Spiffs/Tests.antt =====
-- Runs of storage/storage_spiffs.c with drivers that work.
use mathlib.Core.List.{List, Memᴰ}
use test_controller.Base.{
  ◌≡◌, refl, true, some, [], ◌∷◌, CString, codes, str_eq, truncated, behind, arith, if◌then◌else◌,
}
use test_controller.Base.Int.{pos}
use test_controller.Json.{c_string}
use test_controller.Json.Tree.{no_fields}
use test_controller.Json.Tree.Instance.{tree}
use test_controller.Json.Tree.Text.{parse}
use test_controller.Storage.Entries.{recipes, configuration, calibration, domain_eq}
use test_controller.RecipeJson.{store_nvs}
use test_controller.Config.{load}
use test_controller.Spiffs.{
  Spiffs, Drivers, put_file, make_path, write, written, list_keys, clear_domain, cleared,
  entry_name, strip_json, has_slash, spiffs,
}
use test_controller.Spiffs.Slots.{entry, shares, entry-write}
use test_controller.Spiffs.Listing.{list_keys-write}
use test_controller.Spiffs.Collision.{load-store_nvs}

abbrev working : Drivers
working = record {
  mounts = true;
  opens = true;
  takes = λ n. n;
  opens_dir = true;
  allocates = λ n. true;
  nvs_opens = true;
  nvs_sets = true;
}

abbrev fresh : Spiffs
fresh = record { s_mounted = true; files = []; cal = [] }

-- The text of an empty object.
abbrev text : CString
text = 1 ∷ []

abbrev stored : Spiffs
unfolding write written
stored = (write working fresh recipes (codes "device") text).0

listed : list_keys working stored configuration 20 ≡ some (codes "device" ∷ [])
unfolding list_keys stored behind put_file make_path domain_eq str_eq truncated entry_name
    strip_json has_slash
listed = refl

-- The domain that is cleared makes no difference.
all_cleared : (clear_domain working stored calibration).0 ≡ fresh
unfolding clear_domain cleared stored behind put_file make_path domain_eq str_eq truncated
    entry_name has_slash
all_cleared = refl

stored_ok : (write working fresh recipes (codes "device") text).1 ≡ pos 0
unfolding write written domain_eq
stored_ok = refl

entry-write_example :
    entry (write working fresh recipes (codes "device") text).0 configuration (codes "other") ≡ (
      if shares recipes (codes "device") configuration (codes "other")
      then some text
      else entry fresh configuration (codes "other"))
entry-write_example =
    entry-write working fresh recipes (codes "device") text configuration (codes "other")
      (omega arith) (omega arith) stored_ok

load-store_nvs_example :
    load tree (spiffs working) true (store_nvs (spiffs working) fresh (codes "device") text).0
    ≡ (some no_fields, pos 0)
unfolding store_nvs c_string parse
load-store_nvs_example =
    load-store_nvs tree working fresh text no_fields refl (omega arith) stored_ok refl

list_keys-write_example :
    (ks : List CString) × (list_keys working
        (write working fresh recipes (codes "device") text).0
        configuration
        20
      ≡ some ks)
    × Memᴰ (codes "device") ks
unfolding has_slash domain_eq
list_keys-write_example =
    list_keys-write working fresh recipes (codes "device") text configuration 20 refl refl refl refl
      (omega arith) refl (omega arith) stored_ok
