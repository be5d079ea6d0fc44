-- ===== src/Config.antt =====
-- src/tc_config.c: the configuration as a tree of cJSON, its paths, and the store.
pub mod Paths
pub mod Stored
pub mod Commands
mod Tests
use test_controller.Base.{
  ℕ, zero, suc, Bool, true, false, not, Option, none, some, List, [], ◌∷◌, CString, codes,
  truncated, ◌==◌, if◌then◌else◌,
}
use test_controller.Base.Int.{ℤ, pos, negsuc}
use test_controller.Json.{JsonApi, c_string}
use test_controller.Storage.{ok, failed}
use test_controller.Storage.Entries.{configuration}
use test_controller.Storage.Interface.{KeyValue, not_positive, is_ok}

abbrev pub key : CString
key = codes "device"

-- s_defaults
abbrev pub default_text : CString
default_text =
    codes
      "{\"fixture_id\":\"UNSET\",\"hw_revision\":\"B\",\"vdut\":{\"slope_mv_per_pct\":0,\"intercept_mv\":0,\"v_nominal_mv\":3300,\"v_tolerance_pct\":5,\"settle_ms\":300},\"limits\":{\"i_idle_min_ma\":5,\"i_idle_max_ma\":250,\"i_active_min_ma\":50,\"i_active_max_ma\":400}}"

-- A path that is cut at its dots: the first segment, and the others.
unfoldable pub cut : CString → CString × List CString
cut [] = ([], [])
cut (c ∷ cs) = let rest = cut cs in if c == 46 then ([], rest.0 ∷ rest.1) else (c ∷ rest.0, rest.1)

-- The copy in the buffer of 64 bytes.
unfoldable pub segments : CString → CString × List CString
unfolding cut
segments path = cut (truncated 64 path)

module _ {F : Type 0} (js : JsonApi F) where
  open js use {Json}

  -- The loop of path_get: `seg` is looked up in `node`, and the other segments below.
  unfoldable pub get_below : Json → CString → List CString → Option Json
  get_below node seg [] = js.item node seg
  get_below node seg (k ∷ ks) = elim (js.item node seg) [
    | none ↦ none
    | some child ↦ get_below child k ks
  ]

  unfoldable pub path_get : Json → CString → Option Json
  unfolding get_below segments
  path_get root path = let (seg, rest) = segments path in get_below root seg rest

  -- path_ensure_parent, and behind it the deletion and the addition of the leaf. The parent is changed
  -- in place; an object that is missing on the way is added.
  unfoldable pub set_below : Json → CString → List CString → Json → Json
  set_below node seg [] value = js.add_item (js.delete_item node seg) seg value
  set_below node seg (k ∷ ks) value = elim (js.item node seg) [
    | none ↦ js.add_item node seg (set_below js.empty_object k ks value)
    | some child ↦ js.update_item node seg (λ o. set_below o k ks value)
  ]

  unfoldable pub path_set : Json → CString → Json → Json
  unfolding set_below segments
  path_set root path value = let (seg, rest) = segments path in set_below root seg rest value

  -- `s_cfg`; `none` before the first load.
  abbrev pub Config : Type 0
  Config = Option Json

  unfoldable pub reset_defaults : Config
  reset_defaults = js.parse default_text

  unfoldable pub get_int : Config → CString → ℤ → ℤ
  get_int none path default = default
  get_int (some cfg) path default = elim (path_get cfg path) [
    | none ↦ default
    | some item ↦ if js.is_number item then js.as_int item else default
  ]

  unfoldable pub get_float : Config → CString → F → F
  get_float none path default = default
  get_float (some cfg) path default = elim (path_get cfg path) [
    | none ↦ default
    | some item ↦ if js.is_number item then js.as_float item else default
  ]

  abbrev pub text_or : CString → Option CString → CString
  text_or default none = default
  text_or default (some text) = text

  unfoldable pub get_str : Config → CString → CString → CString
  get_str none path default = default
  get_str (some cfg) path default = elim (path_get cfg path) [
    | none ↦ default
    | some item ↦ if js.is_string item then text_or default (js.valuestring item) else default
  ]

  -- The three setters differ in the leaf.
  unfoldable pub set_leaf : CString → Json → Config → Config
  set_leaf path value none = elim (reset_defaults) [
    | none ↦ none
    | some cfg ↦ some (path_set cfg path value)
  ]
  set_leaf path value (some cfg) = some (path_set cfg path value)

  unfoldable pub set_int : CString → ℤ → Config → Config
  unfolding set_leaf
  set_int path val c = set_leaf path (js.of_int val) c

  unfoldable pub set_float : CString → F → Config → Config
  unfolding set_leaf
  set_float path val c = set_leaf path (js.of_float val) c

  unfoldable pub set_str : CString → CString → Config → Config
  unfolding set_leaf
  set_str path val c = set_leaf path (js.of_string val) c

  module _ (kv : KeyValue) where
    unfoldable pub load_text : List ℕ → Config × ℤ
    unfolding reset_defaults
    load_text bytes = elim (js.parse (c_string bytes)) [
      | none ↦ (reset_defaults, failed)
      | some root ↦ (some root, ok)
    ]

    unfoldable pub load_sized : kv.State → ℕ → Config × ℤ
    unfolding load_text reset_defaults
    load_sized s sz =
        let r = kv.get s configuration key sz in
        if not_positive r.0 then (reset_defaults, failed) else load_text r.1

    unfoldable pub load : Bool → kv.State → Config × ℤ
    unfolding load_sized reset_defaults
    load has_buffer s = elim (kv.size_of s configuration key) [
      | negsuc n ↦ (reset_defaults, ok)
      | pos n ↦
          if not_positive (pos n)
          then (reset_defaults, ok)
          else if has_buffer
          then load_sized s n
          else (reset_defaults, failed)
    ]

    unfoldable pub save : kv.State → Config → kv.State × ℤ
    save s none = (s, failed)
    save s (some cfg) = elim (js.print cfg) [
      | none ↦ (s, failed)
      | some json ↦ kv.put s configuration key json
    ]
