-- ===== src/Cal/Stored.antt =====
-- src/tc_cal.c: tc_cal_reset, tc_cal_load and tc_cal_save, over the store.
use test_controller.Base.{
  ℕ, Bool, true, not, Option, none, some, List, CString, codes, if◌then◌else◌,
}
use test_controller.Base.Int.{ℤ, pos, negsuc, ltb_ℤ}
use test_controller.Json.{JsonApi, c_string}
use test_controller.Storage.{ok, failed}
use test_controller.Storage.Entries.{calibration}
use test_controller.Storage.Interface.{KeyValue, not_positive, is_ok}
use test_controller.Cal.{Floats, Calibration, defaults}
use test_controller.Cal.Clock.{Clock, synchronised}
use test_controller.Cal.Json.{cal_to_json, json_to_cal}
use test_controller.Cal.Profile.{Files, write_profile}

-- The statics, and the profile file.
pub record Cal (F : Type 0) : Type 0 where
  pub s_cal : Calibration F
  pub s_loaded : Bool
  pub profile : Option CString

abbrev pub key : CString
key = codes "cal"

module _ (fl : Floats) (js : JsonApi fl.Float) (kv : KeyValue) where
  open fl use {Float}

  unfoldable pub reset : Cal Float → Cal Float
  reset c = record c { s_cal = defaults fl; s_loaded = true }

  -- tc_cal_write_profile_json
  unfoldable pub snapshot : Clock → Files → Cal Float → Cal Float
  snapshot k files c = record c {
    profile = write_profile fl js k files c.s_loaded c.s_cal c.profile;
  }

  -- Behind a successful read.
  unfoldable pub load_text : Clock → Files → List ℕ → Cal Float → Cal Float × ℤ
  unfolding reset snapshot
  load_text k files bytes c = elim (js.parse (c_string bytes)) [
    | none ↦ (reset c, failed)
    | some root ↦
        (snapshot k files (record c { s_cal = json_to_cal fl js root; s_loaded = true }), ok)
  ]

  -- `has_buffer` says whether malloc gives the buffer.
  unfoldable pub load : Clock → Files → Bool → kv.State → Cal Float → Cal Float × ℤ
  unfolding reset load_text
  load k files has_buffer s c = elim (kv.size_of s calibration key) [
    | negsuc n ↦ (reset c, ok)
    | pos sz ↦
        if not_positive (pos sz)
        then (reset c, ok)
        else if not has_buffer
        then (reset c, failed)
        else let r = kv.get s calibration key sz in
          if not_positive r.0 then (reset c, failed) else load_text k files r.1 c
  ]

  unfoldable pub stamped : Clock → Calibration Float → Calibration Float
  stamped k c =
      if ltb_ℤ synchronised k.now then record c { cal_timestamp = k.utc_stamp k.now } else c

  -- Behind the printing.
  unfoldable pub store_text :
      Clock → Files → kv.State → Cal Float → Option CString → Cal Float × kv.State × ℤ
  unfolding snapshot
  store_text k files s c none = (c, s, failed)
  store_text k files s c (some json) =
      let r = kv.put s calibration key json in
      if is_ok r.1 then (snapshot k files c, r.0, r.1) else (c, r.0, r.1)

  -- `has_memory` says whether the tree can be made.
  unfoldable pub save : Clock → Files → Bool → kv.State → Cal Float → Cal Float × kv.State × ℤ
  unfolding stamped store_text
  save k files has_memory s c =
      if not c.s_loaded
      then (c, s, failed)
      else let c' = record c { s_cal = stamped k c.s_cal } in
        if not has_memory
        then (c', s, failed)
        else store_text k files s c' (js.print (cal_to_json fl js c'.s_cal))
