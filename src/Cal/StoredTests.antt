-- ===== src/Cal/StoredTests.antt =====
-- Runs of src/tc_cal.c over the mock of the store, with trees of whole numbers.
use test_controller.Base.{
  ◌+◌, ◌*◌, ◌≡◌, refl, true, false, none, some, arith, codes, ltb, if◌then◌else◌,
}
use test_controller.Base.Int.{ℤ, pos, negsuc, ◌+ℤ◌, ◌-ℤ◌, ◌*ℤ◌, tdiv}
use test_controller.Json.Tree.Text.{code}
use test_controller.Json.Tree.Instance.{tree, tree-IsJson}
use test_controller.Storage.{mock_reset, init, write}
use test_controller.Storage.Entries.{find}
use test_controller.Storage.Interface.{mock_storage, mock_storage-IsMap, IsOpen}
use test_controller.Storage.{Store}
use test_controller.Storage.Invariant.{init-Inv, mock_reset-Inv}
use test_controller.Cal.{
  Floats, Calibration, defaults, set_vdut, get_vdut, set_ina_v, get_ina_v, set_ina_i, get_ina_i,
  set_adc, get_adc, vdut_nch, ina_nch, adc_nch,
}
use test_controller.Cal.Setters.{IsSized, updated, getters-setters}
use test_controller.Cal.Clock.{Clock, epoch_of, utc_epoch, add_months, year_days, is_expired}
use test_controller.Cal.Calendar.{stamp_at, seconds_to, is_expired-exact}
use test_controller.Cal.Json.{
  channels_node, each_channel, vdut_node, ina_node, adc_node, cal_to_json,
}
use test_controller.Cal.Copies.{IsStorable}
use test_controller.Cal.Profile.{Files}
use test_controller.Cal.Stored.{Cal, load, save, stamped}
use test_controller.Cal.Persistence.{IsFiniteCal, load-save}

abbrev whole : Floats
whole = record { Float = ℤ; one = pos 1; of_int = λ n. n; mul = λ a b. a *ℤ b; to_int = λ n. n }

-- 2026-03-18 12:00:00 UTC, for the stamp of 2026-01-02 03:04:05.
abbrev noon : Clock
noon = record {
  now = pos 1773835200;
  utc_stamp = λ t. codes "2026-03-18T12:00:00Z";
  utc_date = λ t. codes "2026-09-14";
  scan_stamp = λ text. some (stamp_at 56 0 1 3 4 5);
  mktime = λ y m d. pos 1773792000;
}

-- date -u -d "2026-01-02 03:04:05" +%s
new_year : utc_epoch (stamp_at 56 0 1 3 4 5) ≡ some (pos 1767323045)
unfolding epoch_of utc_epoch add_months year_days ◌-ℤ◌ ◌+ℤ◌ ◌*ℤ◌ tdiv
new_year = refl

-- A stamp of 2040 overflows.
too_late : utc_epoch (stamp_at 70 0 0 0 0 0) ≡ none
unfolding epoch_of utc_epoch add_months year_days ◌-ℤ◌ ◌+ℤ◌ ◌*ℤ◌ tdiv
too_late = refl

is_expired-exact_example :
    is_expired noon (codes "2026-01-02T03:04:05Z") (pos 180)
    ≡ some (if ltb (seconds_to 56 0 1 3 4 5 + 180 * 86400) 1773835200 then pos 1 else pos 0)
unfolding seconds_to
is_expired-exact_example =
    is_expired-exact noon (codes "2026-01-02T03:04:05Z") 1773835200 56 0 1 3 4 5 180 refl
      (omega arith) (λ e. cc) refl (omega arith) (omega arith)

abbrev board : Calibration ℤ
board = set_vdut (pos 0) (negsuc 86) (pos 11200) (defaults whole)

board-IsSized : IsSized board
unfolding set_vdut defaults
board-IsSized = record {
  slopes = refl;
  intercepts = refl;
  v_gains = refl;
  v_offsets = refl;
  i_gains = refl;
  i_offsets = refl;
  adc_gains = refl;
  adc_offsets = refl;
}

board-IsStorable : IsStorable (record board { cal_timestamp = codes "2026-03-18T12:00:00Z" })
unfolding set_vdut defaults
board-IsStorable = record {
  sized = record {
    slopes = refl;
    intercepts = refl;
    v_gains = refl;
    v_offsets = refl;
    i_gains = refl;
    i_offsets = refl;
    adc_gains = refl;
    adc_offsets = refl;
  };
  slopes = omega arith;
  intercepts = omega arith;
  v_offsets = omega arith;
  i_offsets = omega arith;
  adc_offsets = omega arith;
  stamp = omega arith;
}

abbrev kept : Calibration ℤ
kept = record board { cal_timestamp = codes "2026-03-18T12:00:00Z" }

board-IsFinite : IsFiniteCal (λ x. Unit {0}) kept
unfolding set_vdut defaults
board-IsFinite = record {
  v_gains = (tt, (tt, tt));
  i_gains = (tt, (tt, tt));
  adc_gains = (tt, (tt, (tt, (tt, (tt, (tt, (tt, (tt, tt))))))));
}

abbrev flash : Store
flash = (init mock_reset).0

flash-IsOpen : IsOpen flash
unfolding init mock_reset
flash-IsOpen = record { kept = init-Inv mock_reset mock_reset-Inv; apart = tt; on = refl }

abbrev disk : Files
disk = record { firmware_version = codes "1.0"; has_memory = true; opens = true }

abbrev in_ram : Cal ℤ
in_ram = record { s_cal = board; s_loaded = true; profile = none }

abbrev empty_ram : Cal ℤ
empty_ram = record { s_cal = defaults whole; s_loaded = false; profile = none }

saved_ok : (save whole tree mock_storage noon disk true flash in_ram).2 ≡ pos 0
unfolding save write init code cal_to_json channels_node each_channel vdut_node ina_node adc_node
    find
saved_ok = refl

load-save_example :
    let saved = save whole tree mock_storage noon disk true flash in_ram in
    let loaded = load whole tree mock_storage noon disk true saved.1 empty_ram in
    (loaded.1 ≡ pos 0) × (loaded.0.s_cal ≡ saved.0.s_cal) × (loaded.0.s_loaded ≡ true)
unfolding stamped tree-IsJson mock_storage-IsMap
load-save_example =
    load-save whole tree mock_storage tree-IsJson mock_storage-IsMap tt noon noon disk disk true
      flash in_ram empty_ram flash-IsOpen board-IsStorable board-IsFinite saved_ok

getters-setters_example :
    (get_vdut (set_vdut (pos 0) (negsuc 86) (pos 11200) board) (pos 0)
      ≡ updated vdut_nch (pos 0) (pos 0) (negsuc 86, pos 11200) (get_vdut board (pos 0)))
    × (get_ina_v whole (set_ina_v whole (pos 0) (pos 2) (pos 7) board) (pos 0)
        ≡ updated ina_nch (pos 0) (pos 0) (pos 2, pos 7) (get_ina_v whole board (pos 0)))
    × (get_ina_i whole (set_ina_i whole (pos 0) (pos 2) (pos 7) board) (pos 0)
        ≡ updated ina_nch (pos 0) (pos 0) (pos 2, pos 7) (get_ina_i whole board (pos 0)))
    × (get_adc whole (set_adc whole (pos 0) (pos 2) (pos 7) board) (pos 0)
        ≡ updated adc_nch (pos 0) (pos 0) (pos 2, pos 7) (get_adc whole board (pos 0)))
getters-setters_example =
    getters-setters whole board board-IsSized (pos 0) (pos 0) (pos 2) (pos 7) (negsuc 86)
      (pos 11200)
