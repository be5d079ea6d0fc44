-- ===== src/Cal.antt =====
-- src/tc_cal.c: the calibration in RAM, its setters and getters, and the corrections that it gives.
pub mod Duty
pub mod Setters
pub mod Apply
pub mod Json
pub mod Clock
pub mod Calendar
pub mod Channels
pub mod Copies
pub mod RoundTrip
pub mod Stored
pub mod Persistence
pub mod Commands
pub mod Profile
mod Tests
mod StoredTests
use test_controller.Base.{
  ℕ, zero, suc, Bool, true, false, Option, none, some, List, [], ◌∷◌, CString, set, get_or,
  replicate, ltb, if◌then◌else◌,
}
use test_controller.Base.Int.{ℤ, pos, negsuc, ◌+ℤ◌, ◌-ℤ◌, tdiv, ltb_ℤ}

abbrev pub vdut_nch : ℕ
vdut_nch = 2

abbrev pub ina_nch : ℕ
ina_nch = 2

abbrev pub adc_nch : ℕ
adc_nch = 8

-- The operations of `float` that the corrections use; `to_int` is the cast, which cuts the fraction.
pub record Floats : Type 1 where
  pub Float : Type 0
  pub one : Float
  pub of_int : ℤ → Float
  pub mul : Float → Float → Float
  pub to_int : Float → ℤ

-- cal_data_t; each list has the channels of its array.
pub record Calibration (F : Type 0) : Type 0 where
  pub vdut_slope_mv_per_pct : List ℤ
  pub vdut_intercept_mv : List ℤ
  pub ina_v_gain : List F
  pub ina_v_offset_mv : List ℤ
  pub ina_i_gain : List F
  pub ina_i_offset_ma : List ℤ
  pub adc_gain : List F
  pub adc_offset_mv : List ℤ
  pub cal_timestamp : CString

-- `ch < 0 || ch >= n` refuses a channel.
abbrev pub channel : ℕ → ℤ → Option ℕ
channel n (negsuc i) = none
channel n (pos i) = if ltb i n then some i else none

unfoldable pub get_vdut : {F : Type 0} → Calibration F → ℤ → Option (ℤ × ℤ)
get_vdut c ch = elim (channel vdut_nch ch) [
  | none ↦ none
  | some i ↦ some (get_or c.vdut_slope_mv_per_pct i (pos 0), get_or c.vdut_intercept_mv i (pos 0))
]

unfoldable pub set_vdut : {F : Type 0} → ℤ → ℤ → ℤ → Calibration F → Calibration F
set_vdut ch slope intercept c = elim (channel vdut_nch ch) [
  | none ↦ c
  | some i ↦ record c {
    vdut_slope_mv_per_pct = set c.vdut_slope_mv_per_pct i slope;
    vdut_intercept_mv = set c.vdut_intercept_mv i intercept;
  }
]

abbrev pub is_zero : ℤ → Bool
is_zero (pos zero) = true
is_zero (pos (suc n)) = false
is_zero (negsuc n) = false

-- The two clamps, one behind the other.
pub clamp_duty : ℤ → ℤ
clamp_duty d =
    let raised = if ltb_ℤ d (pos 1) then pos 1 else d in
    if ltb_ℤ (pos 99) raised then pos 99 else raised

unfoldable pub duty_for_mv : {F : Type 0} → Calibration F → ℤ → ℤ → ℤ
unfolding clamp_duty
duty_for_mv c ch target_mv = elim (channel vdut_nch ch) [
  | none ↦ negsuc 0
  | some i ↦
      let slope = get_or c.vdut_slope_mv_per_pct i (pos 0) in
      if is_zero slope
      then negsuc 0
      else clamp_duty (tdiv (target_mv -ℤ get_or c.vdut_intercept_mv i (pos 0)) slope)
]

module _ (fl : Floats) where
  open fl use {Float}

  unfoldable pub defaults : Calibration Float
  defaults = record {
    vdut_slope_mv_per_pct = replicate vdut_nch (pos 0);
    vdut_intercept_mv = replicate vdut_nch (pos 0);
    ina_v_gain = replicate ina_nch fl.one;
    ina_v_offset_mv = replicate ina_nch (pos 0);
    ina_i_gain = replicate ina_nch fl.one;
    ina_i_offset_ma = replicate ina_nch (pos 0);
    adc_gain = replicate adc_nch fl.one;
    adc_offset_mv = replicate adc_nch (pos 0);
    cal_timestamp = [];
  }

  unfoldable pub get_ina_v : Calibration Float → ℤ → Option (Float × ℤ)
  get_ina_v c ch = elim (channel ina_nch ch) [
    | none ↦ none
    | some i ↦ some (get_or c.ina_v_gain i fl.one, get_or c.ina_v_offset_mv i (pos 0))
  ]

  unfoldable pub set_ina_v : ℤ → Float → ℤ → Calibration Float → Calibration Float
  set_ina_v ch gain offset c = elim (channel ina_nch ch) [
    | none ↦ c
    | some i ↦ record c {
      ina_v_gain = set c.ina_v_gain i gain;
      ina_v_offset_mv = set c.ina_v_offset_mv i offset;
    }
  ]

  unfoldable pub get_ina_i : Calibration Float → ℤ → Option (Float × ℤ)
  get_ina_i c ch = elim (channel ina_nch ch) [
    | none ↦ none
    | some i ↦ some (get_or c.ina_i_gain i fl.one, get_or c.ina_i_offset_ma i (pos 0))
  ]

  unfoldable pub set_ina_i : ℤ → Float → ℤ → Calibration Float → Calibration Float
  set_ina_i ch gain offset c = elim (channel ina_nch ch) [
    | none ↦ c
    | some i ↦ record c {
      ina_i_gain = set c.ina_i_gain i gain;
      ina_i_offset_ma = set c.ina_i_offset_ma i offset;
    }
  ]

  unfoldable pub get_adc : Calibration Float → ℤ → Option (Float × ℤ)
  get_adc c ch = elim (channel adc_nch ch) [
    | none ↦ none
    | some i ↦ some (get_or c.adc_gain i fl.one, get_or c.adc_offset_mv i (pos 0))
  ]

  unfoldable pub set_adc : ℤ → Float → ℤ → Calibration Float → Calibration Float
  set_adc ch gain offset c = elim (channel adc_nch ch) [
    | none ↦ c
    | some i ↦ record c {
      adc_gain = set c.adc_gain i gain;
      adc_offset_mv = set c.adc_offset_mv i offset;
    }
  ]

  -- (int)(gain * (float)raw) + offset
  pub correct : Float → ℤ → ℤ → ℤ
  correct gain offset raw = fl.to_int (fl.mul gain (fl.of_int raw)) +ℤ offset

  unfoldable pub apply_ina_v : Calibration Float → ℤ → ℤ → ℤ
  unfolding correct
  apply_ina_v c ch raw = elim (channel ina_nch ch) [
    | none ↦ raw
    | some i ↦ correct (get_or c.ina_v_gain i fl.one) (get_or c.ina_v_offset_mv i (pos 0)) raw
  ]

  unfoldable pub apply_ina_i : Calibration Float → ℤ → ℤ → ℤ
  unfolding correct
  apply_ina_i c ch raw = elim (channel ina_nch ch) [
    | none ↦ raw
    | some i ↦ correct (get_or c.ina_i_gain i fl.one) (get_or c.ina_i_offset_ma i (pos 0)) raw
  ]

  unfoldable pub apply_adc : Calibration Float → ℤ → ℤ → ℤ
  unfolding correct
  apply_adc c ch raw = elim (channel adc_nch ch) [
    | none ↦ raw
    | some i ↦ correct (get_or c.adc_gain i fl.one) (get_or c.adc_offset_mv i (pos 0)) raw
  ]
