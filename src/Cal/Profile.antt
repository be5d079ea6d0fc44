-- ===== src/Cal/Profile.antt =====
-- src/tc_cal.c: tc_cal_write_profile_json, the snapshot of the fixture.
use test_controller.Base.{
  ℕ, ◌+◌, Bool, true, false, not, Option, none, some, [], ◌∷◌, ◌++◌, CString, codes, take, get_or,
  if◌then◌else◌,
}
use test_controller.Base.Int.{pos, ◌+ℤ◌, ◌-ℤ◌, ◌*ℤ◌, ltb_ℤ}
use test_controller.Json.{JsonApi}
use test_controller.Cal.{Floats, Calibration, vdut_nch, ina_nch, is_zero}
use test_controller.Cal.Clock.{Clock}
use test_controller.Cal.Json.{each_channel}

abbrev pub cal_expiry_days : ℕ
cal_expiry_days = 180

-- FW_VERSION_STRING, which the build generates; whether the tree can be made, and the file opened.
pub record Files : Type 0 where
  pub firmware_version : CString
  pub has_memory : Bool
  pub opens : Bool

-- The calibration date and its end, as the stamp gives them.
unfoldable pub expiry_of : Clock → CString → CString
expiry_of k stamp = elim (k.scan_stamp stamp) [
  | none ↦ codes "unknown"
  | some t ↦
      let cal_t = k.mktime t.year (t.month -ℤ pos 1) t.day in
      if ltb_ℤ cal_t (pos 0)
      then codes "unknown"
      else k.utc_date (cal_t +ℤ pos (cal_expiry_days) *ℤ pos 86400)
]

unfoldable pub profile_dates : Clock → CString → CString × CString
unfolding expiry_of
profile_dates k [] = (codes "unknown", codes "unknown")
profile_dates k (c ∷ cs) = (take 10 (c ∷ cs), expiry_of k (c ∷ cs))

module _ (fl : Floats) (js : JsonApi fl.Float) where
  open fl use {Float}
  open js use {Json}

  abbrev string_item : Json → CString → CString → Json
  string_item o k s = js.add_item o k (js.of_string s)

  -- "ina219_ch%d", and the role with the number of the supply, for a channel below nine.
  unfoldable pub ina_instrument : ℕ → Json
  ina_instrument ch =
      string_item
        (string_item
          (js.add_item
            (string_item
              (string_item
                (string_item js.empty_object (codes "id") (codes "ina219_ch" ++ (48 + ch) ∷ []))
                (codes "type") (codes "INA219"))
              (codes "role") (codes "DUT output current (VDUT" ++ (49 + ch) ∷ codes ")"))
            (codes "accuracy_pct") (js.of_thousandths 500))
          (codes "accuracy_source") (codes "datasheet"))
        (codes "cal_register") (codes "0x2000")

  unfoldable pub adc_instrument : Json
  adc_instrument =
      js.add_item
        (string_item
          (js.add_item
            (string_item
              (string_item (string_item js.empty_object (codes "id") (codes "adc128d818"))
                (codes "type") (codes "ADC128D818"))
              (codes "role") (codes "Rail voltages + continuity scan"))
            (codes "accuracy_pct") (js.of_thousandths 450))
          (codes "accuracy_source") (codes "datasheet"))
        (codes "vref_v") (js.of_thousandths 3300)

  unfoldable pub dac_instrument : Calibration Float → ℕ → Json
  dac_instrument c ch =
      let slope = get_or c.vdut_slope_mv_per_pct ch (pos 0) in
      string_item
        (js.add_item
          (js.add_item
            (string_item
              (string_item
                (string_item js.empty_object (codes "id") (codes "pwm_dac_ch" ++ (48 + ch) ∷ []))
                (codes "type") (codes "PWM+RC"))
              (codes "role") (codes "VDUT" ++ (49 + ch) ∷ codes " adjustable voltage stimulus"))
            (codes "slope") (js.of_int slope))
          (codes "intercept") (js.of_int (get_or c.vdut_intercept_mv ch (pos 0))))
        (codes "accuracy_source")
        (if is_zero slope then codes "uncalibrated" else codes "characterized_c5b")

  unfoldable pub instruments : Calibration Float → Json
  unfolding ina_instrument adc_instrument dac_instrument
  instruments c =
      let inas = each_channel (λ ch a. js.append a (ina_instrument ch)) ina_nch 0 js.empty_array in
      each_channel (λ ch a. js.append a (dac_instrument c ch)) vdut_nch 0
        (js.append inas adc_instrument)

  unfoldable pub profile_json : Clock → Files → Calibration Float → Json
  unfolding profile_dates instruments
  profile_json k files c =
      let dates = profile_dates k c.cal_timestamp in
      js.add_item
        (string_item
          (string_item
            (string_item
              (string_item js.empty_object (codes "fixture_type") (codes "G3-MB-Single-Channel"))
              (codes "firmware_version") files.firmware_version)
            (codes "calibration_date") dates.0)
          (codes "calibration_expiry") dates.1)
        (codes "instruments") (instruments c)

  -- The file behind the call: `none` for no file, and its old content where nothing is written.
  unfoldable pub write_profile :
      Clock → Files → Bool → Calibration Float → Option CString → Option CString
  unfolding profile_json
  write_profile k files false c old = old
  write_profile k files true c old =
      if not files.has_memory then old else elim (js.print (profile_json k files c)) [
        | none ↦ old
        | some text ↦ if files.opens then some text else old
      ]
