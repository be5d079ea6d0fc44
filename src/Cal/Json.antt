-- ===== src/Cal/Json.antt =====
-- src/tc_cal.c: cal_to_json and json_to_cal.
use test_controller.Base.{
  ℕ, zero, suc, ◌+◌, Option, none, some, [], ◌∷◌, ◌++◌, CString, codes, truncated, set, get_or,
  if◌then◌else◌,
}
use test_controller.Base.Int.{ℤ, pos}
use test_controller.Json.{JsonApi}
use test_controller.Cal.{Floats, Calibration, vdut_nch, ina_nch, adc_nch, defaults}

-- The loops over the channels, from `ch` on, `n` of them.
unfoldable pub each_channel {ℓ} : {A : Type ℓ} → (ℕ → A → A) → ℕ → ℕ → A → A
each_channel f zero ch a = a
each_channel f (suc n) ch a = each_channel f n (suc ch) (f ch a)

-- snprintf(key, sizeof(key), "ch%d", ch), for a channel below ten.
abbrev pub channel_key : ℕ → CString
channel_key ch = codes "ch" ++ (48 + ch) ∷ []

abbrev pub timestamp_of : Option CString → CString → CString
timestamp_of none old = old
timestamp_of (some text) old = truncated 32 text

module _ (fl : Floats) (js : JsonApi fl.Float) where
  open fl use {Float}
  open js use {Json}

  unfoldable pub vdut_node : Calibration Float → ℕ → Json
  vdut_node c ch =
      js.add_item
        (js.add_item js.empty_object (codes "slope_mv_per_pct")
          (js.of_int (get_or c.vdut_slope_mv_per_pct ch (pos 0))))
        (codes "intercept_mv") (js.of_int (get_or c.vdut_intercept_mv ch (pos 0)))

  unfoldable pub ina_node : Calibration Float → ℕ → Json
  ina_node c ch =
      js.add_item
        (js.add_item
          (js.add_item
            (js.add_item js.empty_object (codes "v_gain")
              (js.of_float (get_or c.ina_v_gain ch fl.one)))
            (codes "v_offset_mv") (js.of_int (get_or c.ina_v_offset_mv ch (pos 0))))
          (codes "i_gain") (js.of_float (get_or c.ina_i_gain ch fl.one)))
        (codes "i_offset_ma") (js.of_int (get_or c.ina_i_offset_ma ch (pos 0)))

  unfoldable pub adc_node : Calibration Float → ℕ → Json
  adc_node c ch =
      js.add_item
        (js.add_item js.empty_object (codes "gain") (js.of_float (get_or c.adc_gain ch fl.one)))
        (codes "offset_mv") (js.of_int (get_or c.adc_offset_mv ch (pos 0)))

  -- One loop of cal_to_json.
  unfoldable pub channels_node : (ℕ → Json) → ℕ → Json
  channels_node node n =
      each_channel (λ ch o. js.add_item o (channel_key ch) (node ch)) n 0 js.empty_object

  unfoldable pub cal_to_json : Calibration Float → Json
  cal_to_json c =
      js.add_item
        (js.add_item
          (js.add_item
            (js.add_item js.empty_object (codes "vdut") (channels_node (vdut_node c) vdut_nch))
            (codes "ina219") (channels_node (ina_node c) ina_nch))
          (codes "adc128") (channels_node (adc_node c) adc_nch))
        (codes "cal_timestamp") (js.of_string c.cal_timestamp)

  -- `if (f && cJSON_IsNumber(f)) x = (int)f->valuedouble`
  unfoldable pub int_or : Json → CString → ℤ → ℤ
  int_or node key old = elim (js.item node key) [
    | none ↦ old
    | some f ↦ if js.is_number f then js.as_int f else old
  ]

  unfoldable pub float_or : Json → CString → Float → Float
  float_or node key old = elim (js.item node key) [
    | none ↦ old
    | some f ↦ if js.is_number f then js.as_float f else old
  ]

  unfoldable pub set_vdut_from : Json → ℕ → Calibration Float → Calibration Float
  set_vdut_from node ch c = record c {
    vdut_slope_mv_per_pct =
        set c.vdut_slope_mv_per_pct ch
          (int_or node (codes "slope_mv_per_pct") (get_or c.vdut_slope_mv_per_pct ch (pos 0)));
    vdut_intercept_mv =
        set c.vdut_intercept_mv ch
          (int_or node (codes "intercept_mv") (get_or c.vdut_intercept_mv ch (pos 0)));
  }

  unfoldable pub set_ina_from : Json → ℕ → Calibration Float → Calibration Float
  set_ina_from node ch c = record c {
    ina_v_gain =
        set c.ina_v_gain ch (float_or node (codes "v_gain") (get_or c.ina_v_gain ch fl.one));
    ina_v_offset_mv =
        set c.ina_v_offset_mv ch
          (int_or node (codes "v_offset_mv") (get_or c.ina_v_offset_mv ch (pos 0)));
    ina_i_gain =
        set c.ina_i_gain ch (float_or node (codes "i_gain") (get_or c.ina_i_gain ch fl.one));
    ina_i_offset_ma =
        set c.ina_i_offset_ma ch
          (int_or node (codes "i_offset_ma") (get_or c.ina_i_offset_ma ch (pos 0)));
  }

  unfoldable pub set_adc_from : Json → ℕ → Calibration Float → Calibration Float
  set_adc_from node ch c = record c {
    adc_gain = set c.adc_gain ch (float_or node (codes "gain") (get_or c.adc_gain ch fl.one));
    adc_offset_mv =
        set c.adc_offset_mv ch
          (int_or node (codes "offset_mv") (get_or c.adc_offset_mv ch (pos 0)));
  }

  -- One round of a loop: a channel that the object does not have is left as it is.
  unfoldable pub read_channel :
      (Json → ℕ → Calibration Float → Calibration Float)
      → Json
      → ℕ
      → Calibration Float
      → Calibration Float
  read_channel set_from o ch c = elim (js.item o (channel_key ch)) [
    | none ↦ c
    | some node ↦ set_from node ch c
  ]

  -- The old format has one channel, without a sub-object.
  unfoldable pub read_vdut : Json → Calibration Float → Calibration Float
  read_vdut vdut c = elim (js.item vdut (codes "ch0")) [
    | none ↦ set_vdut_from vdut 0 c
    | some node ↦ each_channel (read_channel set_vdut_from vdut) vdut_nch 0 c
  ]

  unfoldable pub with_item :
      Json
      → CString
      → (Json → Calibration Float → Calibration Float)
      → Calibration Float
      → Calibration Float
  with_item root key reads c = elim (js.item root key) [ none ↦ c | some o ↦ reads o c ]

  unfoldable pub read_timestamp : Json → Calibration Float → Calibration Float
  read_timestamp ts c =
      if js.is_string ts
      then record c { cal_timestamp = timestamp_of (js.valuestring ts) c.cal_timestamp }
      else c

  unfoldable pub json_to_cal : Json → Calibration Float
  json_to_cal root = with_item root (codes "cal_timestamp") read_timestamp (
      with_item root (codes "adc128")
        (λ adc. each_channel (read_channel set_adc_from adc) adc_nch 0)
        (with_item root (codes "ina219")
          (λ ina. each_channel (read_channel set_ina_from ina) ina_nch 0)
          (with_item root (codes "vdut") read_vdut (defaults fl))))
