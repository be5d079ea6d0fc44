-- ===== src/Cal/RoundTrip.antt =====
-- src/tc_cal.c: json_to_cal reads back what cal_to_json wrote.
use test_controller.Base.{
  ◌≡◌, refl, ap, ◌∙◌, none, some, CString, codes, str_eq, truncated_fits, length, arith,
  if◌then◌else◌,
}
use test_controller.Base.Int.{pos}
use test_controller.Json.{JsonApi, IsJson, same_key, or_else}
use test_controller.Cal.{Floats, Calibration, vdut_nch, ina_nch, adc_nch, defaults}
use test_controller.Cal.Channels.{copy_from-all, finds_channel}
use test_controller.Cal.Json.{
  each_channel, vdut_node, ina_node, adc_node, channels_node, cal_to_json, set_vdut_from,
  set_ina_from, set_adc_from, read_channel, read_vdut, with_item, read_timestamp, json_to_cal,
}
use test_controller.Cal.Copies.{
  IsStorable, with_item-found, copy_vdut, copy_ina, copy_adc, set_vdut-node, set_ina-node,
  set_adc-node, loop-copies, copies_vdut, copies_ina, copies_adc,
}

module _ (fl : Floats) (js : JsonApi fl.Float) (ok : IsJson js) where
  open js use {Json}

  module _ (src : Calibration fl.Float) (st : IsStorable src) where
    read_vdut-written :
        (c : Calibration fl.Float)
        → length c.vdut_slope_mv_per_pct ≡ 2
        → length c.vdut_intercept_mv ≡ 2
        → read_vdut fl js (channels_node fl js (vdut_node fl js src) vdut_nch) c ≡ record c {
          vdut_slope_mv_per_pct = src.vdut_slope_mv_per_pct;
          vdut_intercept_mv = src.vdut_intercept_mv;
        }
    unfolding read_vdut channels_node
    read_vdut-written c h g =
        let first : js.item (channels_node fl js (vdut_node fl js src) vdut_nch) (codes "ch0")
            ≡ some (vdut_node fl js src 0) =
          finds_channel js ok (vdut_node fl js src) 2 0 0 js.empty_object (omega arith)
            (omega arith) (omega arith) (ok.item-empty_object (codes "ch0")) in
        rw (first, read_vdut)
          (loop-copies fl js ok src st (vdut_node fl js src) (set_vdut_from fl js)
              (copy_vdut fl js ok src st) 2 c (omega arith) (set_vdut-node fl js ok src st)
            ∙ copies_vdut fl js ok src st 2 0 c
            ∙ rw
                (
                  copy_from-all (pos 0) src.vdut_slope_mv_per_pct c.vdut_slope_mv_per_pct 2
                      st.sized.slopes h,
                  copy_from-all (pos 0) src.vdut_intercept_mv c.vdut_intercept_mv 2
                      st.sized.intercepts g,
                )
                refl)

    read_ina-written :
        (c : Calibration fl.Float)
        → length c.ina_v_gain ≡ 2
        → length c.ina_v_offset_mv ≡ 2
        → length c.ina_i_gain ≡ 2
        → length c.ina_i_offset_ma ≡ 2
        → each_channel
            (read_channel fl js
              (set_ina_from fl js)
              (channels_node fl js (ina_node fl js src) ina_nch))
            ina_nch
            0
            c
          ≡ record c {
            ina_v_gain = src.ina_v_gain;
            ina_v_offset_mv = src.ina_v_offset_mv;
            ina_i_gain = src.ina_i_gain;
            ina_i_offset_ma = src.ina_i_offset_ma;
          }
    read_ina-written c h g i j =
        loop-copies fl js ok src st (ina_node fl js src) (set_ina_from fl js)
          (copy_ina fl js ok src st) 2 c (omega arith) (set_ina-node fl js ok src st)
        ∙ copies_ina fl js ok src st 2 0 c
        ∙ rw
            (
              copy_from-all fl.one src.ina_v_gain c.ina_v_gain 2 st.sized.v_gains h,
              copy_from-all (pos 0) src.ina_v_offset_mv c.ina_v_offset_mv 2 st.sized.v_offsets g,
              copy_from-all fl.one src.ina_i_gain c.ina_i_gain 2 st.sized.i_gains i,
              copy_from-all (pos 0) src.ina_i_offset_ma c.ina_i_offset_ma 2 st.sized.i_offsets j,
            )
            refl

    read_adc-written :
        (c : Calibration fl.Float)
        → length c.adc_gain ≡ 8
        → length c.adc_offset_mv ≡ 8
        → each_channel
            (read_channel fl js
              (set_adc_from fl js)
              (channels_node fl js (adc_node fl js src) adc_nch))
            adc_nch
            0
            c
          ≡ record c { adc_gain = src.adc_gain; adc_offset_mv = src.adc_offset_mv }
    read_adc-written c h g =
        loop-copies fl js ok src st (adc_node fl js src) (set_adc_from fl js)
          (copy_adc fl js ok src st) 8 c (omega arith) (set_adc-node fl js ok src st)
        ∙ copies_adc fl js ok src st 8 0 c
        ∙ rw
            (
              copy_from-all fl.one src.adc_gain c.adc_gain 8 st.sized.adc_gains h,
              copy_from-all (pos 0) src.adc_offset_mv c.adc_offset_mv 8 st.sized.adc_offsets g,
            )
            refl

    read_timestamp-written :
        (c : Calibration fl.Float)
        → read_timestamp fl js (js.of_string src.cal_timestamp) c
          ≡ record c { cal_timestamp = src.cal_timestamp }
    unfolding read_timestamp
    read_timestamp-written c =
        rw (ok.of_string-is_string src.cal_timestamp, ok.valuestring-of_string src.cal_timestamp)
          (rw (truncated_fits 32 src.cal_timestamp st.stamp) refl)

    root-item :
        (k : CString) (x : Json)
        → or_else
            (or_else
              (or_else
                (if same_key (codes "vdut") k
                  then some (channels_node fl js (vdut_node fl js src) vdut_nch)
                  else none)
                (if same_key (codes "ina219") k
                  then some (channels_node fl js (ina_node fl js src) ina_nch)
                  else none))
              (if same_key (codes "adc128") k
                then some (channels_node fl js (adc_node fl js src) adc_nch)
                else none))
            (if same_key (codes "cal_timestamp") k
              then some (js.of_string src.cal_timestamp)
              else none)
          ≡ some x
        → js.item (cal_to_json fl js src) k ≡ some x
    unfolding cal_to_json
    root-item k x h = simp (ok.item-add_item, ok.item-empty_object) h

    -- json_to_cal reads back the calibration that cal_to_json wrote, if its numbers are those of an `int`,
    -- its arrays have their sizes and its timestamp has its terminator.
    pub json_to_cal-cal_to_json : json_to_cal fl js (cal_to_json fl js src) ≡ src
    unfolding json_to_cal defaults str_eq
    json_to_cal-cal_to_json =
        let root = cal_to_json fl js src in
        let d = defaults fl in
        let d1 : Calibration fl.Float = record d {
          vdut_slope_mv_per_pct = src.vdut_slope_mv_per_pct;
          vdut_intercept_mv = src.vdut_intercept_mv;
        } in
        let d2 : Calibration fl.Float = record d1 {
          ina_v_gain = src.ina_v_gain;
          ina_v_offset_mv = src.ina_v_offset_mv;
          ina_i_gain = src.ina_i_gain;
          ina_i_offset_ma = src.ina_i_offset_ma;
        } in
        let d3 : Calibration fl.Float = record d2 {
          adc_gain = src.adc_gain;
          adc_offset_mv = src.adc_offset_mv;
        } in
        let vdut = channels_node fl js (vdut_node fl js src) vdut_nch in
        let ina = channels_node fl js (ina_node fl js src) ina_nch in
        let adc = channels_node fl js (adc_node fl js src) adc_nch in
        let reads_ina : Json → Calibration fl.Float → Calibration fl.Float =
          λ o. each_channel (read_channel fl js (set_ina_from fl js) o) ina_nch 0 in
        let reads_adc : Json → Calibration fl.Float → Calibration fl.Float =
          λ o. each_channel (read_channel fl js (set_adc_from fl js) o) adc_nch 0 in
        let e1 : with_item fl js root (codes "vdut") (read_vdut fl js) d ≡ d1 =
          with_item-found fl js ok root (codes "vdut") vdut (read_vdut fl js) d
            (root-item (codes "vdut") vdut refl)
          ∙ read_vdut-written d refl refl in
        let e2 : with_item fl js root (codes "ina219") reads_ina d1 ≡ d2 =
          with_item-found fl js ok root (codes "ina219") ina reads_ina d1
            (root-item (codes "ina219") ina refl)
          ∙ read_ina-written d1 refl refl refl refl in
        let e3 : with_item fl js root (codes "adc128") reads_adc d2 ≡ d3 =
          with_item-found fl js ok root (codes "adc128") adc reads_adc d2
            (root-item (codes "adc128") adc refl)
          ∙ read_adc-written d2 refl refl in
        let e4 : with_item fl js root (codes "cal_timestamp") (read_timestamp fl js) d3 ≡ src =
          with_item-found fl js ok root (codes "cal_timestamp") (js.of_string src.cal_timestamp)
            (read_timestamp fl js) d3
            (root-item (codes "cal_timestamp") (js.of_string src.cal_timestamp) refl)
          ∙ read_timestamp-written d3 in
        ap (with_item fl js root (codes "cal_timestamp") (read_timestamp fl js)) (
          ap (with_item fl js root (codes "adc128") reads_adc)
            (ap (with_item fl js root (codes "ina219") reads_ina) e1 ∙ e2)
          ∙ e3)
        ∙ e4
