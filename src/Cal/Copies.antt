-- ===== src/Cal/Copies.antt =====
-- src/tc_cal.c: one round of a loop of json_to_cal copies the channel that cal_to_json wrote.
use test_controller.Base.{
  ℕ, zero, suc, ◌≤◌, ◌<◌, ◌≡◌, refl, some, List, [], ◌∷◌, CString, codes, str_eq, length, set,
  get_or, arith, All,
}
use test_controller.Base.Int.{ℤ, pos}
use test_controller.Json.{JsonApi, IsJson, IsInt32}
use test_controller.Cal.{Floats, Calibration}
use test_controller.Cal.Setters.{IsSized}
use test_controller.Cal.Channels.{each_channel-ext, copy_from, finds_channel}
use test_controller.Cal.Json.{
  each_channel, channel_key, vdut_node, ina_node, adc_node, channels_node, int_or, float_or,
  set_vdut_from, set_ina_from, set_adc_from, read_channel, with_item,
}

-- The numbers are those of an `int`, the arrays have their sizes, the text has its terminator.
pub record IsStorable {F : Type 0} (c : Calibration F) : Type 0 where
  pub sized : IsSized c
  pub slopes : All IsInt32 c.vdut_slope_mv_per_pct
  pub intercepts : All IsInt32 c.vdut_intercept_mv
  pub v_offsets : All IsInt32 c.ina_v_offset_mv
  pub i_offsets : All IsInt32 c.ina_i_offset_ma
  pub adc_offsets : All IsInt32 c.adc_offset_mv
  pub stamp : length c.cal_timestamp < 32

pub get_or-IsInt32 : (xs : List ℤ) (i : ℕ) → All IsInt32 xs → IsInt32 (get_or xs i (pos 0))
get_or-IsInt32 [] i h = (omega arith, omega arith)
get_or-IsInt32 (x ∷ xs) zero h = h.0
get_or-IsInt32 (x ∷ xs) (suc i) h = get_or-IsInt32 xs i h.1

module _ (fl : Floats) (js : JsonApi fl.Float) (ok : IsJson js) where
  open js use {Json}

  int_or-found :
      (node : Json) (k : CString) (n old : ℤ)
      → js.item node k ≡ some (js.of_int n)
      → IsInt32 n
      → int_or fl js node k old ≡ n
  unfolding int_or
  int_or-found node k n old e h = rw (e, int_or) (rw (ok.of_int-is_number n) (ok.as_int-of_int n h))

  float_or-found :
      (node : Json) (k : CString) (x old : fl.Float)
      → js.item node k ≡ some (js.of_float x)
      → float_or fl js node k old ≡ x
  unfolding float_or
  float_or-found node k x old e =
      rw (e, float_or) (rw (ok.of_float-is_number x) (ok.as_float-of_float x))

  pub with_item-found :
      (root : Json) (k : CString) (o : Json)
      (reads : Json → Calibration fl.Float → Calibration fl.Float) (c : Calibration fl.Float)
      → js.item root k ≡ some o
      → with_item fl js root k reads c ≡ reads o c
  unfolding with_item
  with_item-found root k o reads c e = rw (e, with_item) refl

  module _ (src : Calibration fl.Float) (st : IsStorable src) where
    -- One round copies one channel.
    pub copy_vdut : ℕ → Calibration fl.Float → Calibration fl.Float
    copy_vdut ch c = record c {
      vdut_slope_mv_per_pct =
          set c.vdut_slope_mv_per_pct ch (get_or src.vdut_slope_mv_per_pct ch (pos 0));
      vdut_intercept_mv = set c.vdut_intercept_mv ch (get_or src.vdut_intercept_mv ch (pos 0));
    }

    pub copy_ina : ℕ → Calibration fl.Float → Calibration fl.Float
    copy_ina ch c = record c {
      ina_v_gain = set c.ina_v_gain ch (get_or src.ina_v_gain ch fl.one);
      ina_v_offset_mv = set c.ina_v_offset_mv ch (get_or src.ina_v_offset_mv ch (pos 0));
      ina_i_gain = set c.ina_i_gain ch (get_or src.ina_i_gain ch fl.one);
      ina_i_offset_ma = set c.ina_i_offset_ma ch (get_or src.ina_i_offset_ma ch (pos 0));
    }

    pub copy_adc : ℕ → Calibration fl.Float → Calibration fl.Float
    copy_adc ch c = record c {
      adc_gain = set c.adc_gain ch (get_or src.adc_gain ch fl.one);
      adc_offset_mv = set c.adc_offset_mv ch (get_or src.adc_offset_mv ch (pos 0));
    }

    pub set_vdut-node :
        (ch : ℕ) (c : Calibration fl.Float)
        → set_vdut_from fl js (vdut_node fl js src ch) ch c ≡ copy_vdut ch c
    unfolding set_vdut_from vdut_node copy_vdut str_eq
    set_vdut-node ch c =
        let node = vdut_node fl js src ch in
        rw
          (
            int_or-found node (codes "slope_mv_per_pct")
                (get_or src.vdut_slope_mv_per_pct ch (pos 0))
                (get_or c.vdut_slope_mv_per_pct ch (pos 0))
                (simp (ok.item-add_item, ok.item-empty_object))
                (get_or-IsInt32 src.vdut_slope_mv_per_pct ch st.slopes),
            int_or-found node (codes "intercept_mv") (get_or src.vdut_intercept_mv ch (pos 0))
                (get_or c.vdut_intercept_mv ch (pos 0))
                (simp (ok.item-add_item, ok.item-empty_object))
                (get_or-IsInt32 src.vdut_intercept_mv ch st.intercepts),
          )
          refl

    pub set_ina-node :
        (ch : ℕ) (c : Calibration fl.Float)
        → set_ina_from fl js (ina_node fl js src ch) ch c ≡ copy_ina ch c
    unfolding set_ina_from ina_node copy_ina str_eq
    set_ina-node ch c =
        let node = ina_node fl js src ch in
        rw
          (
            float_or-found node (codes "v_gain") (get_or src.ina_v_gain ch fl.one)
                (get_or c.ina_v_gain ch fl.one) (simp (ok.item-add_item, ok.item-empty_object)),
            int_or-found node (codes "v_offset_mv") (get_or src.ina_v_offset_mv ch (pos 0))
                (get_or c.ina_v_offset_mv ch (pos 0))
                (simp (ok.item-add_item, ok.item-empty_object))
                (get_or-IsInt32 src.ina_v_offset_mv ch st.v_offsets),
            float_or-found node (codes "i_gain") (get_or src.ina_i_gain ch fl.one)
                (get_or c.ina_i_gain ch fl.one) (simp (ok.item-add_item, ok.item-empty_object)),
            int_or-found node (codes "i_offset_ma") (get_or src.ina_i_offset_ma ch (pos 0))
                (get_or c.ina_i_offset_ma ch (pos 0))
                (simp (ok.item-add_item, ok.item-empty_object))
                (get_or-IsInt32 src.ina_i_offset_ma ch st.i_offsets),
          )
          refl

    pub set_adc-node :
        (ch : ℕ) (c : Calibration fl.Float)
        → set_adc_from fl js (adc_node fl js src ch) ch c ≡ copy_adc ch c
    unfolding set_adc_from adc_node copy_adc str_eq
    set_adc-node ch c =
        let node = adc_node fl js src ch in
        rw
          (
            float_or-found node (codes "gain") (get_or src.adc_gain ch fl.one)
                (get_or c.adc_gain ch fl.one) (simp (ok.item-add_item, ok.item-empty_object)),
            int_or-found node (codes "offset_mv") (get_or src.adc_offset_mv ch (pos 0))
                (get_or c.adc_offset_mv ch (pos 0)) (simp (ok.item-add_item, ok.item-empty_object))
                (get_or-IsInt32 src.adc_offset_mv ch st.adc_offsets),
          )
          refl

    -- A loop over the channels of an object that cal_to_json made.
    pub loop-copies :
        (node : ℕ → Json) (set_from : Json → ℕ → Calibration fl.Float → Calibration fl.Float)
        (copy : ℕ → Calibration fl.Float → Calibration fl.Float) (n : ℕ) (c : Calibration fl.Float)
        → n ≤ 10
        → ((ch : ℕ) (b : Calibration fl.Float) → set_from (node ch) ch b ≡ copy ch b)
        → each_channel (read_channel fl js set_from (channels_node fl js node n)) n 0 c
          ≡ each_channel copy n 0 c
    unfolding read_channel channels_node
    loop-copies node set_from copy n c small h =
        each_channel-ext (read_channel fl js set_from (channels_node fl js node n)) copy n 0 c
          (λ i b l.
            let found : js.item (channels_node fl js node n) (channel_key i) ≡ some (node i) =
              finds_channel js ok node n 0 i js.empty_object (omega arith) (omega arith) l
                (ok.item-empty_object (channel_key i)) in
            rw (found, read_channel) (h i b))

    pub copies_vdut :
        (n ch : ℕ) (c : Calibration fl.Float)
        → each_channel copy_vdut n ch c ≡ record c {
          vdut_slope_mv_per_pct =
              copy_from (pos 0) src.vdut_slope_mv_per_pct n ch c.vdut_slope_mv_per_pct;
          vdut_intercept_mv = copy_from (pos 0) src.vdut_intercept_mv n ch c.vdut_intercept_mv;
        }
    unfolding each_channel copy_vdut copy_from
    copies_vdut zero ch c = refl
    copies_vdut (suc n) ch c = copies_vdut n (suc ch) (copy_vdut ch c)

    pub copies_ina :
        (n ch : ℕ) (c : Calibration fl.Float)
        → each_channel copy_ina n ch c ≡ record c {
          ina_v_gain = copy_from fl.one src.ina_v_gain n ch c.ina_v_gain;
          ina_v_offset_mv = copy_from (pos 0) src.ina_v_offset_mv n ch c.ina_v_offset_mv;
          ina_i_gain = copy_from fl.one src.ina_i_gain n ch c.ina_i_gain;
          ina_i_offset_ma = copy_from (pos 0) src.ina_i_offset_ma n ch c.ina_i_offset_ma;
        }
    unfolding each_channel copy_ina copy_from
    copies_ina zero ch c = refl
    copies_ina (suc n) ch c = copies_ina n (suc ch) (copy_ina ch c)

    pub copies_adc :
        (n ch : ℕ) (c : Calibration fl.Float)
        → each_channel copy_adc n ch c ≡ record c {
          adc_gain = copy_from fl.one src.adc_gain n ch c.adc_gain;
          adc_offset_mv = copy_from (pos 0) src.adc_offset_mv n ch c.adc_offset_mv;
        }
    unfolding each_channel copy_adc copy_from
    copies_adc zero ch c = refl
    copies_adc (suc n) ch c = copies_adc n (suc ch) (copy_adc ch c)
