-- ===== src/Cal/Persistence.antt =====
-- src/tc_cal.c: a calibration that was saved is loaded again, whatever store keeps it.
use test_controller.Base.{
  ℕ, zero, suc, ◌<◌, ◌≡◌, refl, ap, ◌∙◌, Bool, true, false, some, List, [], ◌∷◌, CString, str_eq,
  length, get_or, arith, Bool-cases, Option-cases, inl, inr, All,
}
use test_controller.Base.Int.{ℤ, pos}
use test_controller.Json.{JsonApi, IsJson, IsInt32, IsWord, c_string}
use test_controller.Storage.Entries.{calibration, domain_eq}
use test_controller.Storage.Interface.{
  KeyValue, IsMap, not_positive, is_ok, is_ok→eq, size_of-some, get-some, positive,
}
use test_controller.Cal.{Floats, Calibration, vdut_nch, ina_nch, adc_nch}
use test_controller.Cal.Clock.{Clock}
use test_controller.Cal.Json.{
  each_channel, channel_key, vdut_node, ina_node, adc_node, channels_node, cal_to_json,
}
use test_controller.Cal.Copies.{IsStorable, get_or-IsInt32}
use test_controller.Cal.RoundTrip.{json_to_cal-cal_to_json}
use test_controller.Cal.Profile.{Files}
use test_controller.Cal.Stored.{Cal, key, load, load_text, save, store_text, stamped, snapshot}

-- The gains are finite numbers.
pub record IsFiniteCal {F : Type 0} (IsFinite : F → Type 0) (c : Calibration F) : Type 0 where
  pub v_gains : All IsFinite c.ina_v_gain
  pub i_gains : All IsFinite c.ina_i_gain
  pub adc_gains : All IsFinite c.adc_gain

get_or-All :
    {A : Type 0} (P : A → Type 0) (xs : List A) (i : ℕ) (d : A) → P d → All P xs → P (get_or xs i d)
get_or-All P [] i d p h = p
get_or-All P (x ∷ xs) zero d p h = h.0
get_or-All P (x ∷ xs) (suc i) d p h = get_or-All P xs i d p h.1

IsWord-IsInt32 : (n : ℤ) → IsInt32 n → IsWord n
IsWord-IsInt32 n h = (h.0, omega arith)

module _ (fl : Floats) (js : JsonApi fl.Float) (ok : IsJson js) (one : ok.IsFinite fl.one) where
  open js use {Json}

  each_channel-IsPrintable :
      (node : ℕ → Json) (n ch : ℕ) (o : Json)
      → ((i : ℕ) → ok.IsPrintable (node i))
      → ok.IsPrintable o
      → ok.IsPrintable (each_channel (λ i b. js.add_item b (channel_key i) (node i)) n ch o)
  unfolding each_channel
  each_channel-IsPrintable node zero ch o h p = p
  each_channel-IsPrintable node (suc n) ch o h p =
      each_channel-IsPrintable node n (suc ch) (js.add_item o (channel_key ch) (node ch)) h
        (ok.add_item-IsPrintable o (channel_key ch) (node ch) p (h ch))

  module _ (c : Calibration fl.Float) (st : IsStorable c) (fin : IsFiniteCal ok.IsFinite c) where
    int_printable :
        (xs : List ℤ) (i : ℕ) → All IsInt32 xs → ok.IsPrintable (js.of_int (get_or xs i (pos 0)))
    int_printable xs i h =
        ok.of_int-IsPrintable (get_or xs i (pos 0))
          (IsWord-IsInt32 (get_or xs i (pos 0)) (get_or-IsInt32 xs i h))

    float_printable :
        (xs : List fl.Float) (i : ℕ)
        → All ok.IsFinite xs
        → ok.IsPrintable (js.of_float (get_or xs i fl.one))
    float_printable xs i h =
        ok.of_float-IsPrintable (get_or xs i fl.one) (get_or-All ok.IsFinite xs i fl.one one h)

    cal_to_json-IsPrintable : ok.IsPrintable (cal_to_json fl js c)
    unfolding cal_to_json channels_node vdut_node ina_node adc_node
    cal_to_json-IsPrintable =
        let add = ok.add_item-IsPrintable in
        let e = ok.empty_object-IsPrintable in
        let vdut =
          each_channel-IsPrintable (vdut_node fl js c) vdut_nch 0 js.empty_object
            (λ i.
              add _ _ _ (add _ _ _ e (int_printable c.vdut_slope_mv_per_pct i st.slopes))
                (int_printable c.vdut_intercept_mv i st.intercepts))
            e in
        let ina =
          each_channel-IsPrintable (ina_node fl js c) ina_nch 0 js.empty_object
            (λ i.
              add _ _ _
                (add _ _ _
                  (add _ _ _ (add _ _ _ e (float_printable c.ina_v_gain i fin.v_gains))
                    (int_printable c.ina_v_offset_mv i st.v_offsets))
                  (float_printable c.ina_i_gain i fin.i_gains))
                (int_printable c.ina_i_offset_ma i st.i_offsets))
            e in
        let adc =
          each_channel-IsPrintable (adc_node fl js c) adc_nch 0 js.empty_object
            (λ i.
              add _ _ _ (add _ _ _ e (float_printable c.adc_gain i fin.adc_gains))
                (int_printable c.adc_offset_mv i st.adc_offsets))
            e in
        add _ _ _ (add _ _ _ (add _ _ _ (add _ _ _ e vdut) ina) adc)
          (ok.of_string-IsPrintable c.cal_timestamp)

module _ (fl : Floats) (js : JsonApi fl.Float) (kv : KeyValue) where
  -- What a successful save has done.
  save-ok :
      (k : Clock) (files : Files) (mem : Bool) (s : kv.State) (c : Cal fl.Float)
      → (save fl js kv k files mem s c).2 ≡ pos 0
      → (json : CString) × (js.print (cal_to_json fl js (stamped fl js kv k c.s_cal)) ≡ some json)
        × ((kv.put s calibration key json).1 ≡ pos 0)
        × ((save fl js kv k files mem s c).0.s_cal ≡ stamped fl js kv k c.s_cal)
        × ((save fl js kv k files mem s c).1 ≡ (kv.put s calibration key json).0)
  unfolding save store_text snapshot
  save-ok k files mem s c h =
      let c' : Calibration fl.Float = stamped fl js kv k c.s_cal in
      elim (Bool-cases c.s_loaded) [
        | inr off ↦ absurd (ground (arith, off))
        | inl on ↦ elim (Bool-cases mem) [
          | inr full ↦ absurd (ground (arith, on, full))
          | inl room ↦ elim (Option-cases (js.print (cal_to_json fl js c'))) [
            | inl none' ↦ absurd (ground (arith, on, room, none'))
            | inr (json, some') ↦ elim (Bool-cases (is_ok (kv.put s calibration key json).1)) [
              | inl done ↦ (
                json,
                some',
                is_ok→eq (kv.put s calibration key json).1 done,
                ground (arith, on, room, some', done),
                ground (arith, on, room, some', done),
              )
              | inr bad ↦ absurd (ground (arith, on, room, some', bad))
            ]
          ]
        ]
      ]

  load-text :
      (m : IsMap kv) (k : Clock) (files : Files) (s : kv.State) (c : Cal fl.Float) (json : CString)
      → m.IsReady s
      → m.entry s calibration key ≡ some json
      → 0 < length json
      → load fl js kv k files true s c ≡ load_text fl js kv k files json c
  unfolding load
  load-text m k files s c json ready e some_text =
      let n : ℕ = length json in
      let size : kv.size_of s calibration key ≡ pos n =
        size_of-some kv m s calibration key json ready e in
      let got : kv.get s calibration key n ≡ (pos n, json) =
        get-some kv m s calibration key json ready e in
      let some_bytes : not_positive (pos n) ≡ false = positive n some_text in
      rw (size, load) (rw (some_bytes, got) (rw some_bytes refl))

  -- What is loaded is what was saved, if the save returned 0, the store is ready and there is memory for the
  -- load; if the arrays have their sizes and the timestamp its terminator, each offset, slope and
  -- intercept is an int, and each gain is a finite number: for any store that keeps a map, with the
  -- clock, the files and the state in RAM of the time of the load.
  pub load-save :
      (ok : IsJson js) (m : IsMap kv) (one : ok.IsFinite fl.one) (k k' : Clock)
      (files files' : Files) (mem : Bool) (s : kv.State) (c c' : Cal fl.Float)
      → m.IsReady s
      → IsStorable (stamped fl js kv k c.s_cal)
      → IsFiniteCal ok.IsFinite (stamped fl js kv k c.s_cal)
      → (save fl js kv k files mem s c).2 ≡ pos 0
      → let saved = save fl js kv k files mem s c in
        let loaded = load fl js kv k' files' true saved.1 c' in
        (loaded.1 ≡ pos 0) × (loaded.0.s_cal ≡ saved.0.s_cal) × (loaded.0.s_loaded ≡ true)
  unfolding load_text snapshot domain_eq str_eq
  load-save ok m one k k' files files' mem s c c' ready st fin done =
      let (json, printed, put, cal, store) = save-ok k files mem s c done in
      let short : length key < 64 = omega arith in
      let stored = stamped fl js kv k c.s_cal in
      let kept : m.entry (kv.put s calibration key json).0 calibration key ≡ some json =
        m.entry-put s calibration key json calibration key short ready put in
      let parsed : js.parse (c_string json) ≡ some (cal_to_json fl js stored) =
        ap js.parse (ok.c_string-print (cal_to_json fl js stored) json printed)
        ∙ ok.parse-print (cal_to_json fl js stored) json
            (cal_to_json-IsPrintable fl js ok one stored st fin) printed in
      let text =
        load-text m k' files' (kv.put s calibration key json).0 c' json
          (m.put-IsReady s calibration key json short ready) kept
          (ok.print-nonempty (cal_to_json fl js stored) json printed) in
      rw (store, cal, text)
        (rw (parsed, load_text) (refl, json_to_cal-cal_to_json fl js ok stored st, refl))
