-- ===== src/Cal/Setters.antt =====
-- src/tc_cal.c: what a getter gives behind a setter.
use Prim.Native.Nat.compare
use test_controller.Base.{
  ℕ, zero, suc, ◌≡◌, ◌<◌, refl, Bool, false, Option, none, some, List, [], ◌∷◌, arith, length, set,
  get_or, Bool-cases, Option-cases, inl, inr, ◌==◌, ltb, if◌then◌else◌,
}
use test_controller.Base.Int.{ℤ, pos, negsuc}
use test_controller.Cal.{
  Floats, Calibration, channel, vdut_nch, ina_nch, adc_nch, get_vdut, set_vdut, get_ina_v,
  set_ina_v, get_ina_i, set_ina_i, get_adc, set_adc,
}

-- The arrays have their sizes.
pub record IsSized {F : Type 0} (c : Calibration F) : Type 0 where
  pub slopes : length c.vdut_slope_mv_per_pct ≡ vdut_nch
  pub intercepts : length c.vdut_intercept_mv ≡ vdut_nch
  pub v_gains : length c.ina_v_gain ≡ ina_nch
  pub v_offsets : length c.ina_v_offset_mv ≡ ina_nch
  pub i_gains : length c.ina_i_gain ≡ ina_nch
  pub i_offsets : length c.ina_i_offset_ma ≡ ina_nch
  pub adc_gains : length c.adc_gain ≡ adc_nch
  pub adc_offsets : length c.adc_offset_mv ≡ adc_nch

-- Two channel numbers that name the same channel.
pub same_channel : ℤ → ℤ → Bool
same_channel (pos i) (pos j) = i == j
same_channel (pos i) (negsuc j) = false
same_channel (negsuc i) (pos j) = false
same_channel (negsuc i) (negsuc j) = i == j

pub get_or-set :
    {A : Type 0} (xs : List A) (i j : ℕ) (v d : A)
    → i < length xs
    → get_or (set xs i v) j d ≡ (if i == j then v else get_or xs j d)
get_or-set [] i j v d h = absurd (omega arith)
get_or-set (x ∷ xs) zero zero v d h = refl
get_or-set (x ∷ xs) zero (suc j) v d h = ground arith
get_or-set (x ∷ xs) (suc i) zero v d h = ground arith
get_or-set (x ∷ xs) (suc i) (suc j) v d h =
    rw (compare.suc-suc i j, if◌then◌else◌) (get_or-set xs i j v d (omega arith))

-- What a getter gives behind a setter of its arrays.
abbrev pub updated : {A : Type 0} → ℕ → ℤ → ℤ → A → Option A → Option A
updated n ch (negsuc j) new old = none
updated n ch (pos j) new old =
    if ltb j n then (if same_channel ch (pos j) then some new else old) else none

pub channel_index : (n k i : ℕ) → channel n (pos k) ≡ some i → (k ≡ i) × (k < n)
channel_index n k i h = ground arith

-- One channel of a pair of arrays: a setter, and the getter behind it.
module _ {A B : Type 0} (n : ℕ) (a : A) (b : B) where
  abbrev get_pair : List A → List B → ℤ → Option (A × B)
  get_pair xs ys ch = elim (channel n ch) [
    | none ↦ none
    | some i ↦ some (get_or xs i a, get_or ys i b)
  ]

  get_pair-set :
      (ch ch' : ℤ) (i : ℕ) (x : A) (y : B) (xs : List A) (ys : List B)
      → length xs ≡ n
      → length ys ≡ n
      → channel n ch ≡ some i
      → get_pair (set xs i x) (set ys i y) ch' ≡ updated n ch ch' (x, y) (get_pair xs ys ch')
  unfolding same_channel
  get_pair-set (negsuc k) ch' i x y xs ys h g e = absurd (cc)
  get_pair-set (pos k) (negsuc l) i x y xs ys h g e = refl
  get_pair-set (pos k) (pos l) i x y xs ys h g e =
      let index = channel_index n k i e in
      rw (← index.0) (elim (Bool-cases (ltb l n)) [
        | inl fits ↦
            rw (fits, get_pair, updated)
              (rw (get_or-set xs k l x a (omega arith), get_or-set ys k l y b (omega arith))
                (elim (Bool-cases (k == l)) [ inl eq ↦ rw eq refl | inr ne ↦ rw ne refl ]))
        | inr beyond ↦ rw (beyond, get_pair, updated) refl
      ])

  get_pair-refused :
      (ch ch' : ℤ) (new : A × B) (xs : List A) (ys : List B)
      → channel n ch ≡ none
      → get_pair xs ys ch' ≡ updated n ch ch' new (get_pair xs ys ch')
  unfolding same_channel
  get_pair-refused ch (negsuc l) new xs ys e = refl
  get_pair-refused (negsuc k) (pos l) new xs ys e = ground arith
  get_pair-refused (pos k) (pos l) new xs ys e = ground arith

module _ {F : Type 0} (c : Calibration F) (ok : IsSized c) (ch ch' : ℤ) where
  get_vdut-set_vdut :
      (slope intercept : ℤ)
      → get_vdut (set_vdut ch slope intercept c) ch'
        ≡ updated vdut_nch ch ch' (slope, intercept) (get_vdut c ch')
  unfolding get_vdut set_vdut
  get_vdut-set_vdut slope intercept = elim (Option-cases (channel vdut_nch ch)) [
    | inl bad ↦
        rw (bad, set_vdut)
          (get_pair-refused vdut_nch (pos 0) (pos 0) ch ch' (slope, intercept)
            c.vdut_slope_mv_per_pct c.vdut_intercept_mv bad)
    | inr (i, good) ↦
        rw (good, set_vdut)
          (get_pair-set vdut_nch (pos 0) (pos 0) ch ch' i slope intercept c.vdut_slope_mv_per_pct
            c.vdut_intercept_mv ok.slopes ok.intercepts good)
  ]

module _ (fl : Floats) (c : Calibration fl.Float) (ok : IsSized c) (ch ch' : ℤ) (gain : fl.Float)
    (offset : ℤ) where
  get_ina_v-set_ina_v :
      get_ina_v fl (set_ina_v fl ch gain offset c) ch'
      ≡ updated ina_nch ch ch' (gain, offset) (get_ina_v fl c ch')
  unfolding get_ina_v set_ina_v
  get_ina_v-set_ina_v = elim (Option-cases (channel ina_nch ch)) [
    | inl bad ↦
        rw (bad, set_ina_v)
          (get_pair-refused ina_nch fl.one (pos 0) ch ch' (gain, offset) c.ina_v_gain
            c.ina_v_offset_mv bad)
    | inr (i, good) ↦
        rw (good, set_ina_v)
          (get_pair-set ina_nch fl.one (pos 0) ch ch' i gain offset c.ina_v_gain c.ina_v_offset_mv
            ok.v_gains ok.v_offsets good)
  ]

  get_ina_i-set_ina_i :
      get_ina_i fl (set_ina_i fl ch gain offset c) ch'
      ≡ updated ina_nch ch ch' (gain, offset) (get_ina_i fl c ch')
  unfolding get_ina_i set_ina_i
  get_ina_i-set_ina_i = elim (Option-cases (channel ina_nch ch)) [
    | inl bad ↦
        rw (bad, set_ina_i)
          (get_pair-refused ina_nch fl.one (pos 0) ch ch' (gain, offset) c.ina_i_gain
            c.ina_i_offset_ma bad)
    | inr (i, good) ↦
        rw (good, set_ina_i)
          (get_pair-set ina_nch fl.one (pos 0) ch ch' i gain offset c.ina_i_gain c.ina_i_offset_ma
            ok.i_gains ok.i_offsets good)
  ]

  get_adc-set_adc :
      get_adc fl (set_adc fl ch gain offset c) ch'
      ≡ updated adc_nch ch ch' (gain, offset) (get_adc fl c ch')
  unfolding get_adc set_adc
  get_adc-set_adc = elim (Option-cases (channel adc_nch ch)) [
    | inl bad ↦
        rw (bad, set_adc)
          (get_pair-refused adc_nch fl.one (pos 0) ch ch' (gain, offset) c.adc_gain c.adc_offset_mv
            bad)
    | inr (i, good) ↦
        rw (good, set_adc)
          (get_pair-set adc_nch fl.one (pos 0) ch ch' i gain offset c.adc_gain c.adc_offset_mv
            ok.adc_gains ok.adc_offsets good)
  ]

  -- Behind each of the four setters its own getter gives the new pair at that channel, if the channel
  -- exists, and the old one at the others.
  pub getters-setters :
      (slope intercept : ℤ)
      → (get_vdut (set_vdut ch slope intercept c) ch'
          ≡ updated vdut_nch ch ch' (slope, intercept) (get_vdut c ch'))
        × (get_ina_v fl (set_ina_v fl ch gain offset c) ch'
            ≡ updated ina_nch ch ch' (gain, offset) (get_ina_v fl c ch'))
        × (get_ina_i fl (set_ina_i fl ch gain offset c) ch'
            ≡ updated ina_nch ch ch' (gain, offset) (get_ina_i fl c ch'))
        × (get_adc fl (set_adc fl ch gain offset c) ch'
            ≡ updated adc_nch ch ch' (gain, offset) (get_adc fl c ch'))
  getters-setters slope intercept = (
    get_vdut-set_vdut c ok ch ch' slope intercept,
    get_ina_v-set_ina_v,
    get_ina_i-set_ina_i,
    get_adc-set_adc,
  )
