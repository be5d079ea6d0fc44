-- ===== src/Cal/Apply.antt =====
-- src/tc_cal.c: the corrections that the factory defaults give.
use test_controller.Base.{
  ℕ, zero, suc, ◌+◌, ◌≤◌, ◌^◌, ◌≡◌, ap, ◌∙◌, refl, arith, Option-cases, inl, inr, get_or, replicate,
}
use test_controller.Base.Int.{ℤ, pos, negsuc, ◌+ℤ◌, pos_part, neg_part}
use test_controller.Cal.{
  Floats, channel, ina_nch, adc_nch, vdut_nch, defaults, correct, apply_ina_v, apply_ina_i,
  apply_adc, duty_for_mv,
}

get_or-replicate : {A : Type 0} (n i : ℕ) (a : A) → get_or (replicate n a) i a ≡ a
get_or-replicate zero i a = refl
get_or-replicate (suc n) zero a = refl
get_or-replicate (suc n) (suc i) a = get_or-replicate n i a

+ℤ_zero : (a : ℤ) → a +ℤ pos 0 ≡ a
unfolding ◌+ℤ◌
+ℤ_zero a = ground arith

-- The integers that a float holds exactly.
abbrev pub IsExact : ℤ → Type 0
IsExact raw = pos_part raw + neg_part raw ≤ 2 ^ 24

module _ (fl : Floats) (one_mul : (x : fl.Float) → fl.mul fl.one x ≡ x)
    (exact : (raw : ℤ) → IsExact raw → fl.to_int (fl.of_int raw) ≡ raw) where
  correct-one : (raw : ℤ) → IsExact raw → correct fl fl.one (pos 0) raw ≡ raw
  unfolding correct
  correct-one raw h = +ℤ_zero _ ∙ ap fl.to_int (one_mul (fl.of_int raw)) ∙ exact raw h

  -- With the factory defaults a reading of at most 2^24 passes each correction unchanged, whatever the
  -- channel, and no VDUT channel has a duty.
  pub defaults_passthrough :
      (ch raw target_mv : ℤ)
      → IsExact raw
      → (apply_ina_v fl (defaults fl) ch raw ≡ raw)
        × (apply_ina_i fl (defaults fl) ch raw ≡ raw)
        × (apply_adc fl (defaults fl) ch raw ≡ raw)
        × (duty_for_mv (defaults fl) ch target_mv ≡ negsuc 0)
  unfolding defaults apply_ina_v apply_ina_i apply_adc duty_for_mv
  defaults_passthrough ch raw target_mv h = (
    elim (Option-cases (channel ina_nch ch)) [
      | inl bad ↦ rw (bad, apply_ina_v) refl
      | inr (i, good) ↦
          rw
            (
              good,
              apply_ina_v,
              get_or-replicate ina_nch i fl.one,
              get_or-replicate ina_nch i (pos 0),
            )
            (correct-one raw h)
    ],
    elim (Option-cases (channel ina_nch ch)) [
      | inl bad ↦ rw (bad, apply_ina_i) refl
      | inr (i, good) ↦
          rw
            (
              good,
              apply_ina_i,
              get_or-replicate ina_nch i fl.one,
              get_or-replicate ina_nch i (pos 0),
            )
            (correct-one raw h)
    ],
    elim (Option-cases (channel adc_nch ch)) [
      | inl bad ↦ rw (bad, apply_adc) refl
      | inr (i, good) ↦
          rw
            (good, apply_adc, get_or-replicate adc_nch i fl.one, get_or-replicate adc_nch i (pos 0))
            (correct-one raw h)
    ],
    elim (Option-cases (channel vdut_nch ch)) [
      | inl bad ↦ rw (bad, duty_for_mv) refl
      | inr (i, good) ↦ rw (good, duty_for_mv, get_or-replicate vdut_nch i (pos 0)) refl
    ],
  )
