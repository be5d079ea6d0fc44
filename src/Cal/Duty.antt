-- ===== src/Cal/Duty.antt =====
-- src/tc_cal.c: the duty that tc_cal_vdut_duty_for_mv chooses for a voltage.
use test_controller.Base.{
  ℕ, zero, suc, ◌+◌, ◌*◌, ◌/◌, ◌%◌, ◌-◌, ◌≤◌, ◌<◌, ◌≡◌, ◌⊎◌, inl, inr, refl, none, some, arith,
  false, get_or, Option-cases, dec_lt, ap,
}
use native.Mathlib.Omega.{div_fact, mod_fact}
use test_controller.Base.Int.{
  ℤ, pos, negsuc, ◌-ℤ◌, ◌+ℤ◌, ◌*ℤ◌, ◌≤ℤ◌, tdiv, pos_part, neg_part, +ℤ_parts, eq_of_parts,
}
use test_controller.Cal.{Calibration, channel, vdut_nch, duty_for_mv, clamp_duty, is_zero}

clamp_duty_range : (d : ℤ) → (pos 1 ≤ℤ clamp_duty d) × (clamp_duty d ≤ℤ pos 99)
unfolding clamp_duty
clamp_duty_range d = ground arith

zero_or_not : (z : ℤ) → (z ≡ pos 0) ⊎ (is_zero z ≡ false)
zero_or_not (pos zero) = inl refl
zero_or_not (pos (suc n)) = inr refl
zero_or_not (negsuc n) = inr refl

-- The duty is -1 exactly where the channel does not exist or its slope is 0, and in 1 to 99 else.
pub duty_for_mv-range :
    {F : Type 0} (c : Calibration F) (ch target_mv : ℤ)
    → (((channel vdut_nch ch ≡ none)
          ⊎ ((i : ℕ) × (channel vdut_nch ch ≡ some i)
              × (get_or c.vdut_slope_mv_per_pct i (pos 0) ≡ pos 0)))
        × (duty_for_mv c ch target_mv ≡ negsuc 0))
      ⊎ ((pos 1 ≤ℤ duty_for_mv c ch target_mv) × (duty_for_mv c ch target_mv ≤ℤ pos 99))
unfolding duty_for_mv
duty_for_mv-range c ch target_mv = elim (Option-cases (channel vdut_nch ch)) [
  | inl bad ↦ inl (inl bad, rw (bad, duty_for_mv) refl)
  | inr (i, good) ↦ elim (zero_or_not (get_or c.vdut_slope_mv_per_pct i (pos 0))) [
    | inl zeroed ↦ inl (inr (i, good, zeroed), rw (good, zeroed, duty_for_mv) refl)
    | inr sloped ↦ inr (
        rw (good, sloped, duty_for_mv)
          (clamp_duty_range (
            tdiv (target_mv -ℤ get_or c.vdut_intercept_mv i (pos 0))
              (get_or c.vdut_slope_mv_per_pct i (pos 0)))))
  ]
]

quotient_range :
    (n q r a : ℕ) → suc n * q + r ≡ a → r ≤ n → suc n ≤ a → a < suc n * 100 → (1 ≤ q) × (q ≤ 99)
quotient_range n zero r a e h low high = absurd (omega arith)
quotient_range n (suc q) r a e h low high = (
  omega arith,
  elim (dec_lt 98 q) [
    | yes more ↦ absurd (too_big n q (q - 99) r a e (omega arith) high)
    | no less ↦ omega arith
  ],
)
  where
    too_big : (n q k r a : ℕ) → suc n * suc q + r ≡ a → q ≡ 99 + k → a < suc n * 100 → ⊥
    too_big n q k r a e split high = omega (arith, e, high, ap (λ x. suc n * suc x) split)

clamp_inside : (q : ℕ) → 1 ≤ q → q ≤ 99 → clamp_duty (pos q) ≡ pos q
unfolding clamp_duty
clamp_inside q low high = ground arith

tdiv_down :
    (target intercept n : ℕ)
    → target < intercept
    → tdiv (pos target -ℤ pos intercept) (negsuc n) ≡ pos ((intercept - target) / suc n)
unfolding tdiv ◌-ℤ◌
tdiv_down target intercept n h = ground arith

product_parts : (n q : ℕ) → pos_part (negsuc n *ℤ pos q) + suc n * q ≡ neg_part (negsuc n *ℤ pos q)
unfolding ◌*ℤ◌
product_parts n q = ground arith

-- What the model gives at the duty q, for a remainder r of the division.
model_at :
    (q r n intercept target : ℕ)
    → suc n * q + r ≡ intercept - target
    → target < intercept
    → pos intercept +ℤ negsuc n *ℤ pos q ≡ pos (target + r)
model_at q r n intercept target split h =
    eq_of_parts (pos intercept +ℤ negsuc n *ℤ pos q) (pos (target + r))
      (omega (arith, +ℤ_parts (pos intercept) (negsuc n *ℤ pos q), product_parts n q))

-- Below a negative slope the duty that is not clamped gives, by the linear model, the target or more,
-- and less than one duty step above it.
pub duty_for_mv-predicted :
    {F : Type 0} (c : Calibration F) (ch : ℤ) (i n intercept target : ℕ)
    → channel vdut_nch ch ≡ some i
    → get_or c.vdut_slope_mv_per_pct i (pos 0) ≡ negsuc n
    → get_or c.vdut_intercept_mv i (pos 0) ≡ pos intercept
    → target + suc n ≤ intercept
    → intercept < target + suc n * 100
    → (d : ℕ) × (duty_for_mv c ch (pos target) ≡ pos d)
      × (pos target ≤ℤ pos intercept +ℤ negsuc n *ℤ pos d)
      × (pos intercept +ℤ negsuc n *ℤ pos d ≤ℤ pos (target + n))
unfolding duty_for_mv
duty_for_mv-predicted c ch i n intercept target good slope offset low high =
    let q = (intercept - target) / suc n in
    let r = (intercept - target) % suc n in
    let split = div_fact (intercept - target) n in
    let small = mod_fact (intercept - target) n in
    let inside =
      quotient_range n q r (intercept - target) split (omega arith) (omega arith) (omega arith) in
    let model = model_at q r n intercept target split (omega arith) in
    (
      q,
      rw (good, slope, offset, duty_for_mv, tdiv_down target intercept n (omega arith))
          (clamp_inside q inside.0 inside.1),
      rw model (omega arith),
      rw model (omega arith),
    )
