-- ===== src/Vdac/Characterize.antt =====
-- src/cmd_vdac.c: vdac char, which sweeps the duty of both channels, reads the voltages, and fits the
-- calibration of each channel.
use test_controller.Base.{
  ℕ, zero, suc, ◌+◌, Bool, true, false, not, ◌&&◌, Option, none, some, ltb, ◌==◌, if◌then◌else◌,
}
use test_controller.Base.Int.{ℤ, pos, ◌-ℤ◌, ◌*ℤ◌, tdiv, ltb_ℤ}
use test_controller.Cal.{Calibration, set_vdut}
use test_controller.Vdac.{Vdac, Conditions, Channel, vdut1, vdut2, index_of, set_duty, set_enable}

abbrev pub threshold_mv : ℕ
threshold_mv = 2000

-- cal_v50 and cal_v90, `none` for -1.
pub record Anchors : Type 0 where
  pub v50 : Channel → Option ℤ
  pub v90 : Channel → Option ℤ

abbrev pub no_anchors : Anchors
no_anchors = record { v50 = λ ch. none; v90 = λ ch. none }

-- A reading above 0 is kept.
abbrev keep : Option ℤ → Option ℤ → Option ℤ
keep none old = old
keep (some v) old = if ltb_ℤ (pos 0) v then some v else old

abbrev keep_both : (Channel → Option ℤ) → (Channel → Option ℤ) → Channel → Option ℤ
keep_both readings old ch = keep (readings ch) (old ch)

unfoldable pub note_anchors : ℕ → (Channel → Option ℤ) → Anchors → Anchors
note_anchors percent readings a =
    if percent == 50
    then record a { v50 = keep_both readings a.v50 }
    else if percent == 90
    then record a { v90 = keep_both readings a.v90 }
    else a

-- What the steps of the sweep find: the conditions, and the voltage that the INA219 of a channel reads.
pub record Sweep : Type 0 where
  pub at : ℕ → Conditions
  pub vbus : ℕ → Channel → Option ℤ

-- for (pct = 0; pct <= 100; pct += 5), with `left` steps to come.
unfoldable pub sweep_steps : Sweep → ℕ → ℕ → Vdac × Anchors → Vdac × Anchors
unfolding set_duty note_anchors
sweep_steps w percent zero r = r
sweep_steps w percent (suc left) (s, a) =
    let k = w.at percent in
    let s' = (set_duty k vdut2 percent (set_duty k vdut1 percent s).0).0 in
    sweep_steps w (percent + 5) left (s', note_anchors percent (w.vbus percent) a)

abbrev pub sweep_count : ℕ
sweep_count = 21

-- The fit of one channel: slope and intercept.
abbrev pub fit : ℤ → ℤ → ℤ × ℤ
fit v50 v90 = let slope = tdiv (v90 -ℤ v50) (pos 40) in (slope, v50 -ℤ slope *ℤ pos 50)

abbrev equal : ℤ → ℤ → Bool
equal a b = not (ltb_ℤ a b) && not (ltb_ℤ b a)

-- The new calibration, and whether a channel was fitted (then tc_cal_save is called once).
unfoldable pub fit_channel :
    {F : Type 0} → Anchors → Channel → Calibration F × Bool → Calibration F × Bool
unfolding set_vdut
fit_channel a ch (c, saved) = elim (a.v50 ch) [
  | none ↦ (c, saved)
  | some v50 ↦ elim (a.v90 ch) [
    | none ↦ (c, saved)
    | some v90 ↦
        if equal v50 v90
        then (c, saved)
        else (set_vdut (pos (index_of ch)) (fit v50 v90).0 (fit v50 v90).1 c, true)
  ]
]

-- What the command leaves: the regulators, the calibration, whether it is saved, and the exit status.
pub record CharResult (F : Type 0) : Type 0 where
  pub vdac : Vdac
  pub calibration : Calibration F
  pub saved : Bool
  pub status : ℕ

abbrev refused : {F : Type 0} → Calibration F → Vdac → CharResult F
refused c s = record { vdac = s; calibration = c; saved = false; status = 1 }

-- The sweep and the fit, behind the checks; `last` are the conditions of the clean-up.
unfoldable pub characterize :
    {F : Type 0} → Sweep → Conditions → Calibration F → Vdac → CharResult F
unfolding sweep_steps set_duty set_enable fit_channel
characterize w last c s =
    let (swept, a) = sweep_steps w 0 sweep_count (s, no_anchors) in
    let idle = (set_duty last vdut2 0 (set_duty last vdut1 0 swept).0).0 in
    let off = (set_enable last vdut2 false (set_enable last vdut1 false idle).0).0 in
    let fitted = fit_channel a vdut2 (fit_channel a vdut1 (c, false)) in
    record { vdac = off; calibration = fitted.0; saved = fitted.1; status = 0 }

abbrev pub is_present : Option ℕ → Bool
is_present none = false
is_present (some mv) = ltb mv threshold_mv

-- Both channels at 0 %, then both regulators on; the first refusal ends it.
unfoldable pub start_channels : Conditions → Vdac → Vdac × Bool
unfolding set_duty set_enable
start_channels k s =
    let (s1, ok1) = set_duty k vdut1 0 s in
    if not ok1
    then (s1, false)
    else let (s2, ok2) = set_duty k vdut2 0 s1 in
      if not ok2
      then (s2, false)
      else let (s3, ok3) = set_enable k vdut1 true s2 in
        if not ok3 then (s3, false) else set_enable k vdut2 true s3

-- do_vdac_char; `sample` is what dut_detect_sample gives, `none` for a failed one.
unfoldable pub do_vdac_char :
    {F : Type 0} → Option ℕ → Conditions → Sweep → Conditions → Calibration F → Vdac → CharResult F
unfolding start_channels characterize
do_vdac_char sample k w last c s =
    if is_present sample
    then refused c s
    else let (started, accepted) = start_channels k s in
      if not accepted then refused c started else characterize w last c started
