-- ===== src/Vdac/Shutdown.antt =====
-- Which regulators of src/cmd_vdac.c are on when a command ends.
use test_controller.Base.{ℕ, ◌≡◌, refl, Bool, true, false, not, Option, arith, if_either}
use test_controller.Cal.{Calibration}
use test_controller.Vdac.{Vdac, Conditions, Channel, vdut1, vdut2, set_enable, disable}
use test_controller.Vdac.Commands.{do_vdac_off}
use test_controller.Vdac.Characterize.{
  Sweep, CharResult, characterize, do_vdac_char, start_channels, is_present,
}

-- A regulator is off, for the pin and for the program.
abbrev pub IsOff : Vdac → Channel → Type 0
IsOff s ch = (s.level ch ≡ false) × (s.enabled ch ≡ false)

pub IsOff-now :
    (k : Conditions) (ch : Channel) (s : Vdac)
    → k.set_direction ch ≡ true
    → IsOff (set_enable k ch false s).0 ch
unfolding set_enable
IsOff-now k vdut1 s set = rw (set, set_enable) (refl, refl)
IsOff-now k vdut2 s set = rw (set, set_enable) (refl, refl)

IsOff-still :
    (k : Conditions) (ch ch' : Channel) (s : Vdac)
    → IsOff s ch'
    → IsOff (set_enable k ch false s).0 ch'
unfolding set_enable
IsOff-still k vdut1 vdut1 s off =
    if_either (λ (r : Vdac × Bool). IsOff r.0 vdut1) (k.set_direction vdut1) (refl, refl) off
IsOff-still k vdut1 vdut2 s off =
    if_either (λ (r : Vdac × Bool). IsOff r.0 vdut2) (k.set_direction vdut1) off off
IsOff-still k vdut2 vdut1 s off =
    if_either (λ (r : Vdac × Bool). IsOff r.0 vdut1) (k.set_direction vdut2) off off
IsOff-still k vdut2 vdut2 s off =
    if_either (λ (r : Vdac × Bool). IsOff r.0 vdut2) (k.set_direction vdut2) (refl, refl) off

both-IsOff :
    (k : Conditions) (s : Vdac) (ch : Channel)
    → k.set_direction ch ≡ true
    → IsOff (set_enable k vdut2 false (set_enable k vdut1 false s).0).0 ch
both-IsOff k s vdut1 set = IsOff-still k vdut2 vdut1 _ (IsOff-now k vdut1 s set)
both-IsOff k s vdut2 set = IsOff-now k vdut2 _ set

-- `vdac off` and vdac_disable switch a regulator off whenever its enable pin can be driven, also where
-- the interlock refuses the duty; and so does `vdac char` when it runs to its end.
pub shutdown :
    {F : Type 0} (k : Conditions) (ch : Channel) (sample : Option ℕ) (first : Conditions)
    (w : Sweep) (c : Calibration F) (s : Vdac)
    → k.set_direction ch ≡ true
    → IsOff (do_vdac_off k s).0 ch
      × IsOff (disable k ch s).0 ch
      × ((do_vdac_char sample first w k c s).status ≡ 0
          → IsOff (do_vdac_char sample first w k c s).vdac ch)
unfolding do_vdac_off disable do_vdac_char characterize
shutdown {F = F} k ch sample first w c s set = (
  both-IsOff k _ ch set,
  IsOff-now k ch _ set,
  (let P : CharResult F → Type 0 = λ r. r.status ≡ 0 → IsOff r.vdac ch in
      if_either P (is_present sample) (λ (e : 1 ≡ 0). absurd (omega arith))
        (if_either P (not (start_channels first s).1) (λ (e : 1 ≡ 0). absurd (omega arith))
          (λ e. both-IsOff k _ ch set))),
)
