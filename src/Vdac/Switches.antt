-- ===== src/Vdac/Switches.antt =====
-- What the duty of src/cmd_vdac.c leaves alone.
use test_controller.Base.{
  ℕ, ◌≡◌, refl, Bool, true, false, not, if◌then◌else◌, if_either, inl, inr, Bool-cases, ltb, ◌&&◌,
}
use test_controller.Base.Int.{ℤ, pos, negsuc}
use test_controller.Cal.{Calibration, duty_for_mv}
use test_controller.Vdac.{
  Vdac, Conditions, Channel, index_of, set_duty, ledc_init, drive_duty, set_voltage, is_guarded,
}

-- A voltage changes neither what is switched on nor what the program takes for switched on.
module _ (ch : Channel) where
  abbrev pub Same : Vdac → Vdac × Bool → Type 0
  Same s r = (r.0.level ch ≡ s.level ch) × (r.0.enabled ch ≡ s.enabled ch)

  Same-drive_duty :
      (k : Conditions) (ch' : Channel) (percent : ℕ) (s t : Vdac)
      → Same s (t, true)
      → Same s (drive_duty k ch' percent t)
  unfolding drive_duty
  Same-drive_duty k ch' percent s t h =
      if_either (Same s) (not (t.ch_configured ch')) (if_either (Same s) (k.channel_config ch') h h)
        (if_either (Same s) (not (k.set_duty_ok ch')) h
          (if_either (Same s) (k.update_duty ch') h h))

  Same-set_duty :
      (k : Conditions) (ch' : Channel) (percent : ℕ) (s : Vdac) → Same s (set_duty k ch' percent s)
  unfolding set_duty ledc_init
  Same-set_duty k ch' percent s =
      if_either (Same s) (ltb percent 75 && is_guarded k) (refl, refl)
        (if_either (Same s) s.timer_ready (Same-drive_duty k ch' percent s s (refl, refl))
          (elim (Bool-cases k.timer_config) [
            | inl up ↦
                rw (up, ledc_init)
                  (Same-drive_duty k ch' percent s (record s { timer_ready = true }) (refl, refl))
            | inr down ↦ rw (down, ledc_init) (refl, refl)
          ]))

  pub Same-set_voltage :
      {F : Type 0} (c : Calibration F) (k : Conditions) (ch' : Channel) (voltage_mv : ℤ) (s : Vdac)
      → Same s (set_voltage c k ch' voltage_mv s)
  unfolding set_voltage
  Same-set_voltage c k ch' voltage_mv s = by_duty (duty_for_mv c (pos (index_of ch')) voltage_mv)
    where
      by_duty :
          (d : ℤ)
          → Same s (elim d [
            | negsuc n ↦ (s, false)
            | pos duty ↦ set_duty k ch' (if ltb 100 duty then 100 else duty) s
          ])
      by_duty (negsuc n) = (refl, refl)
      by_duty (pos duty) = Same-set_duty k ch' (if ltb 100 duty then 100 else duty) s
