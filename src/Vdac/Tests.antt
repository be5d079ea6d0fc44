-- ===== src/Vdac/Tests.antt =====
-- Runs of src/cmd_vdac.c.
use test_controller.Base.{
  str_eq, ℕ, zero, suc, ◌≡◌, refl, true, false, none, some, List, [], ◌∷◌, CString, codes,
}
use test_controller.Base.Int.{pos, negsuc, tdiv, ◌-ℤ◌, ◌*ℤ◌}
use test_controller.Base.Atoi.{atoi}
use test_controller.Cal.{Calibration, set_vdut}
use test_controller.Vdac.{
  Vdac, Conditions, vdut2, initial_vdac, set_duty, set_enable, disable, ledc_init, drive_duty,
}
use test_controller.Vdac.Commands.{
  do_vdac_duty, do_vdac_off, duty_command, drive_channels, drive_channel, switch_on, selects,
}
use test_controller.Vdac.Characterize.{
  Sweep, do_vdac_char, characterize, sweep_steps, note_anchors, fit_channel, start_channels,
}
use test_controller.Vdac.Interlock.{Safe}
use test_controller.Vdac.Sessions.{
  Command, duty, voltage, off, char, IsGuarded, perform_all, interlock,
}
use test_controller.Vdac.Shutdown.{IsOff, shutdown}

-- The drivers accept everything.
abbrev seated : Conditions
seated = record {
  timer_config = true;
  channel_config = λ ch. true;
  set_duty_ok = λ ch. true;
  update_duty = λ ch. true;
  set_direction = λ ch. true;
  ready = true;
  present = true;
}

abbrev empty : Conditions
empty = record seated { present = false }

abbrev plain : Calibration ℕ
plain = record {
  vdut_slope_mv_per_pct = pos 0 ∷ (pos 0 ∷ []);
  vdut_intercept_mv = pos 0 ∷ (pos 0 ∷ []);
  ina_v_gain = [];
  ina_v_offset_mv = [];
  ina_i_gain = [];
  ina_i_offset_ma = [];
  adc_gain = [];
  adc_offset_mv = [];
  cal_timestamp = [];
}

abbrev board : Calibration ℕ
board = set_vdut (pos 0) (negsuc 86) (pos 11200) plain

duty_line : CString → List CString
duty_line percent = codes "vdac_duty" ∷ (codes "both" ∷ (percent ∷ []))

abbrev steady : Sweep
steady = record {
  at = λ percent. empty;
  vbus = λ percent ch. elim percent [
    | zero ↦ some (pos 11200)
    | suc n ↦ some (pos 11200 -ℤ pos 87 *ℤ pos (suc n))
  ];
}

low_duty_refused : (do_vdac_duty seated (duty_line (codes "74")) initial_vdac).1 ≡ 1
unfolding do_vdac_duty duty_line duty_command atoi initial_vdac
low_duty_refused = refl

high_duty_accepted : (do_vdac_duty seated (duty_line (codes "80")) initial_vdac).0.duty vdut2 ≡ 3276
unfolding do_vdac_duty duty_line duty_command drive_channels drive_channel switch_on selects
    set_duty ledc_init drive_duty set_enable atoi str_eq initial_vdac
high_duty_accepted = refl

fitted :
    (do_vdac_char
      (some 3000)
      empty
      steady
      empty
      plain
      initial_vdac).calibration.vdut_slope_mv_per_pct
    ≡ negsuc 86 ∷ (negsuc 86 ∷ [])
unfolding do_vdac_char characterize sweep_steps note_anchors fit_channel start_channels set_duty
    ledc_init drive_duty set_enable set_vdut initial_vdac tdiv ◌-ℤ◌ ◌*ℤ◌
fitted = refl

abbrev session : List (Command ℕ)
session =
    duty seated (duty_line (codes "80"))
    ∷ (voltage seated (codes "vdac_voltage" ∷ (codes "1" ∷ (codes "3300" ∷ [])))
        ∷ (char none seated steady seated ∷ (off seated ∷ [])))

interlock_example : Safe (perform_all session (board, initial_vdac)).1
unfolding IsGuarded
interlock_example = interlock session board (refl, (refl, (refl, (refl, tt))))

shutdown_example :
    IsOff (do_vdac_off seated initial_vdac).0 vdut2
    × IsOff (disable seated vdut2 initial_vdac).0 vdut2
    × ((do_vdac_char none empty steady seated board initial_vdac).status ≡ 0
        → IsOff (do_vdac_char none empty steady seated board initial_vdac).vdac vdut2)
shutdown_example = shutdown seated vdut2 none empty steady board initial_vdac refl

abbrev running : Vdac
running = record initial_vdac { timer_ready = true; ch_configured = λ ch. true }
