-- ===== src/Cal/Tests.antt =====
-- Runs of src/tc_cal.c at concrete calibrations, with integers for the floats.
use test_controller.Base.{ℕ, ◌≡◌, refl, arith}
use test_controller.Base.Int.{ℤ, pos, negsuc, ◌+ℤ◌, ◌*ℤ◌, ◌≤ℤ◌, ◌-ℤ◌, tdiv}
use test_controller.Cal.{Floats, Calibration, defaults, set_vdut, duty_for_mv}
use test_controller.Cal.Duty.{duty_for_mv-predicted}
use test_controller.Cal.Setters.{IsSized}

abbrev whole : Floats
whole = record { Float = ℤ; one = pos 1; of_int = λ n. n; mul = λ a b. a *ℤ b; to_int = λ n. n }

whole_one_mul : (x : ℤ) → pos 1 *ℤ x ≡ x
unfolding ◌*ℤ◌
whole_one_mul x = ground arith

abbrev board : Calibration ℤ
board = set_vdut (pos 0) (negsuc 86) (pos 11200) (defaults whole)

board_duty : duty_for_mv board (pos 0) (pos 3300) ≡ pos 90
unfolding duty_for_mv set_vdut defaults tdiv ◌-ℤ◌
board_duty = refl

board_duty_low : duty_for_mv board (pos 0) (pos 99999) ≡ pos 1
unfolding duty_for_mv set_vdut defaults tdiv ◌-ℤ◌
board_duty_low = refl

other_duty : duty_for_mv board (pos 1) (pos 3300) ≡ negsuc 0
unfolding duty_for_mv set_vdut defaults
other_duty = refl

duty_for_mv-predicted_example :
    (d : ℕ) × (duty_for_mv board (pos 0) (pos 3300) ≡ pos d)
    × (pos 3300 ≤ℤ pos 11200 +ℤ negsuc 86 *ℤ pos d)
    × (pos 11200 +ℤ negsuc 86 *ℤ pos d ≤ℤ pos 3386)
unfolding set_vdut defaults
duty_for_mv-predicted_example =
    duty_for_mv-predicted board (pos 0) 0 86 11200 3300 refl refl refl (omega arith) (omega arith)

board-IsSized : IsSized board
unfolding set_vdut defaults
board-IsSized = record {
  slopes = refl;
  intercepts = refl;
  v_gains = refl;
  v_offsets = refl;
  i_gains = refl;
  i_offsets = refl;
  adc_gains = refl;
  adc_offsets = refl;
}
