-- ===== src/PreGate/Tests.antt =====
-- Runs of src/pre_test_gate.c.
use test_controller.Base.{◌≡◌, refl, true, false, some, codes, arith}
use test_controller.Base.Int.{ℤ, pos, negsuc, ◌*ℤ◌, ◌+ℤ◌, ◌-ℤ◌, ◌≤ℤ◌, tdiv}
use test_controller.Cal.{Floats, defaults, set_vdut, apply_ina_i, duty_for_mv}
use test_controller.Vdac.{
  Conditions, vdut1, initial_vdac, set_voltage, set_duty, set_enable, ledc_init, drive_duty,
}
use test_controller.Vdac.Interlock.{Safe}
use test_controller.Vdac.Shutdown.{IsOff}
use test_controller.PreGate.{
  Setting, Bench, pre_gate, check_current, judge, read_current_ma, power_off, let_pass,
}
use test_controller.PreGate.Passing.{Checked}
use test_controller.PreGate.Range.{read_current_ma-bound}
use test_controller.PreGate.Power.{failed-IsOff, passed-Checked}

abbrev whole : Floats
whole = record { Float = ℤ; one = pos 1; of_int = λ n. n; mul = λ a b. a *ℤ b; to_int = λ n. n }

abbrev seated : Conditions
seated = record {
  timer_config = true;
  channel_config = λ ch. true;
  set_duty_ok = λ ch. true;
  update_duty = λ ch. true;
  set_direction = λ ch. true;
  ready = true;
  present = true;
}

-- 40 mA, and an identity.
abbrev good : Setting ℤ
good = record {
  calibration = set_vdut (pos 0) (negsuc 86) (pos 11200) (defaults whole);
  vdut_mv = pos 3300;
  current_min_ma = pos 5;
  current_max_ma = pos 600;
  at_voltage = seated;
  at_enable = seated;
  at_power_off = seated;
  current_bytes = some (15, 160);
  uid = codes "00112233";
  descriptor = some 3235822270;
}

-- A current of 320 mA, above a limit of 300 mA.
abbrev short : Setting ℤ
short = record good { current_bytes = some (125, 0); current_max_ma = pos 300 }

abbrev bench : Bench
bench = record { vdac = initial_vdac; pb_a = false }

good_passes : (pre_gate whole good bench).passed ≡ true
unfolding pre_gate check_current judge read_current_ma let_pass set_voltage set_duty set_enable
    ledc_init drive_duty duty_for_mv set_vdut defaults apply_ina_i tdiv initial_vdac ◌*ℤ◌ ◌+ℤ◌ ◌-ℤ◌
good_passes = refl

short_fails : (pre_gate whole short bench).passed ≡ false
unfolding pre_gate check_current judge read_current_ma let_pass power_off set_voltage set_duty
    set_enable ledc_init drive_duty duty_for_mv set_vdut defaults apply_ina_i tdiv initial_vdac ◌*ℤ◌
    ◌+ℤ◌ ◌-ℤ◌
short_fails = refl

failed-IsOff_example :
    IsOff (pre_gate whole short bench).bench.vdac vdut1
    × ((pre_gate whole short bench).bench.pb_a ≡ false)
unfolding initial_vdac
failed-IsOff_example = failed-IsOff whole short bench (refl, refl) refl refl short_fails

passed-Checked_example :
    Checked whole good
    × ((pre_gate whole good bench).bench.pb_a ≡ true)
    × (good.at_enable.set_direction vdut1 ≡ true
        → (pre_gate whole good bench).bench.vdac.level vdut1 ≡ true)
passed-Checked_example = passed-Checked whole good bench good_passes

bench-Safe : Safe initial_vdac
unfolding Safe initial_vdac
bench-Safe ch e = absurd (cc)

whole_one_mul : (x : ℤ) → pos 1 *ℤ x ≡ x
unfolding ◌*ℤ◌
whole_one_mul x = ground arith

read_current_ma-bound_example :
    (ma : ℤ) × (read_current_ma whole (defaults whole) (some (127, 255)) ≡ some ma)
    × (ma ≤ℤ pos 327)
read_current_ma-bound_example =
    read_current_ma-bound whole whole_one_mul (λ raw h. refl) 127 255 (omega arith) (omega arith)
