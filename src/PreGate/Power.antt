-- ===== src/PreGate/Power.antt =====
-- The power of the device when the gate of src/pre_test_gate.c ends.
use test_controller.Base.{◌≡◌, refl, true, false, ◌∙◌}
use test_controller.Cal.{Floats}
use test_controller.Vdac.{vdut1, set_enable, is_guarded}
use test_controller.Vdac.Interlock.{Safe, set_voltage-Drives, set_enable-Safe, switch_off}
use test_controller.Vdac.Shutdown.{IsOff, IsOff-now}
use test_controller.PreGate.{Setting, Bench, GateDone, power_off, let_pass, pre_gate}
use test_controller.Vdac.Switches.{Same-set_voltage}
use test_controller.PreGate.Passing.{Checked, check_current_rule, pre_gate_rule, preset, powered}

module _ (fl : Floats) (g : Setting fl.Float) where
  -- A gate that fails leaves the device without power and PB-A released, if it began so and the enable
  -- pin can be driven when it cuts the power.
  pub failed-IsOff :
      (b : Bench)
      → IsOff b.vdac vdut1
      → b.pb_a ≡ false
      → g.at_power_off.set_direction vdut1 ≡ true
      → (pre_gate fl g b).passed ≡ false
      → IsOff (pre_gate fl g b).bench.vdac vdut1 × ((pre_gate fl g b).bench.pb_a ≡ false)
  unfolding power_off let_pass
  failed-IsOff b off released pin =
      let P : GateDone → Type 0 =
        λ d. d.passed ≡ false → IsOff d.bench.vdac vdut1 × (d.bench.pb_a ≡ false) in
      let same = Same-set_voltage vdut1 g.calibration g.at_voltage vdut1 g.vdut_mv b.vdac in
      pre_gate_rule fl g P b (λ reason e. ((same.0 ∙ off.0, same.1 ∙ off.1), released))
        (λ set_ok.
          check_current_rule fl g P (powered fl g b)
            (λ reason e. (IsOff-now g.at_power_off vdut1 (powered fl g b).vdac pin, refl))
            (λ found e. absurd (cc)))

  -- A gate that passes has read a current within the limits and an identity, and leaves PB-A asserted
  -- and the regulator switched on, if its enable pin could be driven.
  pub passed-Checked :
      (b : Bench)
      → (pre_gate fl g b).passed ≡ true
      → Checked fl g
        × ((pre_gate fl g b).bench.pb_a ≡ true)
        × (g.at_enable.set_direction vdut1 ≡ true → (pre_gate fl g b).bench.vdac.level vdut1 ≡ true)
  unfolding power_off let_pass set_enable
  passed-Checked b =
      let P : GateDone → Type 0 = λ d.
        d.passed ≡ true
        → Checked fl g
          × (d.bench.pb_a ≡ true)
          × (g.at_enable.set_direction vdut1 ≡ true → d.bench.vdac.level vdut1 ≡ true) in
      pre_gate_rule fl g P b (λ reason e. absurd (cc))
        (λ set_ok.
          check_current_rule fl g P (powered fl g b) (λ reason e. absurd (cc))
            (λ found e. (found, refl, λ pin. rw (pin, set_enable) refl)))

  -- With a device that may be seated the gate never has a regulator on below 75 % duty.
  pub pre_gate-Safe :
      (b : Bench) → is_guarded g.at_voltage ≡ true → Safe b.vdac → Safe (pre_gate fl g b).bench.vdac
  unfolding power_off let_pass
  pre_gate-Safe b guard safe =
      let P : GateDone → Type 0 = λ d. Safe d.bench.vdac in
      let set = set_voltage-Drives g.calibration g.at_voltage vdut1 g.vdut_mv guard b.vdac safe in
      let on = set_enable-Safe g.at_enable vdut1 true (preset fl g b).0 set.0 in
      pre_gate_rule fl g P b (λ reason. set.0)
        (λ set_ok.
          check_current_rule fl g P (powered fl g b)
            (λ reason.
              switch_off g.at_power_off vdut1 (powered fl g b).vdac (on (λ e. set.1 set_ok)))
            (λ found. on (λ e. set.1 set_ok)))
