-- ===== src/PreGate/Passing.antt =====
-- The ways through src/pre_test_gate.c.
use test_controller.Base.{
  ◌≡◌, Bool, true, false, none, some, CString, codes, Option-cases, inl, inr, Bool-cases,
}
use test_controller.Base.Int.{ℤ, ltb_ℤ}
use test_controller.Cal.{Floats}
use test_controller.Vdac.{Vdac, vdut1, set_voltage, set_enable}
use test_controller.PreGate.{
  Setting, Bench, GateDone, has_text, read_current_ma, power_off, let_pass, judge, check_current,
  pre_gate,
}

-- What the checks found when the gate passes.
pub record Checked (fl : Floats) (g : Setting fl.Float) : Type 0 where
  pub current_ma : ℤ
  pub read : read_current_ma fl g.calibration g.current_bytes ≡ some current_ma
  pub not_low : ltb_ℤ current_ma g.current_min_ma ≡ false
  pub not_high : ltb_ℤ g.current_max_ma current_ma ≡ false
  pub identified : has_text g.uid ≡ true

module _ (fl : Floats) (g : Setting fl.Float) where
  -- The two ways out of the checks of a powered device.
  judge_rule :
      (P : GateDone → Type 0) (b : Bench) (ma : ℤ)
      → ((reason : CString) → P (power_off fl g reason b))
      → (ltb_ℤ ma g.current_min_ma ≡ false
          → ltb_ℤ g.current_max_ma ma ≡ false
          → has_text g.uid ≡ true
          → P (let_pass fl g b))
      → P (judge fl g b ma)
  unfolding judge
  judge_rule P b ma off on = elim (Bool-cases (ltb_ℤ ma g.current_min_ma)) [
    | inl low ↦ rw (low, judge) (off (codes "current_low"))
    | inr not_low ↦ elim (Bool-cases (ltb_ℤ g.current_max_ma ma)) [
      | inl high ↦ rw (not_low, high, judge) (off (codes "current_high"))
      | inr not_high ↦ elim (Bool-cases (has_text g.uid)) [
        | inl text ↦ rw (not_low, not_high, text, judge) (on not_low not_high text)
        | inr missing ↦ rw (not_low, not_high, missing, judge) (off (codes "swd_uid_fail"))
      ]
    ]
  ]

  pub check_current_rule :
      (P : GateDone → Type 0) (b : Bench)
      → ((reason : CString) → P (power_off fl g reason b))
      → (Checked fl g → P (let_pass fl g b))
      → P (check_current fl g b)
  unfolding check_current
  check_current_rule P b off on =
      elim (Option-cases (read_current_ma fl g.calibration g.current_bytes)) [
        | inl failed ↦ rw (failed, check_current) (off (codes "ina219_read_fail"))
        | inr (ma, read) ↦
            rw (read, check_current)
              (judge_rule P b ma off (λ not_low not_high text. on (record {
                current_ma = ma;
                read = read;
                not_low = not_low;
                not_high = not_high;
                identified = text;
              })))
      ]

  -- The regulators behind the preset and behind the switching on.
  abbrev pub preset : Bench → Vdac × Bool
  preset b = set_voltage g.calibration g.at_voltage vdut1 g.vdut_mv b.vdac

  abbrev pub powered : Bench → Bench
  powered b = record { vdac = (set_enable g.at_enable vdut1 true (preset b).0).0; pb_a = true }

  pub pre_gate_rule :
      (P : GateDone → Type 0) (b : Bench)
      → ((reason : CString)
          → P (record {
            bench = record b { vdac = (preset b).0 };
            passed = false;
            uid_full = none;
            pfw_loaded = false;
            fail_reason = some reason;
          }))
      → ((preset b).1 ≡ true → P (check_current fl g (powered b)))
      → P (pre_gate fl g b)
  unfolding pre_gate
  pre_gate_rule P b refused accepted = elim (Bool-cases (preset b).1) [
    | inl set ↦ rw (set, pre_gate) (accepted set)
    | inr kept ↦ rw (kept, pre_gate) (refused (codes "vdut_uncalibrated"))
  ]
