-- ===== src/PreGate.antt =====
-- src/pre_test_gate.c: the gate in front of a test, which powers the device and checks its current, its
-- identity and its firmware.
pub mod Power
pub mod Passing
pub mod Range
mod Tests
use test_controller.Base.{
  ℕ, zero, suc, ◌+◌, ◌*◌, ◌-◌, Bool, true, false, not, Option, none, some, List, [], ◌∷◌, CString,
  codes, ltb, ◌==◌, if◌then◌else◌,
}
use test_controller.Base.Int.{ℤ, pos, negsuc, ◌*ℤ◌, sub_ℕ, tdiv, ltb_ℤ}
use test_controller.Cal.{Floats, Calibration, apply_ina_i}
use test_controller.Vdac.{Vdac, Conditions, Channel, vdut1, set_voltage, set_enable}

abbrev pub pfw_magic : ℕ
pfw_magic = 3235822270

-- The signed 16-bit register.
abbrev pub int16 : ℕ × ℕ → ℤ
int16 (b0, b1) =
    if ltb (b0 * 256 + b1) 32768 then pos (b0 * 256 + b1) else sub_ℕ (b0 * 256 + b1) 65536

-- What the gate meets: the configuration; the drivers at each of its calls of the regulators; what
-- the INA219, the UID reader (empty when it fails) and the memory reader give.
pub record Setting (F : Type 0) : Type 0 where
  pub calibration : Calibration F
  pub vdut_mv : ℤ
  pub current_min_ma : ℤ
  pub current_max_ma : ℤ
  pub at_voltage : Conditions
  pub at_enable : Conditions
  pub at_power_off : Conditions
  pub current_bytes : Option (ℕ × ℕ)
  pub uid : CString
  pub descriptor : Option ℕ

-- The regulators, and whether PB-A is asserted through the U8 multiplexer.
pub record Bench : Type 0 where
  pub vdac : Vdac
  pub pb_a : Bool

-- What the gate leaves, and what it passes to tc_sm_pre_gate_done.
pub record GateDone : Type 0 where
  pub bench : Bench
  pub passed : Bool
  pub uid_full : Option CString
  pub pfw_loaded : Bool
  pub fail_reason : Option CString

abbrev or_null : CString → Option CString
or_null [] = none
or_null (c ∷ cs) = some (c ∷ cs)

abbrev pub has_text : CString → Bool
has_text [] = false
has_text (c ∷ cs) = true

module _ (fl : Floats) where
  open fl use {Float}

  -- read_ina219_current_ma
  unfoldable pub read_current_ma : Calibration Float → Option (ℕ × ℕ) → Option ℤ
  unfolding apply_ina_i
  read_current_ma c none = none
  read_current_ma c (some bytes) =
      some (apply_ina_i fl c (pos 0) (tdiv (int16 bytes *ℤ pos 10) (pos 1000)))

  -- The label power_off, and what follows it.
  unfoldable pub power_off : Setting Float → CString → Bench → GateDone
  unfolding set_enable
  power_off g reason b = record {
    bench = record { vdac = (set_enable g.at_power_off vdut1 false b.vdac).0; pb_a = false };
    passed = false;
    uid_full = none;
    pfw_loaded = false;
    fail_reason = some reason;
  }

  is_magic : Option ℕ → Bool
  is_magic none = false
  is_magic (some d) = d == pfw_magic

  -- The gate passes; the power stays on.
  unfoldable pub let_pass : Setting Float → Bench → GateDone
  unfolding is_magic
  let_pass g b = record {
    bench = b;
    passed = true;
    uid_full = or_null g.uid;
    pfw_loaded = is_magic g.descriptor;
    fail_reason = none;
  }

  -- The checks behind the read of the current.
  unfoldable pub judge : Setting Float → Bench → ℤ → GateDone
  unfolding power_off let_pass
  judge g b ma =
      if ltb_ℤ ma g.current_min_ma
      then power_off g (codes "current_low") b
      else if ltb_ℤ g.current_max_ma ma
      then power_off g (codes "current_high") b
      else if not (has_text g.uid)
      then power_off g (codes "swd_uid_fail") b
      else let_pass g b

  -- The checks of the powered device.
  unfoldable pub check_current : Setting Float → Bench → GateDone
  unfolding read_current_ma power_off judge
  check_current g b = elim (read_current_ma g.calibration g.current_bytes) [
    | none ↦ power_off g (codes "ina219_read_fail") b
    | some ma ↦ judge g b ma
  ]

  -- pre_gate_task behind dut_detect_wait_stopped.
  unfoldable pub pre_gate : Setting Float → Bench → GateDone
  unfolding set_voltage set_enable check_current
  pre_gate g b =
      let (preset, accepted) = set_voltage g.calibration g.at_voltage vdut1 g.vdut_mv b.vdac in
      if not accepted
      then record {
        bench = record b { vdac = preset };
        passed = false;
        uid_full = none;
        pfw_loaded = false;
        fail_reason = some (codes "vdut_uncalibrated");
      }
      else check_current g
          (record { vdac = (set_enable g.at_enable vdut1 true preset).0; pb_a = true })
