-- ===== src/PreGate/Range.antt =====
-- The currents that src/pre_test_gate.c can read.
use test_controller.Base.{ℕ, ◌<◌, ◌≤◌, ◌≡◌, ap, some, arith}
use test_controller.Base.Int.{ℤ, pos, negsuc, ◌*ℤ◌, tdiv, ◌≤ℤ◌, pos_part, neg_part}
use test_controller.Cal.{Floats, defaults}
use test_controller.Cal.Apply.{IsExact, defaults_passthrough}
use test_controller.PreGate.{int16, read_current_ma}

abbrev milliamps : ℤ → ℤ
milliamps raw = tdiv (raw *ℤ pos 10) (pos 1000)

int16_bound :
    (b0 b1 : ℕ)
    → b0 < 256
    → b1 < 256
    → (pos_part (int16 (b0, b1)) ≤ 32767) × (neg_part (int16 (b0, b1)) ≤ 32768)
int16_bound b0 b1 h k = ground arith

milliamps_bound :
    (raw : ℤ)
    → pos_part raw ≤ 32767
    → neg_part raw ≤ 32768
    → (milliamps raw ≤ℤ pos 327) × IsExact (milliamps raw)
unfolding tdiv ◌*ℤ◌
milliamps_bound (pos n) h k = ground arith
milliamps_bound (negsuc n) h k = ground arith

-- With the factory calibration no reading is above 327 mA, so that the default limit of 600 mA can never
-- be exceeded.
pub read_current_ma-bound :
    (fl : Floats)
    → ((x : fl.Float) → fl.mul fl.one x ≡ x)
    → ((raw : ℤ) → IsExact raw → fl.to_int (fl.of_int raw) ≡ raw)
    → (b0 b1 : ℕ) → b0 < 256
    → b1 < 256
    → (ma : ℤ) × (read_current_ma fl (defaults fl) (some (b0, b1)) ≡ some ma) × (ma ≤ℤ pos 327)
unfolding read_current_ma
read_current_ma-bound fl one_mul exact b0 b1 h k =
    let range = int16_bound b0 b1 h k in
    let bound = milliamps_bound (int16 (b0, b1)) range.0 range.1 in
    let through =
      (defaults_passthrough fl one_mul exact (pos 0) (milliamps (int16 (b0, b1))) (pos 0)
        bound.1).1 in
    (milliamps (int16 (b0, b1)), ap some through, bound.0)
