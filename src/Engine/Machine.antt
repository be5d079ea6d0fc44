-- ===== src/Engine/Machine.antt =====
-- src/recipe_engine.c: what the engine calls and reads, the verdict on a primitive, and the recovery
-- branches.
use test_controller.Base.{
  ℕ, ◌+◌, ◌-◌, Bool, true, false, Option, none, some, List, [], ◌∷◌, CString, str_eq, length, drop,
  ltb, ◌==◌, if◌then◌else◌,
}
use test_controller.Selftest.{Selftest, count_passes}
use test_controller.Recipe.{RecoveryStep, RecoveryBranch}

-- A measurement of the log: value, limits and unit.
pub record Meas (F : Type 0) : Type 0 where
  pub measured : F
  pub limit_min : F
  pub limit_max : F
  pub unit : CString

-- What stands outside the sources of the engine: the hardware and the measurement log as `World`, the
-- timer, the parameters of a step, the floats. A primitive is a function pointer of the table; it may
-- change the check buffer and the world, and cannot reach the engine's own state.
pub record Environment : Type 1 where
  pub World : Type 0
  pub Params : Type 0
  pub Float : Type 0
  pub timer_us : World → ℕ
  pub meas_count : World → ℕ
  pub meas_entry : World → ℕ → Option (Meas Float)
  pub meas_reset : World → World
  pub cut_power : World → World
  pub primitive : CString → Option (Params → Selftest × World → Selftest × World)

-- The calls of the engine that others see.
pub data Event (F : Type 0) : Type 0 where
  executed : CString → Event F
  recovering : CString → Event F
  progress : ℕ → ℕ → CString → CString → Event F
  step_done : ℕ → CString → CString → Bool → ℕ → Option (Meas F) → Event F
  power_cut : Event F

-- The state that the engine works on; `events` has the latest first.
pub record Machine (W F : Type 0) : Type 0 where
  pub selftest : Selftest
  pub world : W
  pub events : List (Event F)

-- Did the primitive pass? New checks decide if there are any, else the change of the counters.
unfoldable pub verdict : Selftest → Selftest → Bool
verdict before after =
    if ltb (length before.checks) (length after.checks)
    then count_passes (drop (length before.checks) after.checks)
      == length after.checks - length before.checks
    else if ltb before.total after.total
    then after.pass + before.total == after.total + before.pass
    else true

module _ (env : Environment) where
  open env use {World, Params, Float}

  -- fn(params), recorded as a call of `name`.
  unfoldable pub execute :
      CString
      → (Params → Selftest × World → Selftest × World)
      → Params
      → Machine World Float
      → Machine World Float
  execute name fn params m =
      let (st, w) = fn params (m.selftest, m.world) in
      record { selftest = st; world = w; events = executed name ∷ m.events }

  unfoldable pub find_branch :
      CString → List (RecoveryBranch Params) → Option (RecoveryBranch Params)
  find_branch name [] = none
  find_branch name (b ∷ bs) = if str_eq b.name name then some b else find_branch name bs

  -- The steps of a branch, up to the first that fails or is not in the table.
  unfoldable pub run_recovery_steps :
      List (RecoveryStep Params) → Machine World Float → Machine World Float × Bool
  unfolding execute
  run_recovery_steps [] m = (m, true)
  run_recovery_steps (rs ∷ rest) m = elim (env.primitive rs.primitive) [
    | none ↦ (m, false)
    | some fn ↦
        let m' = execute rs.primitive fn rs.params m in
        let onward = run_recovery_steps rest m' in
        if verdict m.selftest m'.selftest then onward else (m', false)
  ]

  unfoldable pub run_recovery_branch :
      RecoveryBranch Params → Machine World Float → Machine World Float × Bool
  unfolding run_recovery_steps
  run_recovery_branch b m =
      run_recovery_steps b.steps (record m { events = recovering b.name ∷ m.events })
