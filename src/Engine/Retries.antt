-- ===== src/Engine/Retries.antt =====
-- The retry loop of src/recipe_engine.c: how often it runs, and what it does not read.
use test_controller.Base.{
  ℕ, zero, suc, ◌+◌, ◌-◌, ◌≤◌, ◌≡◌, refl, Bool, Option, none, some, List, [], ◌∷◌, arith, CString,
  ltb, Option-cases, if_either, inl, inr,
}
use test_controller.Selftest.{Selftest}
use test_controller.Recipe.{RecoveryStep, RecoveryBranch, RecipeStep}
use test_controller.Engine.Machine.{
  Environment, Machine, Event, executed, recovering, progress, step_done, power_cut, execute,
  verdict, run_recovery_steps, run_recovery_branch,
}
use test_controller.Engine.Attempts.{Attempt, attempt_once, attempts_loop, branch_of, max_retries}
use test_controller.Engine.Steps.{Progress, announce, try_step}

-- A property of the events that an executed primitive keeps, and a recovery branch too.
module _ {ℓ} (env : Environment) (P : List (Event env.Float) → Type ℓ)
    (keep_executed : (n : CString) (es : List (Event env.Float)) → P es → P (executed n ∷ es)) where
  open env use {World, Params, Float}

  run_recovery_steps-keeps :
      (steps : List (RecoveryStep Params)) (m : Machine World Float)
      → P m.events
      → P (run_recovery_steps env steps m).0.events
  unfolding run_recovery_steps
  run_recovery_steps-keeps [] m h = h
  run_recovery_steps-keeps (rs ∷ rest) m h = elim (Option-cases (env.primitive rs.primitive)) [
    | inl gone ↦ rw (gone, run_recovery_steps) h
    | inr (fn, found) ↦
        rw (found, run_recovery_steps)
          (if_either (λ (r : Machine World Float × Bool). P r.0.events)
            (verdict m.selftest (execute env rs.primitive fn rs.params m).selftest)
            (run_recovery_steps-keeps rest (execute env rs.primitive fn rs.params m)
              (keep_executed rs.primitive m.events h))
            (keep_executed rs.primitive m.events h))
  ]

module _ {ℓ} (env : Environment) (P : List (Event env.Float) → Type ℓ)
    (keep_executed : (n : CString) (es : List (Event env.Float)) → P es → P (executed n ∷ es))
    (keep_recovering : (n : CString) (es : List (Event env.Float))
      → P es
      → P (recovering n ∷ es)) where
  open env use {World, Params, Float}

  run_recovery_branch-keeps :
      (b : RecoveryBranch Params) (m : Machine World Float)
      → P m.events
      → P (run_recovery_branch env b m).0.events
  unfolding run_recovery_branch
  run_recovery_branch-keeps b m h =
      run_recovery_steps-keeps env P keep_executed b.steps _ (keep_recovering b.name m.events h)

  attempt_once-keeps :
      (step : RecipeStep Params) (fn : Params → Selftest × World → Selftest × World)
      (ma : Machine World Float × Attempt Float)
      → P ma.0.events
      → P (attempt_once env step fn ma).0.events
  unfolding attempt_once
  attempt_once-keeps step fn ma h = keep_executed step.primitive ma.0.events h

  pub attempts_loop-keeps :
      (step : RecipeStep Params) (fn : Params → Selftest × World → Selftest × World)
      (branch : Option (RecoveryBranch Params)) (left : ℕ)
      (ma : Machine World Float × Attempt Float)
      → P ma.0.events
      → P (attempts_loop env step fn branch left ma).0.events
  unfolding attempts_loop
  attempts_loop-keeps step fn branch zero ma h = h
  attempts_loop-keeps step fn none (suc left) ma h =
      let tried = attempt_once env step fn ma in
      let kept = attempt_once-keeps step fn ma h in
      if_either (λ (r : Machine World Float × Attempt Float). P r.0.events) tried.1.step_ok kept
        (attempts_loop-keeps step fn none left tried kept)
  attempts_loop-keeps step fn (some b) (suc left) ma h =
      let tried = attempt_once env step fn ma in
      let kept = attempt_once-keeps step fn ma h in
      let branched = run_recovery_branch env b tried.0 in
      let saved = run_recovery_branch-keeps b tried.0 kept in
      let Kept = λ (r : Machine World Float × Attempt Float). P r.0.events in
      if_either Kept tried.1.step_ok kept (
        if_either Kept (ltb 0 left)
          (if_either Kept branched.1
            (attempts_loop-keeps step fn (some b) left (branched.0, tried.1) saved) saved)
          (attempts_loop-keeps step fn (some b) left tried kept))

-- How often a recovery branch was entered.
unfoldable pub recoveries : {F : Type 0} → List (Event F) → ℕ
recoveries [] = 0
recoveries (recovering n ∷ es) = suc (recoveries es)
recoveries (executed n ∷ es) = recoveries es
recoveries (progress a b c d ∷ es) = recoveries es
recoveries (step_done a b c d e f ∷ es) = recoveries es
recoveries (power_cut ∷ es) = recoveries es

module _ (env : Environment) where
  open env use {World, Params, Float}

  recoveries-run_recovery_branch :
      (b : RecoveryBranch Params) (m : Machine World Float)
      → recoveries (run_recovery_branch env b m).0.events ≡ suc (recoveries m.events)
  unfolding run_recovery_branch recoveries
  recoveries-run_recovery_branch b m =
      run_recovery_steps-keeps env (λ es. recoveries es ≡ suc (recoveries m.events)) (λ n es h. h)
        b.steps _ refl

  recoveries-attempts_loop :
      (step : RecipeStep Params) (fn : Params → Selftest × World → Selftest × World)
      (branch : Option (RecoveryBranch Params)) (left : ℕ)
      (ma : Machine World Float × Attempt Float)
      → recoveries (attempts_loop env step fn branch left ma).0.events
        ≤ recoveries ma.0.events + (left - 1)
  unfolding attempts_loop attempt_once recoveries
  recoveries-attempts_loop step fn branch zero ma = omega arith
  recoveries-attempts_loop step fn none (suc left) ma =
      ground (arith, recoveries-attempts_loop step fn none left (attempt_once env step fn ma))
  recoveries-attempts_loop step fn (some b) (suc left) ma =
      let tried = attempt_once env step fn ma in
      let branched = run_recovery_branch env b tried.0 in
      let again = recoveries-attempts_loop step fn (some b) left (branched.0, tried.1) in
      let direct = recoveries-attempts_loop step fn (some b) left tried in
      let entered = recoveries-run_recovery_branch b tried.0 in
      ground (arith, again, direct, entered)

  -- How often the branch of a step may be entered, by its own words.
  abbrev pub allowed : Option (RecoveryBranch Params) → ℕ
  allowed none = 0
  allowed (some b) = b.max_attempts

  max_retries-allowed :
      (branch : Option (RecoveryBranch Params)) → max_retries env branch - 1 ≡ allowed branch
  max_retries-allowed none = refl
  max_retries-allowed (some b) = omega arith

  -- For one step the recovery branch is entered at most `max_attempts` times, and never if its on_error names
  -- no branch of the recipe.
  pub recoveries-try_step :
      (branches : List (RecoveryBranch Params)) (total : ℕ) (step : RecipeStep Params)
      (fn : Params → Selftest × World → Selftest × World) (p : Progress World Float)
      → recoveries (try_step env branches total step fn p).0.events
        ≤ recoveries p.machine.events + allowed (branch_of env branches step)
  unfolding try_step recoveries
  recoveries-try_step branches total step fn p =
      let branch = branch_of env branches step in
      let exact = max_retries-allowed branch in
      let bounded =
        recoveries-attempts_loop step fn branch (max_retries env branch)
          (announce env total step p) in
      rw (← exact) bounded
