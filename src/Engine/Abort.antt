-- ===== src/Engine/Abort.antt =====
-- The abort of src/recipe_engine.c on a failed CRITICAL step: the power is cut, and nothing follows.
use test_controller.Base.{ℕ, ◌≡◌, ◌≢◌, refl, ◌⊎◌, inl, inr, Bool, true, false, List, [], ◌∷◌, arith}
use test_controller.Selftest.{Selftest}
use test_controller.Recipe.{
  RecipeStep, Recipe, Outcome, abort, pass, Criticality, critical, required, optional,
}
use test_controller.Engine.Machine.{
  Environment, Machine, Event, executed, recovering, progress, step_done, power_cut,
}
use test_controller.Engine.Attempts.{Attempt}
use test_controller.Engine.Retries.{attempts_loop-keeps}
use test_controller.Engine.Steps.{
  Progress, announce, settle_step, check_timeout, try_step, run_step, run_steps, initial, finish,
  run, enabled_total,
}
use test_controller.Engine.Loop.{run_step_rule, run_steps_exit_rule}

-- No power cut among the events.
pub NoCut : {F : Type 0} → List (Event F) → Type 0
NoCut [] = Unit {0}
NoCut (power_cut ∷ es) = ⊥
NoCut (executed n ∷ es) = NoCut es
NoCut (recovering n ∷ es) = NoCut es
NoCut (progress a b c d ∷ es) = NoCut es
NoCut (step_done a b c d e f ∷ es) = NoCut es

-- The last call of the engine is the power cut, in front of it the report of a failed step, and there
-- is no other power cut.
pub CutLast : {F : Type 0} → List (Event F) → Type 0
CutLast [] = ⊥
CutLast (power_cut ∷ []) = ⊥
CutLast (power_cut ∷ (step_done num id status ok dur meas ∷ es)) = (ok ≡ false) × NoCut es
CutLast _ = ⊥

-- Either the run was not aborted and the power was not cut, or both, the cut last.
pub AbortsByCut : {F : Type 0} → Outcome → List (Event F) → Type 0
AbortsByCut o es = ((o ≢ abort) × NoCut es) ⊎ ((o ≡ abort) × CutLast es)

module _ (env : Environment) (recipe : Recipe env.Params) (total start_us : ℕ) where
  open env use {World, Params, Float}

  -- While the loop goes on.
  record Running (p : Progress World Float) : Type 0 where
    undecided : p.result.outcome ≡ pass
    live : p.aborted ≡ false
    uncut : NoCut p.machine.events

  -- After a step: going on, a stop that is no critical abort, or the critical abort.
  abbrev Left : Progress World Float → Type 0
  Left p = AbortsByCut p.result.outcome p.machine.events

  uncut-try_step :
      (step : RecipeStep Params) (fn : Params → Selftest × World → Selftest × World)
      (p : Progress World Float)
      → NoCut p.machine.events
      → NoCut (try_step env recipe.recovery_branches total step fn p).0.events
  unfolding try_step NoCut
  uncut-try_step step fn p h =
      attempts_loop-keeps env NoCut (λ n es k. k) (λ n es k. k) step fn _ _
        (announce env total step p) h

  settle_step-Left :
      (step : RecipeStep Params) (c : Criticality) (ma : Machine World Float × Attempt Float)
      (p : Progress World Float)
      → step.criticality ≡ c
      → Running p
      → NoCut ma.0.events
      → Running (settle_step env step ma p)
        ⊎ (((settle_step env step ma p).aborted ≡ true) × Left (settle_step env step ma p))
  unfolding settle_step NoCut CutLast AbortsByCut
  settle_step-Left step critical (m, a) p c v h = ground arith
  settle_step-Left step required (m, a) p c v h = ground arith
  settle_step-Left step optional (m, a) p c v h = ground arith

  abbrev Verdict : Progress World Float × Bool → Type 0
  Verdict r = (r.1 ≡ false → Running r.0) × (r.1 ≡ true → Left r.0)

  check_timeout-Verdict :
      (timeout_ms : ℕ) (step : RecipeStep Params) (p : Progress World Float)
      → Running p ⊎ ((p.aborted ≡ true) × Left p)
      → Verdict (check_timeout env timeout_ms start_us step p)
  unfolding check_timeout AbortsByCut
  check_timeout-Verdict timeout_ms step p (inl v) = ground arith
  check_timeout-Verdict timeout_ms step p (inr v) = ground arith

  run_step-Verdict :
      (step : RecipeStep Params) (rest : List (RecipeStep Params)) (p : Progress World Float)
      → Running p
      → Verdict (run_step env recipe total start_us step p)
  run_step-Verdict step rest p v =
      run_step_rule env recipe total start_us Verdict step p ((λ go. v), (λ stop. cc))
        (λ on gate fn. check_timeout-Verdict recipe.timeout_ms step _ (
          settle_step-Left step step.criticality
            (try_step env recipe.recovery_branches total step fn p) p refl v
            (uncut-try_step step fn p v.uncut)))

  run_steps-Left :
      (steps : List (RecipeStep Params)) (p : Progress World Float)
      → Running p
      → Left (run_steps env recipe total start_us steps p)
  unfolding AbortsByCut
  run_steps-Left =
      run_steps_exit_rule env recipe total start_us (λ rest p. Running p) Left run_step-Verdict
        (λ p v. inl (ground arith))

module _ (env : Environment) where
  open env use {World, Params, Float}

  -- A run cuts the power exactly when its outcome is ABORT: then the cut is the last call that it makes,
  -- directly behind the report of a failed step, and the only one; else there is none.
  pub run-AbortsByCut :
      (recipe : Recipe Params) (sw : Selftest × World)
      → AbortsByCut (run env recipe sw).result.outcome (run env recipe sw).machine.events
  unfolding run finish initial
  run-AbortsByCut recipe (st, w) =
      let start_us = env.timer_us w in
      let total = enabled_total recipe.steps in
      let left =
        run_steps-Left env recipe total start_us recipe.steps (initial env (st, w))
          (unfold initial NoCut in record { undecided = refl; live = refl; uncut = tt }) in
      unfold AbortsByCut in ground (arith, left)
