-- ===== src/Engine/Gates.antt =====
-- Which steps src/recipe_engine.c passes over, and what that means for the outcome.
use test_controller.Base.{
  All, ℕ, ◌≡◌, ◌≢◌, refl, sym, ap, ◌∙◌, ◌⊎◌, inl, inr, Bool, true, false, ◌&&◌, none, some, List,
  [], ◌∷◌, arith, Bool-cases, if◌then◌else◌, if_false,
}
use test_controller.Selftest.{Selftest}
use test_controller.Recipe.{RecipeStep, Recipe, pass, timeout, required, optional}
use test_controller.Engine.Machine.{Environment, Machine}
use test_controller.Engine.Attempts.{Attempt}
use test_controller.Engine.Steps.{
  Progress, settle_step, check_timeout, try_step, run_step, run_steps, initial, finish, run,
  enabled_total, handle_failure,
}
use test_controller.Engine.Loop.{run_step_rule, run_steps_rule}

module _ (env : Environment) where
  open env use {World, Params, Float}

  -- The steps that run without regard to failures.
  unfoldable pub ungated : List (RecipeStep Params) → List (RecipeStep Params)
  ungated [] = []
  ungated (s ∷ ss) = let rest = ungated ss in if s.requires_pass then rest else s ∷ rest

  settle_step-flag :
      (step : RecipeStep Params) (ma : Machine World Float × Attempt Float)
      (p : Progress World Float)
      → p.any_required_fail ≡ true
      → (settle_step env step ma p).any_required_fail ≡ true
  unfolding settle_step handle_failure
  settle_step-flag step (m, a) p flagged = ground (arith, flagged)

  check_timeout-flag :
      (timeout_ms start_us : ℕ) (step : RecipeStep Params) (p : Progress World Float)
      → p.any_required_fail ≡ true
      → (check_timeout env timeout_ms start_us step p).0.any_required_fail ≡ true
  unfolding check_timeout
  check_timeout-flag timeout_ms start_us step p flagged = ground (arith, flagged)

  run_step-flag :
      (recipe : Recipe Params) (total start_us : ℕ) (step : RecipeStep Params)
      (p : Progress World Float)
      → p.any_required_fail ≡ true
      → (run_step env recipe total start_us step p).0.any_required_fail ≡ true
  run_step-flag recipe total start_us step p flagged =
      run_step_rule env recipe total start_us (λ r. r.0.any_required_fail ≡ true) step p flagged
        (λ on gate fn.
          check_timeout-flag recipe.timeout_ms start_us step _ (
            settle_step-flag step (try_step env recipe.recovery_branches total step fn p) p
              flagged))

  run_step-gated :
      (recipe : Recipe Params) (total start_us : ℕ) (step : RecipeStep Params)
      (p : Progress World Float)
      → p.any_required_fail ≡ true
      → step.requires_pass ≡ true
      → run_step env recipe total start_us step p ≡ (p, false)
  unfolding run_step
  run_step-gated recipe total start_us step p flagged gated = elim (Bool-cases step.enabled) [
    | inl on ↦ rw (on, flagged, gated, run_step) refl
    | inr off ↦ rw (off, run_step) refl
  ]

  run_step-open :
      (recipe : Recipe Params) (total start_us : ℕ) (step : RecipeStep Params)
      (p : Progress World Float) (fn : Params → Selftest × World → Selftest × World)
      → step.enabled ≡ true
      → (step.requires_pass && p.any_required_fail) ≡ false
      → env.primitive step.primitive ≡ some fn
      → run_step env recipe total start_us step p
        ≡ check_timeout env recipe.timeout_ms start_us step
            (settle_step env step (try_step env recipe.recovery_branches total step fn p) p)
  unfolding run_step
  run_step-open recipe total start_us step p fn on gate found = rw (on, gate, found, run_step) refl

  -- A pass that leaves the loop, or goes on alike.
  carry_on :
      (r : Progress World Float × Bool) (x y : Progress World Float)
      → r.0.any_required_fail ≡ true
      → (x ≡ y) × (x.any_required_fail ≡ true)
      → ((if r.1 then r.0 else x) ≡ (if r.1 then r.0 else y))
        × ((if r.1 then r.0 else x).any_required_fail ≡ true)
  carry_on (p, true) x y still same = (refl, still)
  carry_on (p, false) x y still same = same

  -- With the flag set, the steps behind a gate make no difference, and the flag stays.
  run_steps-ungated :
      (recipe : Recipe Params) (total start_us : ℕ) (steps : List (RecipeStep Params))
      (p : Progress World Float)
      → p.any_required_fail ≡ true
      → (run_steps env recipe total start_us steps p
          ≡ run_steps env recipe total start_us (ungated steps) p)
        × ((run_steps env recipe total start_us steps p).any_required_fail ≡ true)
  unfolding run_steps ungated
  run_steps-ungated recipe total start_us [] p flagged = (refl, flagged)
  run_steps-ungated recipe total start_us (s ∷ ss) p flagged = elim (Bool-cases s.requires_pass) [
    | inl gated ↦
        rw (run_step-gated recipe total start_us s p flagged gated, gated)
          (run_steps-ungated recipe total start_us ss p flagged)
    | inr free ↦
        let r = run_step env recipe total start_us s p in
        let still = run_step-flag recipe total start_us s p flagged in
        let on = carry_on r _ _ still (run_steps-ungated recipe total start_us ss r.0 still) in
        let kept : ungated (s ∷ ss) ≡ s ∷ ungated ss = if_false (ungated ss) s.requires_pass free in
        (
          on.0
              ∙ ap (λ (l : List (RecipeStep Params)). run_steps env recipe total start_us l p)
                  (sym kept),
          on.1,
        )
  ]

  finish-flag :
      (start_us : ℕ) (p : Progress World Float)
      → p.any_required_fail ≡ true
      → (finish env start_us p).result.outcome ≢ pass
  unfolding finish
  finish-flag start_us p flagged = ground (arith, flagged)

  failed-flag :
      (step : RecipeStep Params) (ma : Machine World Float × Attempt Float)
      (p : Progress World Float)
      → step.criticality ≡ required
      → ma.1.step_ok ≡ false
      → (settle_step env step ma p).any_required_fail ≡ true
  unfolding settle_step handle_failure
  failed-flag step (m, a) p crit failed = ground (arith, crit, failed)

  -- When the attempts of an enabled REQUIRED step have failed, the rest of the run is the one that the
  -- recipe without its later requires_pass steps would have, and the outcome is not PASS. The step is
  -- in the table of primitives and not itself behind a gate.
  pub required_failure_gates :
      (recipe : Recipe Params) (total start_us : ℕ) (step : RecipeStep Params)
      (steps : List (RecipeStep Params)) (p : Progress World Float)
      (fn : Params → Selftest × World → Selftest × World)
      → step.enabled ≡ true
      → step.criticality ≡ required
      → (step.requires_pass && p.any_required_fail) ≡ false
      → env.primitive step.primitive ≡ some fn
      → (try_step env recipe.recovery_branches total step fn p).1.step_ok ≡ false
      → (run_steps env recipe total start_us (step ∷ steps) p
          ≡ run_steps env recipe total start_us (step ∷ ungated steps) p)
        × ((finish env start_us
              (run_steps env recipe total start_us (step ∷ steps) p)).result.outcome
            ≢ pass)
  unfolding run_steps
  required_failure_gates recipe total start_us step steps p fn on crit gate found failed =
      let tried = try_step env recipe.recovery_branches total step fn p in
      let r = run_step env recipe total start_us step p in
      let flagged : r.0.any_required_fail ≡ true =
        ap (λ (x : Progress World Float × Bool). x.0.any_required_fail)
          (run_step-open recipe total start_us step p fn on gate found)
        ∙ check_timeout-flag recipe.timeout_ms start_us step _
            (failed-flag step tried p crit failed) in
      let (same, kept) =
        carry_on r _ _ flagged (run_steps-ungated recipe total start_us steps r.0 flagged) in
      (same, finish-flag start_us _ kept)

  -- A step whose primitive is not in the table.
  abbrev pub IsUnknown : RecipeStep Params → Type 0
  IsUnknown s = env.primitive s.primitive ≡ none

  unknown_step :
      (recipe : Recipe Params) (total start_us : ℕ) (s : RecipeStep Params)
      (p : Progress World Float)
      → IsUnknown s
      → run_step env recipe total start_us s p ≡ (p, false)
  unfolding run_step
  unknown_step recipe total start_us s p u = rw (u, run_step) (ground arith)

  unknown_steps :
      (recipe : Recipe Params) (total start_us : ℕ) (steps : List (RecipeStep Params))
      (p : Progress World Float)
      → All IsUnknown steps
      → run_steps env recipe total start_us steps p ≡ p
  unfolding run_steps
  unknown_steps recipe total start_us [] p all = refl
  unknown_steps recipe total start_us (s ∷ ss) p all =
      rw (unknown_step recipe total start_us s p all.0)
        (unknown_steps recipe total start_us ss p all.1)

  -- A recipe none of whose primitives is in the table is reported as PASS, with no step counted.
  pub unknown_primitives_pass :
      (recipe : Recipe Params) (sw : Selftest × World)
      → All IsUnknown recipe.steps
      → ((run env recipe sw).result.outcome ≡ pass) × ((run env recipe sw).result.total_count ≡ 0)
  unfolding run finish initial
  unknown_primitives_pass recipe (st, w) all =
      let start_us = env.timer_us w in
      let total = enabled_total recipe.steps in
      rw (unknown_steps recipe total start_us recipe.steps (initial env (st, w)) all) (refl, refl)

module _ (env : Environment) (recipe : Recipe env.Params) (total start_us : ℕ) where
  open env use {World, Params, Float}

  record Harmless (p : Progress World Float) : Type 0 where
    no_fail : p.any_required_fail ≡ false
    no_abort : p.aborted ≡ false
    undecided : (p.result.outcome ≡ pass) ⊎ (p.result.outcome ≡ timeout)

  optional-Harmless :
      (step : RecipeStep Params) (ma : Machine World Float × Attempt Float)
      (p : Progress World Float)
      → step.criticality ≡ optional
      → Harmless p
      → Harmless (check_timeout env recipe.timeout_ms start_us step (settle_step env step ma p)).0
  unfolding check_timeout settle_step
  optional-Harmless step (m, a) p o h = ground arith

  run_step-Harmless :
      (step : RecipeStep Params) (rest : List (RecipeStep Params)) (p : Progress World Float)
      → All (λ s. s.criticality ≡ optional) (step ∷ rest) × Harmless p
      → All (λ s. s.criticality ≡ optional) rest
        × Harmless (run_step env recipe total start_us step p).0
  run_step-Harmless step rest p (all, h) = (
    all.1,
    run_step_rule env recipe total start_us (λ r. Harmless r.0) step p h
        (λ on gate fn.
          optional-Harmless step (try_step env recipe.recovery_branches total step fn p) p all.0 h),
  )

module _ (env : Environment) where
  open env use {World, Params, Float}

  -- A recipe of OPTIONAL steps alone ends as PASS or TIMEOUT, whatever its primitives do.
  pub optional_never_fails :
      (recipe : Recipe Params) (sw : Selftest × World)
      → All (λ s. s.criticality ≡ optional) recipe.steps
      → ((run env recipe sw).result.outcome ≡ pass) ⊎ ((run env recipe sw).result.outcome ≡ timeout)
  unfolding run finish initial
  optional_never_fails recipe (st, w) all =
      let start_us = env.timer_us w in
      let total = enabled_total recipe.steps in
      let (rest, (left, h)) =
        run_steps_rule env recipe total start_us
          (λ rest p.
            All (λ s. s.criticality ≡ optional) rest × Harmless env recipe total start_us p)
          (run_step-Harmless env recipe total start_us) recipe.steps (initial env (st, w))
          (all, record { no_fail = refl; no_abort = refl; undecided = inl refl }) in
      ground (arith, h)
