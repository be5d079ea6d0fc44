-- ===== src/Engine/Outcome.antt =====
-- What the outcome of a run of src/recipe_engine.c says of its steps.
use test_controller.Base.{
  ℕ, ◌≡◌, refl, ◌∙◌, ◌⊎◌, inl, inr, true, false, List, [], ◌∷◌, ◌++◌, arith, CString, truncated,
}
use mathlib.Core.List.{append_assoc}
use test_controller.Selftest.{Selftest}
use test_controller.Recipe.{
  RecipeStep, Recipe, pass, Criticality, critical, required, optional, StepResult,
}
use test_controller.Engine.Machine.{Environment, Machine}
use test_controller.Engine.Attempts.{Attempt}
use test_controller.Engine.Steps.{
  Progress, step_result, settle_step, check_timeout, try_step, run_step, run_steps, initial, finish,
  run, enabled_total,
}
use test_controller.Engine.Loop.{run_step_rule, run_steps_rule}

-- One of the steps is OPTIONAL and has this id, cut to the size of the result's array.
pub HasOptional : {P : Type 0} → CString → List (RecipeStep P) → Type 0
HasOptional id [] = ⊥
HasOptional id (s ∷ ss) =
    ((s.criticality ≡ optional) × (truncated 32 s.id ≡ id)) ⊎ HasOptional id ss

-- Each result is a pass, or that of an OPTIONAL step.
pub Explained : {P : Type 0} → List (RecipeStep P) → List StepResult → Type 0
Explained steps [] = Unit {0}
Explained steps (r ∷ rs) = ((r.passed ≡ true) ⊎ HasOptional r.step_id steps) × Explained steps rs

Explained-append :
    {P : Type 0} (steps : List (RecipeStep P)) (rs : List StepResult) (r : StepResult)
    → Explained steps rs
    → (r.passed ≡ true) ⊎ HasOptional r.step_id steps
    → Explained steps (rs ++ r ∷ [])
unfolding Explained
Explained-append steps [] r h e = (e, tt)
Explained-append steps (x ∷ rs) r h e = (h.0, Explained-append steps rs r h.1 e)

HasOptional-append :
    {P : Type 0} (before : List (RecipeStep P)) (step : RecipeStep P) (rest : List (RecipeStep P))
    → step.criticality ≡ optional
    → HasOptional (truncated 32 step.id) (before ++ step ∷ rest)
unfolding HasOptional
HasOptional-append [] step rest o = inl (o, refl)
HasOptional-append (s ∷ before) step rest o = inr (HasOptional-append before step rest o)

module _ (env : Environment) (recipe : Recipe env.Params) (total start_us : ℕ) where
  open env use {World, Params, Float}

  -- While no REQUIRED or CRITICAL step has failed.
  abbrev Clean : Progress World Float → Type 0
  Clean p =
      p.any_required_fail ≡ false → p.aborted ≡ false → Explained recipe.steps p.result.step_results

  settle_step-Clean :
      (step : RecipeStep Params) (c : Criticality) (ma : Machine World Float × Attempt Float)
      (p : Progress World Float)
      → step.criticality ≡ c
      → (c ≡ optional → HasOptional (truncated 32 step.id) recipe.steps)
      → Clean p
      → Clean (settle_step env step ma p)
  unfolding settle_step
  settle_step-Clean step critical (m, a) p e o h any live =
      ground (arith, h, Explained-append recipe.steps p.result.step_results (step_result step a))
  settle_step-Clean step required (m, a) p e o h any live =
      ground (arith, h, Explained-append recipe.steps p.result.step_results (step_result step a))
  settle_step-Clean step optional (m, a) p e o h any live =
      ground
        (arith, h, o refl, Explained-append recipe.steps p.result.step_results (step_result step a))

  check_timeout-Clean :
      (timeout_ms : ℕ) (step : RecipeStep Params) (p : Progress World Float)
      → Clean p
      → Clean (check_timeout env timeout_ms start_us step p).0
  unfolding check_timeout
  check_timeout-Clean timeout_ms step p h any live = ground (arith, h)

  -- `rest` are the last steps of the recipe.
  abbrev IsSuffix : List (RecipeStep Params) → Type 0
  IsSuffix rest = (before : List (RecipeStep Params)) × (before ++ rest ≡ recipe.steps)

  IsSuffix-tail :
      (step : RecipeStep Params) (rest : List (RecipeStep Params))
      → IsSuffix (step ∷ rest)
      → IsSuffix rest
  IsSuffix-tail step rest (before, e) =
      (before ++ step ∷ [], append_assoc before (step ∷ []) rest ∙ e)

  run_step-Clean :
      (step : RecipeStep Params) (rest : List (RecipeStep Params)) (p : Progress World Float)
      → IsSuffix (step ∷ rest) × Clean p
      → IsSuffix rest × Clean (run_step env recipe total start_us step p).0
  run_step-Clean step rest p (s, h) = (
    IsSuffix-tail step rest s,
    run_step_rule env recipe total start_us (λ r. Clean r.0) step p h
        (λ on gate fn. check_timeout-Clean recipe.timeout_ms step _ (
          settle_step-Clean step step.criticality
            (try_step env recipe.recovery_branches total step fn p) p refl
            (λ o. rw (← s.1) (HasOptional-append s.0 step rest o)) h)),
  )

  run_steps-Clean :
      (steps : List (RecipeStep Params)) (p : Progress World Float)
      → IsSuffix steps × Clean p
      → (rest : List (RecipeStep Params)) × (IsSuffix rest
          × Clean (run_steps env recipe total start_us steps p))
  run_steps-Clean =
      run_steps_rule env recipe total start_us (λ rest p. IsSuffix rest × Clean p) run_step-Clean

module _ (env : Environment) where
  open env use {World, Params, Float}

  -- In a run whose outcome is PASS each step that failed is OPTIONAL: a result that is no pass carries
  -- the id of an OPTIONAL step of the recipe.
  pub pass-Explained :
      (recipe : Recipe Params) (sw : Selftest × World)
      → (run env recipe sw).result.outcome ≡ pass
      → Explained recipe.steps (run env recipe sw).result.step_results
  unfolding run finish initial
  pass-Explained recipe (st, w) passed =
      let start_us = env.timer_us w in
      let total = enabled_total recipe.steps in
      let (rest, (s, clean)) =
        run_steps-Clean env recipe total start_us recipe.steps (initial env (st, w))
          (([], refl), (λ any live. unfold Explained in tt)) in
      ground (arith, clean)
