-- ===== src/Engine/Loop.antt =====
-- Invariant rules for the loop over the steps of src/recipe_engine.c.
use test_controller.Base.{
  ℕ, ◌≡◌, Bool, true, false, ◌&&◌, List, [], ◌∷◌, if_either, Bool-cases, Option-cases, inl, inr,
}
use test_controller.Selftest.{Selftest}
use test_controller.Recipe.{RecipeStep, Recipe}
use test_controller.Engine.Machine.{Environment}
use test_controller.Engine.Steps.{
  Progress, try_step, settle_step, check_timeout, run_step, run_steps,
}

module _ {ℓ} (env : Environment) (recipe : Recipe env.Params) (total start_us : ℕ) where
  open env use {World, Params, Float}

  -- A pass skips the step, or settles it and checks the timeout.
  pub run_step_rule :
      (P : Progress World Float × Bool → Type ℓ) (step : RecipeStep Params)
      (p : Progress World Float)
      → P (p, false)
      → (step.enabled ≡ true
          → (step.requires_pass && p.any_required_fail) ≡ false
          → (fn : Params → Selftest × World → Selftest × World)
          → P (
              check_timeout env recipe.timeout_ms start_us step
                (settle_step env step (try_step env recipe.recovery_branches total step fn p) p)))
      → P (run_step env recipe total start_us step p)
  unfolding run_step
  run_step_rule P step p skipped settled = elim (Bool-cases step.enabled) [
    | inr off ↦ rw (off, run_step) skipped
    | inl on ↦ elim (Bool-cases (step.requires_pass && p.any_required_fail)) [
      | inl gated ↦ rw (on, gated, run_step) skipped
      | inr open_gate ↦ elim (Option-cases (env.primitive step.primitive)) [
        | inl gone ↦ rw (on, open_gate, gone, run_step) skipped
        | inr (fn, found) ↦ rw (on, open_gate, found, run_step) (settled on open_gate fn)
      ]
    ]
  ]

  -- An invariant over the steps that are left and the progress.
  pub run_steps_rule :
      (P : List (RecipeStep Params) → Progress World Float → Type ℓ)
      → ((step : RecipeStep Params) (rest : List (RecipeStep Params)) (p : Progress World Float)
          → P (step ∷ rest) p
          → P rest (run_step env recipe total start_us step p).0)
      → (steps : List (RecipeStep Params)) (p : Progress World Float) → P steps p
      → (rest : List (RecipeStep Params)) × P rest (run_steps env recipe total start_us steps p)
  unfolding run_steps
  run_steps_rule P keep [] p h = ([], h)
  run_steps_rule P keep (step ∷ steps) p h =
      let (p', stop) = run_step env recipe total start_us step p in
      let kept = keep step steps p h in
      if_either (λ q. (rest : List (RecipeStep Params)) × P rest q) stop (steps, kept)
        (run_steps_rule P keep steps p' kept)

  -- An invariant `P` of the passes that go on, and what holds when the loop is left.
  pub run_steps_exit_rule :
      (P : List (RecipeStep Params) → Progress World Float → Type ℓ)
      (Q : Progress World Float → Type ℓ)
      → ((step : RecipeStep Params) (rest : List (RecipeStep Params)) (p : Progress World Float)
          → P (step ∷ rest) p
          → ((run_step env recipe total start_us step p).1 ≡ false
              → P rest (run_step env recipe total start_us step p).0)
            × ((run_step env recipe total start_us step p).1 ≡ true
                → Q (run_step env recipe total start_us step p).0))
      → ((p : Progress World Float) → P [] p → Q p)
      → (steps : List (RecipeStep Params)) (p : Progress World Float) → P steps p
      → Q (run_steps env recipe total start_us steps p)
  unfolding run_steps
  run_steps_exit_rule P Q keep done [] p h = done p h
  run_steps_exit_rule P Q keep done (step ∷ steps) p h =
      let r = run_step env recipe total start_us step p in
      let (on, stopped) = keep step steps p h in
      elim (Bool-cases r.1) [
        | inl stop ↦ rw stop (stopped stop)
        | inr go ↦ rw go (run_steps_exit_rule P Q keep done steps r.0 (on go))
      ]
