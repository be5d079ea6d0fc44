-- ===== src/Parser/Runs.antt =====
-- Recipes that src/recipe_json.c parses, run by src/recipe_engine.c.
use test_controller.Base.{
  ℕ, ◌≤◌, ◌≡◌, ◌∙◌, ap, sym, refl, Bool, true, false, Option, none, some, List, [], ◌∷◌, CString,
  All, arith, str_eq, str_eq→eq, length, drop, length-drop, if◌then◌else◌,
}
use test_controller.Selftest.{Selftest}
use test_controller.Recipe.{RecoveryBranch, RecipeStep, Recipe}
use test_controller.Engine.Machine.{Environment, find_branch}
use test_controller.Engine.Attempts.{is_recovery, branch_of}
use test_controller.Engine.Steps.{run, enabled_total}
use test_controller.Engine.Accounting.{IsCounted, run-IsCounted}
use test_controller.Parser.{Cjson, parse}
use test_controller.Parser.Limits.{FitsStep, parse-Fits, some_injective}

All-weaken :
    {A : Type 0} (P Q : A → Type 0) (xs : List A) → ((x : A) → P x → Q x) → All P xs → All Q xs
All-weaken P Q [] f h = tt
All-weaken P Q (x ∷ xs) f h = (f x h.0, All-weaken P Q xs f h.1)

found_name :
    {P : Type 0} (name : CString) (x b : RecoveryBranch P) (rest : Option (RecoveryBranch P))
    (t : Bool)
    → str_eq x.name name ≡ t
    → (rest ≡ some b → b.name ≡ name)
    → (if t then some x else rest) ≡ some b
    → b.name ≡ name
found_name name x b rest true same later e =
    ap (λ (y : RecoveryBranch _). y.name) (sym (some_injective e)) ∙ str_eq→eq x.name name same
found_name name x b rest false other later e = later e

find_branch-name :
    (env : Environment) (name : CString) (bs : List (RecoveryBranch env.Params))
    (b : RecoveryBranch env.Params)
    → find_branch env name bs ≡ some b
    → b.name ≡ name
unfolding find_branch
find_branch-name env name [] b h = absurd (cc)
find_branch-name env name (x ∷ bs) b h =
    found_name name x b (find_branch env name bs) (str_eq x.name name) refl
      (find_branch-name env name bs b) h

-- The branch that the engine finds for a step whose onError fits its array.
branch_of-name :
    (env : Environment) (bs : List (RecoveryBranch env.Params)) (s : RecipeStep env.Params)
    → FitsStep s
    → (b : RecoveryBranch env.Params) → branch_of env bs s ≡ some b
    → length b.name ≤ 22
unfolding branch_of
branch_of-name env bs s fits b h = by_recovery (is_recovery s.on_error) h
  where
    by_recovery :
        (t : Bool)
        → (if t then find_branch env (drop 9 s.on_error) bs else none) ≡ some b
        → length b.name ≤ 22
    by_recovery true e = omega (
      arith,
      ap length (find_branch-name env (drop 9 s.on_error) bs b e),
      length-drop 9 s.on_error,
      fits.on_error_fits,
    )
    by_recovery false e = absurd (cc)

-- The engine over the parameters that the parser leaves, items of cJSON.
abbrev pub over :
    (cj : Cjson)
    → (env : Environment)
    → (CString → Option (Option cj.Json → Selftest × env.World → Selftest × env.World))
    → Environment
over cj env primitive = record env { Params = Option cj.Json; primitive = primitive }

module _ (cj : Cjson) (env : Environment)
    (primitive : CString
      → Option (Option cj.Json → Selftest × env.World → Selftest × env.World)) where
  -- No step of a parsed recipe reaches a recovery branch whose name is longer than 22 bytes, although a
  -- name may have 31: its onError is cut at 31 bytes, of which "recovery:" takes nine.
  pub parsed_branches :
      (text : List ℕ) (r : Recipe (Option cj.Json))
      → parse cj text ≡ some r
      → All
          (λ s.
            (b : RecoveryBranch (Option cj.Json))
            → branch_of (over cj env primitive) r.recovery_branches s ≡ some b
            → length b.name ≤ 22)
          r.steps
  parsed_branches text r h =
      All-weaken FitsStep _ r.steps (branch_of-name (over cj env primitive) r.recovery_branches)
        (parse-Fits cj text r h).each_step

  -- A run of a recipe that the parser gave records the result of every step that it counts, and counts
  -- no more steps than are enabled.
  pub parsed_run-IsCounted :
      (text : List ℕ) (r : Recipe (Option cj.Json)) (sw : Selftest × env.World)
      → parse cj text ≡ some r
      → IsCounted (run (over cj env primitive) r sw).result
        × ((run (over cj env primitive) r sw).result.total_count ≤ enabled_total r.steps)
  parsed_run-IsCounted text r sw h =
      run-IsCounted (over cj env primitive) r sw (parse-Fits cj text r h).steps_fit
