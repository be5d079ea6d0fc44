-- ===== src/Parser/Limits.antt =====
-- The sizes that src/recipe_json.c gives to what it parses.
use test_controller.Base.{
  ℕ, suc, ◌-◌, ◌≤◌, ◌<◌, ◌≡◌, ap, Option, none, some, List, [], ◌∷◌, map, CString, codes, All,
  arith, truncated, length, length-take, length-map, take, Option-cases, inl, inr,
}
use test_controller.Recipe.{
  RecoveryStep, RecoveryBranch, RecipeStep, Recipe, recipe_steps_max, recovery_branches_max,
  recovery_steps_max,
}
use test_controller.Parser.{
  Cjson, text_of, or_abort, on_error_of, parse_step, parse_recovery_step, parse_branch, build,
  parse, or_empty,
}

-- What fits the arrays of a step.
pub record FitsStep {P : Type 0} (s : RecipeStep P) : Type 0 where
  pub id_fits : length s.id < 32
  pub primitive_fits : length s.primitive < 32
  pub label_fits : length s.label < 48
  pub status_fits : length s.status_msg < 64
  pub on_error_fits : length s.on_error < 32
  pub on_error_set : 0 < length s.on_error

pub record FitsBranch {P : Type 0} (b : RecoveryBranch P) : Type 0 where
  pub name_fits : length b.name < 32
  pub steps_fit : length b.steps ≤ recovery_steps_max

pub record Fits {P : Type 0} (r : Recipe P) : Type 0 where
  pub steps_fit : length r.steps ≤ recipe_steps_max
  pub each_step : All FitsStep r.steps
  pub branches_fit : length r.recovery_branches ≤ recovery_branches_max
  pub each_branch : All FitsBranch r.recovery_branches

pub record FitsRecovery {P : Type 0} (s : RecoveryStep P) : Type 0 where
  pub id_fits : length s.id < 32
  pub primitive_fits : length s.primitive < 32

-- Each array of the recipe is large enough for what is in it.
pub record FitsRecipe {P : Type 0} (r : Recipe P) : Type 0 where
  pub recipe_id_fits : length r.recipe_id < 64
  pub recipe_version_fits : length r.recipe_version < 16
  pub name_fits : length r.name < 64
  pub each_recovery : All (λ (b : RecoveryBranch P). All FitsRecovery b.steps) r.recovery_branches
  pub arrays : Fits r

length-truncated : (n : ℕ) (s : CString) → length (truncated (suc n) s) ≤ n
unfolding truncated
length-truncated n s = omega (arith, length-take (suc n - 1) s)

pub some_injective : {A : Type 0} {x y : A} → some x ≡ some y → x ≡ y
some_injective {x = x} e = ap (λ o. elim o [ none ↦ x | some z ↦ z ]) e

All-map :
    {A B : Type 0} (P : B → Type 0) (f : A → B) (xs : List A)
    → ((x : A) → P (f x))
    → All P (map f xs)
All-map P f [] h = tt
All-map P f (x ∷ xs) h = (h x, All-map P f xs h)

length-or_abort :
    (s : CString) → length s ≤ 31 → (length (or_abort s) < 32) × (0 < length (or_abort s))
unfolding or_abort
length-or_abort [] h = (omega arith, omega arith)
length-or_abort (c ∷ cs) h = (omega arith, omega arith)

length-map-take : {A B : Type 0} (f : A → B) (n : ℕ) (xs : List A) → length (map f (take n xs)) ≤ n
length-map-take f n xs = omega (arith, length-map (take n xs) f, length-take n xs)

module _ (cj : Cjson) where
  open cj use {Json}

  length-text_of : (item : Json) (key : CString) (n : ℕ) → length (text_of cj item key (suc n)) ≤ n
  unfolding text_of
  length-text_of item key n = elim (Option-cases (cj.get_object_item item key)) [
    | inl missing ↦ rw (missing, text_of) (omega arith)
    | inr (field, there) ↦ rw (there, text_of) (length-truncated n _)
  ]

  parse_step-FitsStep : (step : Json) → FitsStep (parse_step cj step)
  unfolding parse_step on_error_of
  parse_step-FitsStep step =
      let abort =
        length-or_abort (text_of cj step (codes "onError") 32)
          (length-text_of step (codes "onError") 31) in
      record {
        id_fits = omega (arith, length-text_of step (codes "id") 31);
        primitive_fits = omega (arith, length-text_of step (codes "primitive") 31);
        label_fits = omega (arith, length-text_of step (codes "label") 47);
        status_fits = omega (arith, length-text_of step (codes "status_msg") 63);
        on_error_fits = abort.0;
        on_error_set = abort.1;
      }

  parse_branch-FitsBranch : (branch : Json) → FitsBranch (parse_branch cj branch)
  unfolding parse_branch
  parse_branch-FitsBranch branch = record {
    name_fits = omega (arith, length-truncated 31 (or_empty (cj.name branch)));
    steps_fit = length-map-take _ recovery_steps_max _;
  }

  build-Fits : (root : Json) → Fits (build cj root)
  unfolding build
  build-Fits root = record {
    steps_fit = length-map-take (parse_step cj) recipe_steps_max _;
    each_step = All-map FitsStep (parse_step cj) _ parse_step-FitsStep;
    branches_fit = length-map-take (parse_branch cj) recovery_branches_max _;
    each_branch = All-map FitsBranch (parse_branch cj) _ parse_branch-FitsBranch;
  }

  parse_recovery_step-FitsRecovery : (step : Json) → FitsRecovery (parse_recovery_step cj step)
  unfolding parse_recovery_step
  parse_recovery_step-FitsRecovery step = record {
    id_fits = omega (arith, length-text_of step (codes "id") 31);
    primitive_fits = omega (arith, length-text_of step (codes "primitive") 31);
  }

  build-FitsRecipe : (root : Json) → FitsRecipe (build cj root)
  unfolding build parse_branch
  build-FitsRecipe root = record {
    recipe_id_fits = omega (arith, length-text_of root (codes "recipeId") 63);
    recipe_version_fits = omega (arith, length-text_of root (codes "recipeVersion") 15);
    name_fits = omega (arith, length-text_of root (codes "name") 63);
    each_recovery =
        All-map (λ (b : RecoveryBranch (Option Json)). All FitsRecovery b.steps) (parse_branch cj) _
          (λ branch.
            All-map FitsRecovery (parse_recovery_step cj) _ parse_recovery_step-FitsRecovery);
    arrays = build-Fits root;
  }

  -- Whatever the text is, a recipe that the parser gives fits the arrays that it is stored in: at most
  -- 140 steps, 8 branches and 8 steps in a branch; every text of the recipe, of its steps, its branches and
  -- their steps is shorter than its array; and each step says what to do on an error.
  pub parse-FitsRecipe :
      (text : List ℕ) (r : Recipe (Option Json)) → parse cj text ≡ some r → FitsRecipe r
  unfolding parse
  parse-FitsRecipe text r h = from_root (cj.parse_with_length text) h
    where
      from_root :
          (o : Option Json)
          → elim o [ none ↦ none | some root ↦ some (build cj root) ] ≡ some r
          → FitsRecipe r
      from_root none e = absurd (cc)
      from_root (some root) e = rw (← some_injective e) (build-FitsRecipe root)

  -- The counts and the texts of the steps and branches alone.
  pub parse-Fits : (text : List ℕ) (r : Recipe (Option Json)) → parse cj text ≡ some r → Fits r
  parse-Fits text r h = (parse-FitsRecipe text r h).arrays
