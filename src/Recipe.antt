-- ===== src/Recipe.antt =====
-- src/recipe_json.h and src/recipe_engine.h: the recipe that the parser builds and the engine runs,
-- and the result of a run. `P` is the type of a step's parameters (a pointer into the cJSON tree).
use test_controller.Base.{ℕ, Bool, List, CString}
use test_controller.Base.Int.{ℤ}

pub data Criticality : Type 0 where
  required critical optional : Criticality

pub record RecoveryStep (P : Type 0) : Type 0 where
  pub id : CString
  pub primitive : CString
  pub params : P

pub record RecoveryBranch (P : Type 0) : Type 0 where
  pub name : CString
  pub steps : List (RecoveryStep P)
  pub retry_after : Bool
  pub max_attempts : ℕ  -- uint8_t

pub record RecipeStep (P : Type 0) : Type 0 where
  pub id : CString
  pub primitive : CString
  pub label : CString
  pub status_msg : CString
  pub on_error : CString
  pub criticality : Criticality
  pub enabled : Bool
  pub requires_pass : Bool
  pub params : P

-- `steps` and `recovery_branches` are the arrays up to their counts.
pub record Recipe (P : Type 0) : Type 0 where
  pub recipe_id : CString
  pub recipe_version : CString
  pub name : CString
  pub timeout_ms : ℕ  -- uint32_t
  pub steps : List (RecipeStep P)
  pub recovery_branches : List (RecoveryBranch P)

abbrev pub recipe_steps_max : ℕ
recipe_steps_max = 140

abbrev pub recovery_branches_max : ℕ
recovery_branches_max = 8

abbrev pub recovery_steps_max : ℕ
recovery_steps_max = 8

pub data Outcome : Type 0 where
  pass fail abort timeout : Outcome

pub record StepResult : Type 0 where
  pub step_id : CString
  pub passed : Bool
  pub measured_value : ℤ
  pub has_value : Bool
  pub duration_ms : ℕ  -- uint32_t

-- `step_results` is the array up to `step_result_count`.
pub record RunResult : Type 0 where
  pub outcome : Outcome
  pub failed_step : CString
  pub duration_ms : ℕ  -- uint32_t
  pub pass_count : ℕ
  pub total_count : ℕ
  pub step_results : List StepResult
