-- ===== src/Parser.antt =====
-- src/recipe_json.c: recipe_json_parse, over cJSON as a parameter.
pub mod Limits
pub mod Runs
mod Tests
use test_controller.Base.{
  ℕ, zero, suc, Bool, true, false, not, ◌&&◌, Option, none, some, List, [], ◌∷◌, map, CString,
  codes, str_eq, truncated, take, if◌then◌else◌,
}
use test_controller.Recipe.{
  Criticality, required, critical, optional, RecoveryStep, RecoveryBranch, RecipeStep, Recipe,
  recipe_steps_max, recovery_branches_max, recovery_steps_max,
}

-- What the parser calls and reads of cJSON: an item, its fields, and the casts of its number.
pub record Cjson : Type 1 where
  pub Json : Type 0
  pub parse_with_length : List ℕ → Option Json
  pub get_object_item : Json → CString → Option Json
  pub valuestring : Json → Option CString
  pub name : Json → Option CString  -- `string`
  pub as_u32 : Json → ℕ  -- (uint32_t)valuedouble
  pub as_u8 : Json → ℕ  -- (uint8_t)valuedouble
  pub is_string : Json → Bool
  pub is_number : Json → Bool
  pub is_true : Json → Bool
  pub is_array : Json → Bool
  pub is_object : Json → Bool
  pub children : Json → List Json

abbrev pub or_empty : Option CString → CString
or_empty none = []
or_empty (some s) = s

-- The default of onError.
unfoldable pub or_abort : CString → CString
or_abort [] = codes "abort"
or_abort (c ∷ cs) = c ∷ cs

module _ (cj : Cjson) where
  open cj use {Json}

  -- strlcpy of a string field into an array of n bytes that is zero.
  unfoldable pub text_of : Json → CString → ℕ → CString
  text_of item key n = elim (cj.get_object_item item key) [
    | none ↦ []
    | some field ↦ truncated n (or_empty (cj.valuestring field))
  ]

  unfoldable pub flag_of : Json → CString → Bool → Bool
  flag_of item key default = elim (cj.get_object_item item key) [
    | none ↦ default
    | some field ↦ cj.is_true field
  ]

  -- A string that is there and says `word`.
  unfoldable pub says : Option Json → CString → Bool
  says none word = false
  says (some field) word = cj.is_string field && str_eq (or_empty (cj.valuestring field)) word

  unfoldable pub criticality_of : Json → Criticality
  unfolding says
  criticality_of step =
      let field = cj.get_object_item step (codes "criticality") in
      if says field (codes "CRITICAL")
      then critical
      else if says field (codes "OPTIONAL")
      then optional
      else required

  unfoldable pub on_error_of : Json → CString
  unfolding text_of or_abort
  on_error_of step = or_abort (text_of step (codes "onError") 32)

  unfoldable pub parse_step : Json → RecipeStep (Option Json)
  unfolding text_of flag_of criticality_of on_error_of
  parse_step step = record {
    id = text_of step (codes "id") 32;
    primitive = text_of step (codes "primitive") 32;
    label = text_of step (codes "label") 48;
    status_msg = text_of step (codes "status_msg") 64;
    on_error = on_error_of step;
    criticality = criticality_of step;
    enabled = flag_of step (codes "enabled") true;
    requires_pass = flag_of step (codes "requiresPass") false;
    params = cj.get_object_item step (codes "params");
  }

  unfoldable pub parse_recovery_step : Json → RecoveryStep (Option Json)
  unfolding text_of
  parse_recovery_step step = record {
    id = text_of step (codes "id") 32;
    primitive = text_of step (codes "primitive") 32;
    params = cj.get_object_item step (codes "params");
  }

  -- The items of an array, `none` and any other item being empty.
  abbrev pub array_items : Option Json → List Json
  array_items none = []
  array_items (some a) = if cj.is_array a then cj.children a else []

  abbrev pub object_items : Option Json → List Json
  object_items none = []
  object_items (some a) = if cj.is_object a then cj.children a else []

  unfoldable pub attempts_of : Option Json → ℕ
  attempts_of none = 1
  attempts_of (some field) = if cj.is_number field then cj.as_u8 field else 1

  unfoldable pub parse_branch : Json → RecoveryBranch (Option Json)
  unfolding says attempts_of parse_recovery_step
  parse_branch branch = record {
    name = truncated 32 (or_empty (cj.name branch));
    steps =
        map parse_recovery_step
          (take recovery_steps_max (array_items (cj.get_object_item branch (codes "steps"))));
    retry_after = not (says (cj.get_object_item branch (codes "onComplete")) (codes "abort"));
    max_attempts = attempts_of (cj.get_object_item branch (codes "maxAttempts"));
  }

  abbrev pub timeout_of : Option Json → ℕ
  timeout_of none = 0
  timeout_of (some field) = cj.as_u32 field

  -- The loops stop at the sizes of the arrays.
  unfoldable pub build : Json → Recipe (Option Json)
  unfolding text_of parse_step parse_branch
  build root = record {
    recipe_id = text_of root (codes "recipeId") 64;
    recipe_version = text_of root (codes "recipeVersion") 16;
    name = text_of root (codes "name") 64;
    timeout_ms = timeout_of (cj.get_object_item root (codes "timeoutMs"));
    steps =
        map parse_step
          (take recipe_steps_max (array_items (cj.get_object_item root (codes "steps"))));
    recovery_branches = map parse_branch (
        take recovery_branches_max
          (object_items (cj.get_object_item root (codes "recoveryBranches"))));
  }

  -- recipe_json_parse, for a text and a result that are no NULL; `none` for -1.
  unfoldable pub parse : List ℕ → Option (Recipe (Option Json))
  unfolding build
  parse text = elim (cj.parse_with_length text) [ none ↦ none | some root ↦ some (build root) ]
