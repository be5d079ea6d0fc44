-- ===== src/Primitives/Tests.antt =====
-- Runs of src/recipe_primitives.c.
use test_controller.Base.{◌≡◌, refl, none, some, codes, str_eq}
use test_controller.Primitives.{primitives, find_primitive, lookup_primitive}

unknown : lookup_primitive (some (codes "delay")) ≡ none
unfolding lookup_primitive find_primitive primitives str_eq
unknown = refl
