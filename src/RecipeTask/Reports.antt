-- ===== src/RecipeTask/Reports.antt =====
-- src/recipe_task.c: what a task runs of a recipe that was serialized and stored.
use test_controller.Selftest.{Selftest}
use test_controller.Recipe.{Recipe}
