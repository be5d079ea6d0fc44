-- ===== src/Watchdog/Tests.antt =====
-- Runs of the watchdog of src/recipe_task.c.
use test_controller.Base.{◌≡◌, refl, true, false, none, some, List, [], ◌∷◌}
use test_controller.Base.Int.{pos}
use test_controller.Dut.Detect.{Detector, boot}
use test_controller.Watchdog.{Observation, watch, pass, after_pass, on_current}
use test_controller.Watchdog.Removal.{
  IsLow, Removed, watch-Removed, removal_seen, Moment, leaving_idle, observe, removal_unseen,
}

-- Nothing is there, and no current flows.
abbrev gone : Observation
gone = record { testing = true; still_testing = true; current_ma = some (pos 0); present = false }

abbrev failed_read : Observation
failed_read = record gone { current_ma = none }

interrupted : watch 0 (gone ∷ (failed_read ∷ (gone ∷ []))) ≡ false
unfolding watch pass after_pass on_current
interrupted = refl

removed_at_once : watch 0 (gone ∷ (gone ∷ [])) ≡ true
unfolding watch pass after_pass on_current
removed_at_once = refl

gone-IsLow : IsLow gone
gone-IsLow = record { testing = (refl, refl); low = refl }

watch-Removed_example : Removed (gone ∷ (gone ∷ []))
watch-Removed_example = watch-Removed (gone ∷ (gone ∷ [])) removed_at_once

removal_seen_example : watch 0 (gone ∷ (gone ∷ [])) ≡ true
removal_seen_example = removal_seen 0 gone gone [] gone-IsLow gone-IsLow refl refl

abbrev inserted : Detector
inserted = record boot { running = true; dut_present = true; first_report = false }

-- The device is pulled out during the test: the current stays at 0.
abbrev pulled : List Moment
pulled =
    record {
      calls = leaving_idle ∷ [];
      in_test = true;
      still_in_test = true;
      current = some (pos 0);
    }
    ∷ (record { calls = []; in_test = true; still_in_test = true; current = some (pos 0) } ∷ [])

removal_unseen_example : watch 0 (observe inserted pulled) ≡ false
unfolding boot
removal_unseen_example = removal_unseen inserted 0 pulled refl
