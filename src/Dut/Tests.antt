-- ===== src/Dut/Tests.antt =====
-- Runs of src/dut_detect.c.
use test_controller.Base.{ℕ, ◌≡◌, refl, true, false, some, [], ◌∷◌, arith}
use test_controller.Dut.Detect.{
  Detector, Pending, Reading, published, started, boot, no_pending, poll, polls, on_sample,
  debounced, publish_presence,
}
use test_controller.Dut.Sample.{Answers, sample, measure, write_regs, raw_mv}
use test_controller.Dut.Debounce.{IsSettling, settled, polls-settled}

reading : ℕ → Reading
reading mv = record { sample = some mv; idle = true; now_us = 60000000 }

-- The detector after its first report, with no device.
abbrev absent : Detector
absent = record boot { running = true; first_report = false; boot_delay_done = true; tasks = 1 }

two_dips :
    (polls (reading 1666 ∷ (reading 1666 ∷ (reading 3000 ∷ []))) (absent, no_pending)).0.dut_present
    ≡ false
unfolding polls poll on_sample debounced reading boot
two_dips = refl

three_dips :
    (polls (reading 1666 ∷ (reading 1666 ∷ (reading 1666 ∷ []))) (absent, no_pending)).2
    ≡ published true 1666 ∷ (started ∷ [])
unfolding polls poll on_sample debounced publish_presence reading boot
three_dips = refl

abbrev working : Answers
working = record { lock = true; initialized = true; write_ok = λ reg. true; bytes = some (142, 48) }

reads : (sample working).1 ≡ some 1666
unfolding sample measure write_regs raw_mv
reads = refl

absent-IsSettling : IsSettling absent no_pending
unfolding boot
absent-IsSettling = record { reported = refl; few = omega arith; other = λ h. absurd (omega arith) }

polls-settled_example :
    IsSettling
      (polls (reading 1666 ∷ []) (absent, no_pending)).0
      (polls (reading 1666 ∷ []) (absent, no_pending)).1
    × ((
      (polls (reading 1666 ∷ []) (absent, no_pending)).0.dut_present,
      (polls (reading 1666 ∷ []) (absent, no_pending)).1.debounce_count,
    )
        ≡ settled (reading 1666 ∷ []) (absent.dut_present, no_pending.debounce_count))
polls-settled_example = polls-settled (reading 1666 ∷ []) absent no_pending absent-IsSettling

abbrev second_dip : Pending
second_dip = record { debounce_count = 2; pending_state = true }
