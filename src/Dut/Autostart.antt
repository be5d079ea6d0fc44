-- ===== src/Dut/Autostart.antt =====
-- When src/dut_detect.c starts a test by itself.
use test_controller.Base.{
  ℕ, ◌≤◌, ◌≡◌, Bool, true, false, Option, none, some, List, [], ◌∷◌, arith, ltb, ◌==◌,
  if◌then◌else◌, ◌⊎◌,
}
use test_controller.Dut.Detect.{
  Detector, Pending, Reading, Report, published, started, threshold, publish_presence, debounced,
  on_sample, poll,
}

-- A start among the reports.
unfoldable pub Starts : List Report → Type 0
Starts [] = ⊥
Starts (started ∷ es) = Unit
Starts (published present mv ∷ es) = Starts es

-- What has to hold for a start.
pub record MayStart (r : Reading) (s : Detector) : Type 0 where
  pub idle : r.idle ≡ true
  pub enabled : s.autostart_paused ≡ false
  pub cooled : s.selftest_cooldown_us ≤ r.now_us

publish_presence-Starts :
    (present : Bool) (mv : ℕ) (r : Reading) (s : Detector)
    → Starts (publish_presence present mv r s)
    → (present ≡ true) × MayStart r s
unfolding publish_presence Starts
publish_presence-Starts present mv r s h = ground arith

debounced-Starts :
    (d : Bool) (mv : ℕ) (r : Reading) (s : Detector) (l : Pending)
    → Starts (debounced d mv r s l).2
    → ((debounced d mv r s l).0.dut_present ≡ true) × (s.dut_present ≡ false) × MayStart r s
unfolding debounced Starts
debounced-Starts d mv r s l h =
    ground (arith, publish_presence-Starts d mv r (record s { dut_present = d }))

on_sample-Starts :
    (mv : ℕ) (r : Reading) (s : Detector) (l : Pending)
    → Starts (on_sample mv r s l).2
    → ((on_sample mv r s l).0.dut_present ≡ true)
      × ((s.first_report ≡ true) ⊎ (s.dut_present ≡ false))
      × MayStart r s
unfolding on_sample Starts
on_sample-Starts mv r s l h =
    let d = ltb mv threshold in
    ground (
      arith,
      publish_presence-Starts d mv r
          (record s { last_mv = mv; dut_present = d; first_report = false }),
      debounced-Starts d mv r (record s { last_mv = mv }) l,
    )

-- A pass of the detection starts a test only on an insertion (the first report, or a presence that was
-- absent before), which it reports as present, and only while the state machine is idle, the
-- auto-start is not paused and the cooldown is over.
pub poll-Starts :
    (r : Reading) (s : Detector) (l : Pending)
    → Starts (poll r (s, l)).2
    → ((poll r (s, l)).0.dut_present ≡ true)
      × ((s.first_report ≡ true) ⊎ (s.dut_present ≡ false))
      × MayStart r s
unfolding poll Starts
poll-Starts r s l h = by_sample r.sample h
  where
    passed : Option ℕ → Detector × Pending × List Report
    passed o = elim o [
      | none ↦ (s, l, [])
      | some mv ↦ if mv == 0 then (s, l, []) else on_sample mv r s l
    ]

    by_sample :
        (o : Option ℕ)
        → Starts (passed o).2
        → ((passed o).0.dut_present ≡ true)
          × ((s.first_report ≡ true) ⊎ (s.dut_present ≡ false))
          × MayStart r s
    by_sample none e = absurd e
    by_sample (some mv) e = by_zero (mv == 0) e
      where
        by_zero :
            (b : Bool)
            → Starts (if b then (s, l, []) else on_sample mv r s l).2
            → ((if b then (s, l, []) else on_sample mv r s l).0.dut_present ≡ true)
              × ((s.first_report ≡ true) ⊎ (s.dut_present ≡ false))
              × MayStart r s
        by_zero true g = absurd g
        by_zero false g = on_sample-Starts mv r s l g
