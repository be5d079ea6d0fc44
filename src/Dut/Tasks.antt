-- ===== src/Dut/Tasks.antt =====
-- The tasks that src/dut_detect.c creates.
use test_controller.Base.{
  ℕ, zero, suc, ◌+◌, ◌≡◌, refl, Bool, true, false, not, Option, none, some, if◌then◌else◌,
  if_either, ap, ◌∙◌,
}
use test_controller.Dut.Detect.{Detector, start, stop, bring_up, autostart_load}

running-autostart_load : (n : Option ℕ) (s : Detector) → (autostart_load n s).running ≡ s.running
unfolding autostart_load
running-autostart_load none s = refl
running-autostart_load (some zero) s = refl
running-autostart_load (some (suc v)) s = refl

running-bring_up : (nvs : Option ℕ) (s : Detector) → (bring_up nvs s).running ≡ true
unfolding bring_up
running-bring_up nvs s =
    if_either (λ (d : Detector). d.running ≡ true) (not s.boot_delay_done)
      (running-autostart_load nvs (record s { running = true })) refl

start_down :
    (nvs : Option ℕ) (created : Bool) (s : Detector)
    → s.running ≡ false
    → start nvs created s ≡ record (bring_up nvs s) {
      handle = created;
      tasks = if created then s.tasks + 1 else s.tasks;
    }
unfolding start
start_down nvs created s idle =
    ap
      (λ b. if b then s else record (bring_up nvs s) {
        handle = created;
        tasks = if created then s.tasks + 1 else s.tasks;
      })
      idle

start_up :
    (nvs : Option ℕ) (created : Bool) (s : Detector) → s.running ≡ true → start nvs created s ≡ s
unfolding start
start_up nvs created s up =
    ap
      (λ b. if b then s else record (bring_up nvs s) {
        handle = created;
        tasks = if created then s.tasks + 1 else s.tasks;
      })
      up

-- A start behind a stop creates a task, whatever tasks there are: where the old one has not seen the
-- stop yet, there are two, and as `running` holds again neither ends.
pub start-stop :
    (nvs : Option ℕ) (s : Detector)
    → ((start nvs true (stop s)).tasks ≡ s.tasks + 1) × ((start nvs true (stop s)).running ≡ true)
unfolding stop
start-stop nvs s = rw (start_down nvs true (stop s) refl) (refl, running-bring_up nvs (stop s))

-- When the task cannot be created, `running` stays set all the same: every later start does nothing,
-- until a stop.
pub start-failed :
    (nvs nvs' : Option ℕ) (created : Bool) (s : Detector)
    → s.running ≡ false
    → ((start nvs false s).tasks ≡ s.tasks)
      × (start nvs' created (start nvs false s) ≡ start nvs false s)
start-failed nvs nvs' created s idle =
    let down = start_down nvs false s idle in
    (
      ap (λ (d : Detector). d.tasks) down,
      start_up nvs' created (start nvs false s)
          (ap (λ (d : Detector). d.running) down ∙ running-bring_up nvs s),
    )
