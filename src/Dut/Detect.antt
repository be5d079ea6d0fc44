-- ===== src/Dut/Detect.antt =====
-- src/dut_detect.c: the statics, one pass of the task's loop, and the functions that other parts call.
use test_controller.Base.{
  ℕ, zero, suc, ◌+◌, Bool, true, false, not, ◌&&◌, Option, none, some, List, [], ◌∷◌, ◌++◌, ltb,
  leb, ◌==◌, if◌then◌else◌,
}

abbrev pub threshold : ℕ
threshold = 2000

abbrev pub debounce : ℕ
debounce = 3

-- The statics; `tasks` counts the detection tasks that exist, `handle` says whether s_task_handle is set.
pub record Detector : Type 0 where
  pub running : Bool
  pub autostart_paused : Bool
  pub dut_present : Bool
  pub first_report : Bool
  pub boot_delay_done : Bool
  pub selftest_cooldown_us : ℕ
  pub last_mv : ℕ
  pub handle : Bool
  pub tasks : ℕ

unfoldable pub boot : Detector
boot = record {
  running = false;
  autostart_paused = false;
  dut_present = false;
  first_report = true;
  boot_delay_done = false;
  selftest_cooldown_us = 0;
  last_mv = 0;
  handle = false;
  tasks = 0;
}

-- The locals of the task.
pub record Pending : Type 0 where
  pub debounce_count : ℕ
  pub pending_state : Bool

abbrev pub no_pending : Pending
no_pending = record { debounce_count = 0; pending_state = false }

-- What one pass meets: the sample (`none` if it fails), whether the state machine is idle, the timer.
pub record Reading : Type 0 where
  pub sample : Option ℕ
  pub idle : Bool
  pub now_us : ℕ

pub data Report : Type 0 where
  published : Bool → ℕ → Report  -- tc_mqtt_publish_dut_presence
  started : Report  -- tc_sm_cmd_start

-- publish_dut_presence
unfoldable pub publish_presence : Bool → ℕ → Reading → Detector → List Report
publish_presence present mv r s =
    published present mv
    ∷ (if present && (not s.autostart_paused && (r.idle && leb s.selftest_cooldown_us r.now_us))
        then started ∷ []
        else [])

abbrev pub equal : Bool → Bool → Bool
equal true b = b
equal false b = not b

-- A reading against a presence that was reported before.
unfoldable pub debounced :
    Bool → ℕ → Reading → Detector → Pending → Detector × Pending × List Report
unfolding publish_presence
debounced detected mv r s l =
    let count = if equal detected l.pending_state then l.debounce_count + 1 else 1 in
    if equal detected s.dut_present
    then (s, record l { debounce_count = 0 }, [])
    else if leb debounce count
    then (
      record s { dut_present = detected },
      record { debounce_count = 0; pending_state = detected },
      publish_presence detected mv r (record s { dut_present = detected }),
    )
    else (s, record { debounce_count = count; pending_state = detected }, [])

-- A valid sample.
unfoldable pub on_sample : ℕ → Reading → Detector → Pending → Detector × Pending × List Report
unfolding debounced publish_presence
on_sample mv r s l =
    let detected = ltb mv threshold in
    let seen = record s { last_mv = mv } in
    let first = record seen { dut_present = detected; first_report = false } in
    if s.first_report
    then (first, record l { debounce_count = 0 }, publish_presence detected mv r first)
    else debounced detected mv r seen l

-- One pass of the loop of dut_detect_task; 0 mV is a conversion that is not complete.
unfoldable pub poll : Reading → Detector × Pending → Detector × Pending × List Report
unfolding on_sample
poll r (s, l) = elim r.sample [
  | none ↦ (s, l, [])
  | some mv ↦ if mv == 0 then (s, l, []) else on_sample mv r s l
]

-- The passes of the task while it runs, with all that it reports.
unfoldable pub polls : List Reading → Detector × Pending → Detector × Pending × List Report
unfolding poll
polls [] (s, l) = (s, l, [])
polls (r ∷ rs) (s, l) =
    let (s', l', now) = poll r (s, l) in
    let (s'', l'', later) = polls rs (s', l') in (s'', l'', now ++ later)

-- autostart_load_nvs; `none` when the name space cannot be opened, else the value (0 if there is none).
unfoldable pub autostart_load : Option ℕ → Detector → Detector
autostart_load none s = record s { autostart_paused = true }
autostart_load (some zero) s = record s { autostart_paused = true }
autostart_load (some (suc v)) s = s

-- dut_detect_start up to the creation of the task.
unfoldable pub bring_up : Option ℕ → Detector → Detector
unfolding autostart_load
bring_up nvs s =
    let up = record s { running = true } in
    if not s.boot_delay_done then autostart_load nvs up else up

-- dut_detect_start; `created` says whether xTaskCreate succeeds.
unfoldable pub start : Option ℕ → Bool → Detector → Detector
unfolding bring_up
start nvs created s = if s.running then s else record (bring_up nvs s) {
  handle = created;
  tasks = if created then s.tasks + 1 else s.tasks;
}

-- The beginning of dut_detect_task, behind the delay of the first boot.
unfoldable pub task_begin : Detector → Detector
task_begin s = record s { boot_delay_done = true }

-- The end of dut_detect_task, when a pass finds `running` false.
unfoldable pub task_end : Detector → Detector
task_end s = record s { handle = false; tasks = elim s.tasks [ zero ↦ 0 | suc n ↦ n ] }

unfoldable pub stop : Detector → Detector
stop s = record s { running = false }

unfoldable pub pause : Detector → Detector
pause s = record s { autostart_paused = true }

unfoldable pub resume : Detector → Detector
resume s = record s { autostart_paused = false }

-- tc_sm_dut_detect_on_idle: a cooldown of ten seconds.
unfoldable pub on_idle : ℕ → Option ℕ → Bool → Detector → Detector
unfolding start
on_idle now_us nvs created s =
    start nvs created (record s { selftest_cooldown_us = now_us + 10000000 })

-- tc_sm_dut_detect_off_idle
unfoldable pub off_idle : Detector → Detector
unfolding stop
off_idle s = stop s

-- dut autostart <on|off>, once the setting is stored.
unfoldable pub set_autostart : Bool → Detector → Detector
set_autostart enable s = record s { autostart_paused = not enable }

unfoldable pub is_ready : Detector → Bool
is_ready s = not s.first_report
