-- ===== src/CrashLog.antt =====
-- src/crash_log.c: the ring of the last eight crashes, kept in NVS.
pub mod Ring
pub mod Reboot
mod Tests
use test_controller.Base.{
  ℕ, zero, suc, ◌+◌, ◌-◌, ◌%◌, ◌^◌, Bool, true, false, not, ◌||◌, Option, none, some, List, [], ◌∷◌,
  ltb, ◌==◌, if◌then◌else◌,
}

abbrev pub capacity : ℕ
capacity = 8

-- esp_reset_reason_t
pub data Reason : Type 0 where
  unknown poweron ext sw panic int_wdt task_wdt wdt deepsleep brownout sdio : Reason

unfoldable pub is_abnormal : Reason → Bool
is_abnormal panic = true
is_abnormal int_wdt = true
is_abnormal task_wdt = true
is_abnormal wdt = true
is_abnormal brownout = true
is_abnormal unknown = false
is_abnormal poweron = false
is_abnormal ext = false
is_abnormal sw = false
is_abnormal deepsleep = false
is_abnormal sdio = false

-- crash_log_entry_t
pub record Crash : Type 0 where
  pub reason : Reason
  pub boot_count : ℕ  -- uint32_t
  pub prev_uptime_s : ℕ  -- uint32_t

-- The name space of the log: the values of its keys, `none` where one is missing.
pub record Nvs : Type 0 where
  pub head : Option ℕ
  pub cnt : Option ℕ
  pub boots : Option ℕ
  pub blobs : ℕ → Option Crash

-- The statics, and the flash.
pub record Log : Type 0 where
  pub s_head : ℕ
  pub s_count : ℕ
  pub s_boot_count : ℕ
  pub nvs : Nvs

abbrev pub or_zero : Option ℕ → ℕ
or_zero none = 0
or_zero (some n) = n

-- The key of a slot is "c" and its number modulo the capacity.
abbrev pub slot_of : ℕ → ℕ
slot_of idx = idx % 8

abbrev pub store_at : ℕ → Crash → (ℕ → Option Crash) → ℕ → Option Crash
store_at idx e blobs i = if i == idx then some e else blobs i

-- In the following `opened` says whether nvs_open succeeds.
unfoldable pub save_pointers : Bool → Log → Log
save_pointers opened s =
    if opened
    then record s { nvs = record s.nvs { head = some s.s_head; cnt = some s.s_count } }
    else s

unfoldable pub append_entry : Bool → Bool → Crash → Log → Log
unfolding save_pointers
append_entry opened opened_again e s =
    if opened
    then save_pointers opened_again (record s {
      nvs = record s.nvs { blobs = store_at (slot_of s.s_head) e s.nvs.blobs };
      s_head = (s.s_head + 1) % 8;
      s_count = if ltb s.s_count capacity then s.s_count + 1 else s.s_count;
    })
    else s

-- What the first part of crash_log_init loads.
unfoldable pub load : Bool → Log → Log
load opened s =
    let head = if opened then or_zero s.nvs.head else 0 in
    let count = if opened then or_zero s.nvs.cnt else 0 in
    record s {
      s_head = head % 8;
      s_count = if ltb capacity count then capacity else count;
      s_boot_count = if opened then or_zero s.nvs.boots else 0;
    }

-- The boot counter goes up, and is stored.
unfoldable pub count_boot : Bool → Log → Log
count_boot opened s =
    let boots = (s.s_boot_count + 1) % 2 ^ 32 in
    record s {
      s_boot_count = boots;
      nvs = if opened then record s.nvs { boots = some boots } else s.nvs;
    }

-- The answers of the four calls of nvs_open at a boot.
pub record Opens : Type 0 where
  pub for_load : Bool
  pub for_boots : Bool
  pub for_entry : Bool
  pub for_pointers : Bool

-- An abnormal reset is recorded.
unfoldable pub record_reset : Opens → Reason → Log → Log
unfolding append_entry is_abnormal
record_reset o reason s =
    if is_abnormal reason
    then append_entry o.for_entry o.for_pointers
        (record { reason = reason; boot_count = s.s_boot_count; prev_uptime_s = 0 }) s
    else s

unfoldable pub init_log : Opens → Reason → Log → Log
unfolding load count_boot record_reset
init_log o reason s = record_reset o reason (count_boot o.for_boots (load o.for_load s))

-- The records from a slot on, in the order of crash_log_dump_console.
unfoldable pub records_from : (ℕ → Option Crash) → ℕ → ℕ → List (Option Crash)
records_from blobs idx zero = []
records_from blobs idx (suc n) = blobs (slot_of idx) ∷ records_from blobs (idx + 1) n

abbrev pub oldest : Log → ℕ
oldest s = (s.s_head + 8 - s.s_count) % 8

-- What crash_log_dump_console reads in its loop, the oldest first.
unfoldable pub dump : Log → List (Option Crash)
unfolding records_from
dump s = records_from s.nvs.blobs (oldest s) s.s_count

-- crash_log_dump_console, for a name space that opens or not.
unfoldable pub dump_console : Bool → Log → List (Option Crash)
unfolding dump
dump_console opened s = if (s.s_count == 0) || not opened then [] else dump s

-- crash clear
unfoldable pub clear : Bool → Log → Log
unfolding save_pointers
clear opened s = save_pointers opened (record s { s_head = 0; s_count = 0 })
