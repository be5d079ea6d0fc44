-- ===== src/CrashLog/Reboot.antt =====
-- The log of src/crash_log.c over a reset.
use test_controller.Base.{
  ℕ, ◌+◌, ◌-◌, ◌%◌, ◌≤◌, ◌<◌, ◌≡◌, ◌∙◌, sym, ap, refl, Bool, true, false, Option, some, List, [],
  ◌∷◌, ◌++◌, arith, ltb, if◌then◌else◌, ◌^◌, length,
}
use mathlib.Core.List.{append-nil}
use test_controller.CrashLog.{
  Reason, Crash, Log, Opens, capacity, or_zero, is_abnormal, append_entry, load, count_boot,
  record_reset, init_log, oldest, dump,
}
use test_controller.CrashLog.Ring.{
  IsRing, last_eight_lem, length-records_from, last_eight, dump-append_entry,
}

-- The pointers of the statics are those of the flash.
pub record IsSaved (s : Log) : Type 0 where
  pub head_saved : s.nvs.head ≡ some s.s_head
  pub count_saved : s.nvs.cnt ≡ some s.s_count

head_back : (n : ℕ) → n < 8 → n % 8 ≡ n
head_back n h = omega arith

count_back : (n : ℕ) → n ≤ 8 → (if ltb capacity n then capacity else n) ≡ n
count_back n h = ground arith

-- What is loaded is what was saved.
load-saved : (s : Log) → IsRing s → IsSaved s → s.nvs.boots ≡ some s.s_boot_count → load true s ≡ s
unfolding load
load-saved s v saved boots =
    ap
      (λ x. record s {
        s_head = x;
        s_count = if ltb capacity (or_zero s.nvs.cnt) then capacity else or_zero s.nvs.cnt;
        s_boot_count = or_zero s.nvs.boots;
      })
      (ap (λ o. or_zero o % 8) saved.head_saved ∙ head_back s.s_head v.head_fits)
    ∙ ap (λ x. record s { s_count = x; s_boot_count = or_zero s.nvs.boots })
        (ap (λ o. if ltb capacity (or_zero o) then capacity else or_zero o) saved.count_saved
          ∙ count_back s.s_count v.count_fits)
    ∙ ap (λ x. record s { s_boot_count = or_zero x }) boots

count_boot-keeps :
    (s : Log) → IsRing s → (dump (count_boot true s) ≡ dump s) × IsRing (count_boot true s)
unfolding count_boot dump
count_boot-keeps s v = (refl, record { head_fits = v.head_fits; count_fits = v.count_fits })

-- What a boot adds to the list of crashes.
abbrev pub crash_of : Reason → ℕ → List (Option Crash)
crash_of reason boots =
    if is_abnormal reason
    then some (record { reason = reason; boot_count = boots; prev_uptime_s = 0 }) ∷ []
    else []

last_eight-dump : (s t : Log) → dump t ≡ dump s → IsRing t → last_eight (dump s ++ []) ≡ dump s
unfolding dump
last_eight-dump s t same v =
    ap last_eight (append-nil (dump s))
    ∙ last_eight_lem (dump s) 0 (
        few (length (dump s)) t.s_count
          (sym (ap length same) ∙ length-records_from t.nvs.blobs (oldest t) t.s_count)
          v.count_fits)
  where
    few : (m n : ℕ) → m ≡ n → n ≤ 8 → m - 8 ≡ 0
    few m n h k = omega arith

record_if :
    (b pointers : Bool) (e : Crash) (s t : Log)
    → dump t ≡ dump s
    → IsRing t
    → dump (if b then append_entry true pointers e t else t)
      ≡ last_eight (dump s ++ (if b then some e ∷ [] else []))
record_if true pointers e s t same v =
    (dump-append_entry pointers e t v).0 ∙ ap (λ rs. last_eight (rs ++ some e ∷ [])) same
record_if false pointers e s t same v = same ∙ sym (last_eight-dump s t same v)

record_reset-dump :
    (pointers : Bool) (reason : Reason) (s : Log)
    → IsRing s
    → dump (
        record_reset
          (record { for_load = true; for_boots = true; for_entry = true; for_pointers = pointers })
          reason
          (count_boot true s))
      ≡ last_eight (dump s ++ crash_of reason ((s.s_boot_count + 1) % 2 ^ 32))
unfolding record_reset count_boot
record_reset-dump pointers reason s v =
    let kept = count_boot-keeps s v in
    record_if (is_abnormal reason) pointers
      (record { reason = reason; boot_count = (s.s_boot_count + 1) % 2 ^ 32; prev_uptime_s = 0 }) s
      (count_boot true s) kept.0 kept.1

-- A boot that can open the flash shows the crashes of before the reset, and behind them the crash that
-- the reset was, if it was abnormal, under the next boot number; the last eight of them.
pub init_log-dump :
    (pointers : Bool) (reason : Reason) (s : Log)
    → IsRing s
    → IsSaved s
    → s.nvs.boots ≡ some s.s_boot_count
    → dump (
        init_log
          (record { for_load = true; for_boots = true; for_entry = true; for_pointers = pointers })
          reason
          s)
      ≡ last_eight (dump s ++ crash_of reason ((s.s_boot_count + 1) % 2 ^ 32))
unfolding init_log
init_log-dump pointers reason s v saved boots =
    let o : Opens = record {
      for_load = true;
      for_boots = true;
      for_entry = true;
      for_pointers = pointers;
    } in
    ap (λ t. dump (record_reset o reason (count_boot true t))) (load-saved s v saved boots)
    ∙ record_reset-dump pointers reason s v
