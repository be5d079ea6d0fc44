-- ===== src/CrashLog/Tests.antt =====
-- Runs of src/crash_log.c.
use test_controller.Base.{
  ℕ, ◌+◌, ◌%◌, ◌^◌, ◌≡◌, refl, true, Option, none, some, [], ◌∷◌, ◌++◌, arith,
}
use test_controller.CrashLog.{
  Reason, panic, brownout, poweron, Crash, Log, Opens, append_entry, save_pointers, init_log,
  record_reset, count_boot, load, is_abnormal, dump, records_from,
}
use test_controller.CrashLog.Ring.{IsRing, last_eight, dump-append_entry}
use test_controller.CrashLog.Reboot.{crash_of, init_log-dump}

-- A new board.
abbrev new_board : Log
new_board = record {
  s_head = 0;
  s_count = 0;
  s_boot_count = 0;
  nvs = record { head = none; cnt = none; boots = none; blobs = λ i. none };
}

abbrev all_open : Opens
all_open = record { for_load = true; for_boots = true; for_entry = true; for_pointers = true }

crash : Reason → ℕ → Option Crash
crash reason boots = some (record { reason = reason; boot_count = boots; prev_uptime_s = 0 })

third_boot :
    dump
      (init_log all_open brownout (init_log all_open panic (init_log all_open poweron new_board)))
    ≡ crash panic 2 ∷ (crash brownout 3 ∷ [])
unfolding init_log record_reset count_boot load append_entry save_pointers is_abnormal dump
    records_from crash
third_boot = refl

-- A full ring that wraps.
abbrev full_ring : Log
full_ring = record {
  s_head = 3;
  s_count = 8;
  s_boot_count = 40;
  nvs = record {
    head = some 3;
    cnt = some 8;
    boots = some 40;
    blobs = λ i. some (record { reason = panic; boot_count = i; prev_uptime_s = 0 });
  };
}

full_ring-IsRing : IsRing full_ring
full_ring-IsRing = record { head_fits = omega arith; count_fits = omega arith }

abbrev wet : Crash
wet = record { reason = brownout; boot_count = 41; prev_uptime_s = 0 }

dump-append_entry_example :
    (dump (append_entry true true wet full_ring) ≡ last_eight (dump full_ring ++ some wet ∷ []))
    × IsRing (append_entry true true wet full_ring)
dump-append_entry_example = dump-append_entry true wet full_ring full_ring-IsRing

init_log-dump_example :
    dump (init_log all_open brownout full_ring)
    ≡ last_eight (dump full_ring ++ crash_of brownout ((40 + 1) % 2 ^ 32))
init_log-dump_example =
    init_log-dump true brownout full_ring full_ring-IsRing
      (record { head_saved = refl; count_saved = refl }) refl
