-- ===== src/Lib.antt =====
-- The test controller of the G3 boards: the recipe engine, which runs a test recipe against a device
-- under test, with the parser of recipes, the check buffer and the key-value store; the supply of the
-- device with its calibration, the detection and the identification of a device, the watchdog and the
-- gate of a test; and the crash log.
--
-- A recipe is a list of steps, which the parser (src/recipe_json.c) reads from a JSON text. Each step
-- names a primitive; the engine (src/recipe_engine.c) looks it up, calls it, and reads from the check
-- buffer (src/cmd_selftest.c) whether it passed. A failure is handled by the criticality of the step.
-- Recipes, calibration and configuration are kept in the key-value store (storage/storage_mock.c on
-- hosts, storage/storage_spiffs.c on the device). The device is supplied by two regulators
-- (src/cmd_vdac.c), whose duty the calibration (src/tc_cal.c) computes from a voltage. The detection
-- (src/dut_detect.c) says whether a device is seated; the regulators ask it before they raise the
-- voltage, and the watchdog of a test (src/recipe_task.c) asks it when the current is gone. In front
-- of a test the gate (src/pre_test_gate.c) powers the device and checks it. The crash log
-- (src/crash_log.c) keeps the last abnormal resets. On the host build a recipe manager
-- (recipes/recipe_manager_mock.c) keeps recipes in the store as well, and commands go to a device over
-- a mock of a serial port (dut, hal/mock).
--
-- Files
--   Base       names of the libraries, Boolean tests, lists over the native numbers, integers, strings
--   Storage    storage/storage_mock.c; its children hold the slots (Entries), the lemmas on the search
--              loops (Search), the invariant (Invariant), the view as a map (Map, Unique), sequences of
--              calls (Calls), and the interface of storage.h that its clients take (Interface)
--   Selftest   the check buffer of src/cmd_selftest.c: report, st_record, st_record_mv,
--              selftest_reset_checks, selftest_first_failed_check (lemmas in Laws)
--   Parser     src/recipe_json.c: recipe_json_parse over cJSON (Cjson), the sizes of what it gives
--              (Limits), and runs of it (Runs)
--   Json       the calls of cJSON (JsonApi) with the laws that its documentation gives (IsJson), and a
--              tree that answers them (Tree)
--   Primitives src/recipe_primitives.c: the table of the primitives and its lookup
--   RecipeJson src/recipe_json.c: recipe_json_serialize, recipe_json_from_hardcoded and the recipes in the
--              store; the text read back (RoundTrip) and through the store (Stored); the console command
--              recipe (Commands)
--   RecipeTask src/recipe_task.c: recipe_run_task, from the store to the report (Reports), and
--              from an upload at the console to the task (Upload)
--   Config     src/tc_config.c: the tree with its paths and accessors (Paths), load and save (Stored) and
--              the console command (Commands)
--   Cal        src/tc_cal.c: apply_defaults, the setters and getters, tc_cal_vdut_duty_for_mv (proofs in
--              Duty), the corrections (Apply); the JSON text (Json) and its round trip (Channels, Copies,
--              RoundTrip); the clock (Clock) with the calendar (Calendar); the profile file (Profile); load
--              and save (Stored, Persistence); the console command (Commands)
--   Vdac       src/cmd_vdac.c: vdac_set_duty, vdac_set_enable, vdac_set_voltage, vdac_disable; the
--              console commands (Commands, Characterize); what they can do while a device may be
--              seated (Interlock, Sessions) and what they leave (Shutdown)
--   Dut        src/dut_detect.c: dut_detect_sample (Sample), the statics, the passes of the task and the
--              public functions (Detect); proofs on the debounce, the auto-start and the tasks
--   Watchdog   src/recipe_task.c: dut_watchdog_task, and what the detection lets it see (Removal)
--   PreGate    src/pre_test_gate.c: pre_gate_task over the regulators and the calibration; what a pass
--              asks for (Passing), the power that it leaves (Power), the range of its readings (Range)
--   CrashLog   src/crash_log.c: append_entry, crash_log_init, the dump; as a list (Ring), over a reset
--              (Reboot)
--   Identify   src/dut_identify.c: dut_identify_uart and extract_hex_token; the loop over the bytes (Runs)
--              and the token that comes out (Longest)
--   Uart       hal/mock/hal_uart_mock.c: the serial ports of the host build; their buffers (Invariant) and
--              HAL_UART_ReadUntil (Reading)
--   DutInterface dut/dut_interface_mock.c: the commands to a device over a serial port; the lines of its
--              replies (Lines, Replies) and the numbers in them (Values)
--   RecipeManager recipes/recipe_manager_mock.c and recipes/recipe.h: recipes as images in the store; the lock
--              (Locking), saving and restarting (Restart)
--   Spiffs     storage/storage_spiffs.c: the store of the device, files and blobs; which entries share a place
--              (Slots), the list of the keys (Listing), and a recipe in the place of the configuration
--              (Collision)
--   Recipe     the structures of src/recipe_json.h and src/recipe_engine.h
--   Engine     src/recipe_engine.c: find_branch and run_recovery_branch (Machine), the retry loop of a
--              step (Attempts), recipe_engine_run (Steps); the other children hold the proofs
-- A child named Tests holds runs at concrete inputs.
--
-- How the code is modelled. A C string is the list of its bytes in front of the terminator, and
-- strlcpy into an array of n keeps n - 1 of them. A pointer is an Option, none for NULL. An array with
-- a count is the list up to the count. uint32_t arithmetic wraps, written out; int is an integer
-- without bounds, since the overflow of a signed int is undefined in C; where the result of utc_epoch
-- overflows a long of the device (32 bits), the model has none. A write of a list out of range leaves
-- the list as it is, so the guards of an index are read off from what the getters give. A function
-- that changes state takes the state and returns the new one beside its result. Log output is left
-- out. In the engine the primitives, the timer, the measurement log and the power switch are a
-- parameter (Environment), and what it publishes is a list of events, the latest first. Floats are a
-- parameter of the calibration, cJSON (vendor/cjson) is a parameter of the parser (Cjson), and calls
-- of the drivers answer as an argument says. A text that is parsed ends at its first NUL, which
-- cJSON_ParseWithLength reads across.
--
-- Bounds. The loops are recursive on the list that they walk; the retry loop on the attempts that are
-- left. No fuel is used.
--
-- The clients of the store take it as a record of operations (KeyValue) with the laws of a map (IsMap),
-- which the mock of the store fills; the store of the device is not one, since its domains share
-- files. cJSON is a record of its calls with laws (IsJson), which the trees of
-- Json/Tree fill; the clock and the file system of the calibration are parameters as well.
--
-- Not modelled: the tests of the console commands and the primitives, which drive hardware step by
-- step (src/cmd_selftest.c past its buffer, src/g3_primitives.c, src/cmd_tie.c, src/cmd_flash.c); the
-- mocks of the pins, converters and clock, and the drivers of the device (hal, components/g3_hal); the
-- board support, the display and the start of the program (bsp, app, src/main.cpp); the vendored
-- cJSON.
mod Base
pub mod Storage
pub mod Selftest
pub mod Recipe
pub mod Engine
pub mod Parser
pub mod Json
pub mod Primitives
pub mod RecipeJson
pub mod RecipeTask
pub mod Config
pub mod Cal
pub mod Vdac
pub mod Dut
pub mod Watchdog
pub mod PreGate
pub mod CrashLog
pub mod Identify
pub mod Uart
pub mod DutInterface
pub mod RecipeManager
pub mod Spiffs
