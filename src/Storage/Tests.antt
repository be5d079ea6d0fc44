-- ===== src/Storage/Tests.antt =====
-- Runs of storage/storage_mock.c, and its theorems at concrete stores.
use test_controller.Base.{
  All, ℕ, zero, suc, ◌≡◌, refl, true, false, some, List, [], ◌∷◌, arith, codes, str_eq, length,
  truncated, replicate, length-replicate,
}
use test_controller.Base.Int.{pos}
use test_controller.Storage.Entries.{
  recipes, calibration, Entry, domain_eq, matches, find, modify, memcpy,
}
use test_controller.Storage.Search.{valid_bytes}
use test_controller.Storage.Invariant.{IsSound, Inv}
use test_controller.Storage.Map.{lookup, lookup-write}
use test_controller.Storage.Calls.{Call, inits, writes, deletes, step, run, run-Inv}
use test_controller.Storage.{Store, mock_reset, init, write, delete, read, list_keys}

-- One key in each of two domains.
abbrev cal_entry : Entry
cal_entry = record {
  key = codes "cal";
  domain = calibration;
  value = 1 ∷ 2 ∷ 3 ∷ [];
  size = 3;
  valid = true;
}

abbrev recipe_entry : Entry
recipe_entry = record { key = codes "g3"; domain = recipes; value = 7 ∷ []; size = 1; valid = true }

abbrev stocked : Store
stocked = record { initialized = true; entries = cal_entry ∷ recipe_entry ∷ []; used_bytes = 4 }

stocked-Inv : Inv stocked
unfolding valid_bytes
stocked-Inv = omega arith

-- A shorter value leaves the tail of the old one in the slot, and it is not read.
shorter :
    (read
      (write stocked calibration (some (codes "cal")) (some (9 ∷ []))).0
      calibration
      (some (codes "cal"))
      (some 10))
    ≡ (pos 1, 9 ∷ [])
unfolding read write find modify memcpy matches domain_eq str_eq
shorter = refl

history : List Call
history =
    inits
    ∷ writes recipes (some (codes "a")) (some (5 ∷ 6 ∷ []))
    ∷ writes recipes (some (codes "b")) (some (4 ∷ []))
    ∷ deletes recipes (some (codes "a"))
    ∷ []

history_lists : list_keys (run mock_reset history) recipes 20 ≡ some (codes "b" ∷ [])
unfolding history run step init mock_reset write delete list_keys find modify memcpy matches
    domain_eq str_eq truncated
history_lists = refl

lookup-write_example :
    lookup (write stocked recipes (some (codes "g4")) (some (8 ∷ []))).0 calibration (codes "cal")
    ≡ some (1 ∷ 2 ∷ 3 ∷ [])
unfolding lookup find matches domain_eq str_eq write truncated
lookup-write_example =
    lookup-write stocked recipes (codes "g4") (8 ∷ []) calibration (codes "cal") (omega arith) refl

run-Inv_example : Inv (run mock_reset history)
run-Inv_example = run-Inv history

abbrev dead_entry : Entry
dead_entry = record { key = codes "x"; domain = recipes; value = []; size = 0; valid = false }

-- A hundred deleted slots.
abbrev worn_out : Store
worn_out = record { initialized = true; entries = replicate 100 dead_entry; used_bytes = 0 }

full_value : List ℕ
full_value = replicate 32768 0

length-full_value : length full_value ≡ 32768
unfolding full_value
length-full_value = length-replicate {A = ℕ} 32768 0

abbrev full_entry : Entry
full_entry = record {
  key = codes "full";
  domain = recipes;
  value = full_value;
  size = 32768;
  valid = true;
}

full_entry-IsSound : IsSound full_entry
full_entry-IsSound = record { fits = omega arith; held = omega (arith, length-full_value) }

-- Thirty-one values of the largest size, and two small values more.
abbrev nearly_full : Store
nearly_full = record {
  initialized = true;
  entries = cal_entry ∷ recipe_entry ∷ replicate 31 full_entry;
  used_bytes = 1015812;
}

All-replicate : (n : ℕ) → All IsSound (replicate n full_entry)
All-replicate zero = tt
All-replicate (suc n) = (full_entry-IsSound, All-replicate n)

nearly_full-Inv : Inv nearly_full
unfolding valid_bytes
nearly_full-Inv = record {
  counted = refl;
  few = omega arith;
  sound = (
    record { fits = omega arith; held = omega arith },
    (record { fits = omega arith; held = omega arith }, All-replicate 31),
  );
}
