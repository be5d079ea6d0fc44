-- ===== src/Storage/Calls.antt =====
-- Histories of calls of storage/storage_mock.c, from a reset store.
use test_controller.Base.{
  ℕ, suc, ◌+◌, ◌≤◌, ◌<◌, ◌≡◌, refl, ap, true, false, ◌&&◌, Option, none, some, List, [], ◌∷◌, arith,
  CString, length, length-append, length-take, take, truncated, str_eq, str_eq→eq, if◌then◌else◌,
  ltb, Bool-cases, inl, inr,
}
use test_controller.Storage.Entries.{Domain, Entry, domain_eq, matches, find}
use test_controller.Storage.Search.{length-modify, find-append_none, weight-find}
use test_controller.Storage.Invariant.{
  Inv, write-Inv, delete-Inv, clear_domain-Inv, init-Inv, mock_reset-Inv, used_small,
}
use test_controller.Storage.Map.{lookup}
use test_controller.Storage.{
  Store, StorageInfo, ok, failed, nvs, mock_storage_entries, mock_storage_size, value_max, u32,
  u32_sub, mock_reset, init, deinit, get_info, write, store_value, new_entry, overwrite, invalidate,
  delete, clear_domain, clear_entries,
}

-- The calls that change the state, but for the test helper that wipes it.
pub data Call : Type 0 where
  inits deinits : Call
  writes : Domain → Option CString → Option (List ℕ) → Call
  deletes : Domain → Option CString → Call
  clears : Domain → Call

unfoldable pub step : Store → Call → Store
step s inits = (init s).0
step s deinits = (deinit s).0
step s (writes d key value) = (write s d key value).0
step s (deletes d key) = (delete s d key).0
step s (clears d) = (clear_domain s d).0

unfoldable pub run : Store → List Call → Store
run s [] = s
run s (c ∷ cs) = run (step s c) cs

step-Inv : (s : Store) (c : Call) → Inv s → Inv (step s c)
unfolding step deinit
step-Inv s inits v = init-Inv s v
step-Inv s deinits v = ground arith
step-Inv s (writes d key value) v = write-Inv s d key value v
step-Inv s (deletes d key) v = delete-Inv s d key v
step-Inv s (clears d) v = clear_domain-Inv s d v

run_from-Inv : (s : Store) (cs : List Call) → Inv s → Inv (run s cs)
unfolding run
run_from-Inv s [] v = v
run_from-Inv s (c ∷ cs) v = run_from-Inv (step s c) cs (step-Inv s c v)

-- After any calls on a reset store `used_bytes` is the sum of the sizes of the live slots, there are
-- at most 100 slots, and each holds the bytes that its size says, at most 32768.
pub run-Inv : (cs : List Call) → Inv (run mock_reset cs)
run-Inv cs = run_from-Inv mock_reset cs mock_reset-Inv

length-clear_entries :
    (d : Domain) (used : ℕ) (es : List Entry) → length (clear_entries d used es).0 ≡ length es
unfolding clear_entries
length-clear_entries d used [] = refl
length-clear_entries d used (e ∷ es) = ap suc (
    length-clear_entries d (if e.valid && domain_eq e.domain d then u32_sub used e.size else used)
      es)

write_slots :
    (s : Store) (d : Domain) (key : Option CString) (value : Option (List ℕ))
    → length s.entries ≤ length (write s d key value).0.entries
unfolding write store_value
write_slots s d none value = omega arith
write_slots s d (some k) none = omega arith
write_slots s d (some k) (some bytes) = ground (
  arith,
  length-append s.entries (new_entry d k bytes ∷ []),
  length-modify d k (overwrite bytes) s.entries,
)

delete_slots :
    (s : Store) (d : Domain) (key : Option CString)
    → length (delete s d key).0.entries ≡ length s.entries
unfolding delete
delete_slots s d none = refl
delete_slots s d (some k) = ground (arith, length-modify d k invalidate s.entries)

step_slots : (s : Store) (c : Call) → length s.entries ≤ length (step s c).entries
unfolding step deinit init mock_reset clear_domain
step_slots s inits = ground arith
step_slots s deinits = ground arith
step_slots s (writes d key value) = write_slots s d key value
step_slots s (deletes d key) = omega (arith, delete_slots s d key)
step_slots s (clears d) = ground (arith, length-clear_entries d s.used_bytes s.entries)

run_slots : (s : Store) (cs : List Call) → length s.entries ≤ length (run s cs).entries
unfolding run
run_slots s [] = omega arith
run_slots s (c ∷ cs) = omega (arith, step_slots s c, run_slots (step s c) cs)

-- Once 100 slots are in use, deletions and clears free none: after any further calls a write of a key
-- that is not there is refused, however few bytes are in use.
pub full_stays_full :
    (s : Store) (cs : List Call) (d : Domain) (k : CString) (value : Option (List ℕ))
    → mock_storage_entries ≤ length s.entries
    → find d k (run s cs).entries ≡ none
    → write (run s cs) d (some k) value ≡ (run s cs, failed)
unfolding write store_value
full_stays_full s cs d k none full gone = refl
full_stays_full s cs d k (some bytes) full gone = ground (arith, run_slots s cs)

matches_long :
    (d : Domain) (k : CString) (bytes : List ℕ)
    → 64 ≤ length k
    → matches d k (new_entry d k bytes) ≡ false
unfolding matches new_entry truncated
matches_long d k bytes long = elim (Bool-cases (str_eq (take 63 k) k)) [
  | inl same ↦ absurd (omega (arith, length-take 63 k, ap length (str_eq→eq (take 63 k) k same)))
  | inr other ↦ rw other (ground arith)
]

-- A key of 64 bytes or more is cut when it is stored: the write reports success, and the key is not
-- found.
pub long_key_lost :
    (s : Store) (d : Domain) (k : CString) (bytes : List ℕ)
    → 64 ≤ length k
    → lookup s d k ≡ none
    → (write s d (some k) (some bytes)).1 ≡ ok
    → lookup (write s d (some k) (some bytes)).0 d k ≡ none
unfolding write store_value lookup
long_key_lost s d k bytes long gone done =
    ground
      (arith, matches_long d k bytes long, find-append_none d k s.entries (new_entry d k bytes))

-- Replacing a value checks no capacity: where the new total passes the 1 MB of the mock, the write is
-- accepted and the free bytes that Storage_GetInfo reports wrap to more than the total.
pub overfull_free_bytes :
    (s : Store) (d : Domain) (k : CString) (bytes : List ℕ) (e : Entry)
    → Inv s
    → s.initialized ≡ true
    → find d k s.entries ≡ some e
    → length bytes ≤ value_max
    → mock_storage_size + e.size < s.used_bytes + length bytes
    → ((write s d (some k) (some bytes)).1 ≡ ok)
      × ((i : StorageInfo) × (get_info (write s d (some k) (some bytes)).0 nvs ≡ some i)
          × (i.total_bytes < i.free_bytes))
unfolding write store_value get_info
overfull_free_bytes s d k bytes e v on old small over =
    let fits : ltb value_max (length bytes) ≡ false = ground arith in
    rw (on, fits, old, write, store_value)
      (
        refl,
        (
          record {
            type = nvs;
            available = true;
            total_bytes = mock_storage_size;
            free_bytes =
                u32_sub mock_storage_size (u32 (u32_sub s.used_bytes e.size + length bytes));
          },
          rw (on, get_info),
          ground (arith, used_small s v, weight-find d k s.entries e old, v.counted),
        ),
      )
