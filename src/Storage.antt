-- ===== src/Storage.antt =====
-- storage/storage_mock.c: the key-value store that simulates NVS, as the list of the slots in use.
-- A pointer argument is an Option, `none` for NULL; a function returns the new state and its result.
pub mod Entries
pub mod Search
pub mod Invariant
pub mod Map
pub mod Unique
pub mod Calls
pub mod Interface
mod Tests
use test_controller.Base.{
  ℕ, zero, suc, ◌+◌, ◌-◌, ◌^◌, ◌%◌, Bool, true, false, not, ◌&&◌, ◌||◌, Option, none, some, List,
  [], ◌∷◌, ◌++◌, CString, length, take, truncated, ltb, leb, if◌then◌else◌,
}
use test_controller.Base.Int.{ℤ, pos, negsuc}
use Entries.{Domain, Entry, find, modify, memcpy, matches, domain_eq}

-- `mock_storage`; `entries` is the array up to `entry_count`, which no function but the reset lowers.
pub record Store : Type 0 where
  pub initialized : Bool
  pub entries : List Entry
  pub used_bytes : ℕ  -- uint32_t

pub data StorageType : Type 0 where
  nvs sd : StorageType

pub record StorageInfo : Type 0 where
  pub type : StorageType
  pub available : Bool
  pub total_bytes : ℕ
  pub free_bytes : ℕ

abbrev pub mock_storage_entries : ℕ
mock_storage_entries = 100

abbrev pub mock_storage_size : ℕ
mock_storage_size = 1048576

abbrev pub value_max : ℕ
value_max = 32768

-- uint32_t arithmetic wraps.
abbrev pub u32 : ℕ → ℕ
u32 n = n % 2 ^ 32

abbrev pub u32_sub : ℕ → ℕ → ℕ
u32_sub a b = u32 (a + 2 ^ 32 - b)

abbrev pub ok : ℤ
ok = pos 0

abbrev pub failed : ℤ
failed = negsuc 0

unfoldable pub mock_reset : Store
mock_reset = record { initialized = false; entries = []; used_bytes = 0 }

unfoldable pub init : Store → Store × ℤ
unfolding mock_reset
init s = if s.initialized then (s, ok) else (record cleared { initialized = true }, ok)
  where
    cleared : Store
    cleared = elim s.entries [
      | [] ↦ elim s.used_bytes [ zero ↦ mock_reset | suc n ↦ s ]
      | e ∷ es ↦ s
    ]

unfoldable pub deinit : Store → Store × ℤ
deinit s = (record s { initialized = false }, ok)

abbrev is_nvs : StorageType → Bool
is_nvs nvs = true
is_nvs sd = false

unfoldable pub get_info : Store → StorageType → Option StorageInfo
get_info s type =
    if s.initialized && is_nvs type
    then some (record {
      type = nvs;
      available = true;
      total_bytes = mock_storage_size;
      free_bytes = u32_sub mock_storage_size s.used_bytes;
    })
    else none

-- The result with the bytes that arrive in a buffer of `buffer_size`.
unfoldable pub read : Store → Domain → Option CString → Option ℕ → ℤ × List ℕ
read s d none buffer = (failed, [])
read s d (some k) none = (failed, [])
read s d (some k) (some buffer_size) =
    if not s.initialized then (failed, []) else elim (find d k s.entries) [
      | none ↦ (ok, [])
      | some e ↦
          let n = if ltb buffer_size e.size then buffer_size else e.size in (pos n, take n e.value)
    ]

pub new_entry : Domain → CString → List ℕ → Entry
new_entry d k bytes = record {
  key = truncated 64 k;
  domain = d;
  value = memcpy [] bytes (length bytes);
  size = length bytes;
  valid = true;
}

pub overwrite : List ℕ → Entry → Entry
overwrite bytes e = record e { value = memcpy e.value bytes (length bytes); size = length bytes }

-- Storage_Write behind its guard, for a value of `length bytes` bytes.
pub store_value : Store → Domain → CString → List ℕ → Store × ℤ
unfolding new_entry overwrite
store_value s d k bytes = elim (find d k s.entries) [
  | some e ↦ (
    record s {
      entries = modify d k (overwrite bytes) s.entries;
      used_bytes = u32 (u32_sub s.used_bytes e.size + length bytes);
    },
    ok,
  )
  | none ↦
      if leb mock_storage_entries (length s.entries)
      then (s, failed)
      else if ltb mock_storage_size (u32 (s.used_bytes + length bytes))
      then (s, failed)
      else (
        record s {
          entries = s.entries ++ new_entry d k bytes ∷ [];
          used_bytes = u32 (s.used_bytes + length bytes);
        },
        ok,
      )
]

unfoldable pub write : Store → Domain → Option CString → Option (List ℕ) → Store × ℤ
unfolding store_value
write s d none value = (s, failed)
write s d (some k) none = (s, failed)
write s d (some k) (some bytes) =
    if not s.initialized || ltb value_max (length bytes)
    then (s, failed)
    else store_value s d k bytes

pub invalidate : Entry → Entry
invalidate e = record e { valid = false }

unfoldable pub delete : Store → Domain → Option CString → Store × ℤ
unfolding invalidate
delete s d none = (s, failed)
delete s d (some k) = if not s.initialized then (s, failed) else elim (find d k s.entries) [
  | none ↦ (s, failed)
  | some e ↦ (
    record s {
      entries = modify d k invalidate s.entries;
      used_bytes = u32_sub s.used_bytes e.size;
    },
    ok,
  )
]

-- The loop of Storage_ClearDomain: the slots, and `used_bytes` as it goes down.
pub clear_entries : Domain → ℕ → List Entry → List Entry × ℕ
clear_entries d used [] = ([], used)
clear_entries d used (e ∷ es) =
    let hit = e.valid && domain_eq e.domain d in
    let rest = clear_entries d (if hit then u32_sub used e.size else used) es in
    ((if hit then record e { valid = false } else e) ∷ rest.0, rest.1)

unfoldable pub clear_domain : Store → Domain → Store × ℤ
unfolding clear_entries
clear_domain s d =
    if not s.initialized
    then (s, failed)
    else let (es, used) = clear_entries d s.used_bytes s.entries in
      (record s { entries = es; used_bytes = used }, ok)

unfoldable pub exists : Store → Domain → Option CString → ℤ
exists s d none = failed
exists s d (some k) =
    if not s.initialized
    then failed
    else elim (find d k s.entries) [ none ↦ pos 0 | some e ↦ pos 1 ]

unfoldable pub get_size : Store → Domain → Option CString → ℤ
get_size s d none = failed
get_size s d (some k) =
    if not s.initialized
    then failed
    else elim (find d k s.entries) [ none ↦ pos 0 | some e ↦ pos e.size ]

-- The loop of Storage_ListKeys, which stops at `max_keys`.
keys_of : Domain → ℕ → List Entry → List CString
keys_of d zero es = []
keys_of d (suc n) [] = []
keys_of d (suc n) (e ∷ es) =
    if e.valid && domain_eq e.domain d then e.key ∷ keys_of d n es else keys_of d (suc n) es

unfoldable pub list_keys : Store → Domain → ℕ → Option (List CString)
unfolding keys_of
list_keys s d max_keys = if not s.initialized then none else some (keys_of d max_keys s.entries)

-- What Storage_ReadString makes of the result of its read: a terminator is added and counted.
unfoldable pub string_result : ℤ × List ℕ → ℤ × List ℕ
string_result (pos zero, bytes) = (pos 0, [])
string_result (pos (suc n), bytes) = (pos (suc n + 1), bytes)
string_result (negsuc n, bytes) = (failed, bytes)

-- Storage_ReadString, for a buffer that is no NULL: the bytes in front of the terminator.
unfoldable pub read_string : Store → Domain → Option CString → ℕ → ℤ × List ℕ
unfolding read string_result
read_string s d key zero = (failed, [])
read_string s d key (suc n) = string_result (read s d key (some n))

-- Storage_WriteString stores the terminator too.
unfoldable pub write_string : Store → Domain → Option CString → Option CString → Store × ℤ
unfolding write
write_string s d key none = (s, failed)
write_string s d key (some str) = write s d key (some (str ++ 0 ∷ []))
