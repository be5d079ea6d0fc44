-- ===== src/Storage/Invariant.antt =====
-- What holds of the state of storage/storage_mock.c between two calls.
use test_controller.Base.{
  All, ℕ, ◌+◌, ◌*◌, ◌≤◌, ◌<◌, ◌≡◌, refl, Option, none, some, List, [], ◌∷◌, ◌++◌, arith, CString,
  length, length-append, take, drop, if◌then◌else◌, Option-cases, Bool-cases, inl, inr, ◌&&◌, ◌^◌,
}
use test_controller.Storage.Entries.{Domain, Entry, domain_eq, find, modify, memcpy}
use test_controller.Storage.Search.{
  weight, valid_bytes, length-modify, All-modify, valid_bytes-modify, weight-find, find-valid,
  valid_bytes-append, All-append,
}
use test_controller.Storage.{
  Store, mock_storage_entries, value_max, u32_sub, mock_reset, init, write, store_value, new_entry,
  overwrite, delete, invalidate, clear_domain, clear_entries, write_string,
}

-- A slot holds what its size says, within the array of 32768 bytes.
pub record IsSound (e : Entry) : Type 0 where
  pub fits : e.size ≤ value_max
  pub held : e.size ≤ length e.value

pub record Inv (s : Store) : Type 0 where
  pub counted : s.used_bytes ≡ valid_bytes s.entries
  pub few : length s.entries ≤ mock_storage_entries
  pub sound : All IsSound s.entries

valid_bytes_bounded : (es : List Entry) → All IsSound es → valid_bytes es ≤ value_max * length es
unfolding valid_bytes
valid_bytes_bounded [] h = omega arith
valid_bytes_bounded (e ∷ es) h = ground (arith, valid_bytes_bounded es h.1, h.0.fits)

length-take_append : (xs ys : List ℕ) → length (take (length xs) xs ++ ys) ≡ length xs + length ys
length-take_append [] ys = omega arith
length-take_append (x ∷ xs) ys = omega (arith, length-take_append xs ys)

pub memcpy_holds : (dst src : List ℕ) → length src ≤ length (memcpy dst src (length src))
unfolding memcpy
memcpy_holds dst src = omega (arith, length-take_append src (drop (length src) dst))

overwrite-IsSound :
    (bytes : List ℕ) (e : Entry)
    → length bytes ≤ value_max
    → IsSound e
    → IsSound (overwrite bytes e)
unfolding overwrite
overwrite-IsSound bytes e h v = record { fits = h; held = memcpy_holds e.value bytes }

new_entry-IsSound :
    (d : Domain) (k : CString) (bytes : List ℕ)
    → length bytes ≤ value_max
    → IsSound (new_entry d k bytes)
unfolding new_entry
new_entry-IsSound d k bytes h = record { fits = h; held = memcpy_holds [] bytes }

weight-overwrite :
    (bytes : List ℕ) (e : Entry)
    → weight (overwrite bytes e) ≡ (if e.valid then length bytes else 0)
unfolding overwrite
weight-overwrite bytes e = refl

-- Under the invariant the sums do not wrap.
pub used_small : (s : Store) → Inv s → s.used_bytes ≤ value_max * mock_storage_entries
used_small s v = omega (arith, v.counted, v.few, valid_bytes_bounded s.entries v.sound)

store_new-Inv :
    (s : Store) (d : Domain) (k : CString) (bytes : List ℕ)
    → length bytes ≤ value_max
    → Inv s
    → find d k s.entries ≡ none
    → Inv (store_value s d k bytes).0
unfolding store_value
store_new-Inv s d k bytes h v new = ground (
  arith,
  used_small s v,
  v.sound,
  new_entry-IsSound d k bytes h,
  length-append s.entries (new_entry d k bytes ∷ []),
  All-append IsSound s.entries (new_entry d k bytes),
  valid_bytes-append s.entries (new_entry d k bytes),
)

store_old-Inv :
    (s : Store) (d : Domain) (k : CString) (bytes : List ℕ) (e : Entry)
    → length bytes ≤ value_max
    → Inv s
    → find d k s.entries ≡ some e
    → Inv (store_value s d k bytes).0
unfolding store_value overwrite
store_old-Inv s d k bytes e h v old =
    rw (old, store_value)
      (record {
        counted = ground (
          arith,
          used_small s v,
          v.counted,
          find-valid d k s.entries e old,
          weight-find d k s.entries e old,
          valid_bytes-modify d k (overwrite bytes) s.entries e old,
        );
        few = rw (length-modify d k (overwrite bytes) s.entries) v.few;
        sound =
            All-modify d k (overwrite bytes) IsSound s.entries (λ x. overwrite-IsSound bytes x h)
              v.sound;
      })

store_value-Inv :
    (s : Store) (d : Domain) (k : CString) (bytes : List ℕ)
    → length bytes ≤ value_max
    → Inv s
    → Inv (store_value s d k bytes).0
store_value-Inv s d k bytes h v = elim (Option-cases (find d k s.entries)) [
  | inl new ↦ store_new-Inv s d k bytes h v new
  | inr (e, old) ↦ store_old-Inv s d k bytes e h v old
]

pub write-Inv :
    (s : Store) (d : Domain) (key : Option CString) (value : Option (List ℕ))
    → Inv s
    → Inv (write s d key value).0
unfolding write
write-Inv s d none value v = v
write-Inv s d (some k) none v = v
write-Inv s d (some k) (some bytes) v = ground (arith, store_value-Inv s d k bytes)

pub write_string-Inv :
    (s : Store) (d : Domain) (key str : Option CString) → Inv s → Inv (write_string s d key str).0
unfolding write_string
write_string-Inv s d key none v = v
write_string-Inv s d key (some str) v = write-Inv s d key (some (str ++ 0 ∷ [])) v

invalidate-IsSound : (e : Entry) → IsSound e → IsSound (invalidate e)
unfolding invalidate
invalidate-IsSound e v = record { fits = v.fits; held = v.held }

delete_old-Inv :
    (s : Store) (d : Domain) (k : CString) (e : Entry)
    → Inv s
    → find d k s.entries ≡ some e
    → Inv (record s {
      entries = modify d k invalidate s.entries;
      used_bytes = u32_sub s.used_bytes e.size;
    })
unfolding invalidate
delete_old-Inv s d k e v old = record {
  counted = ground (
    arith,
    used_small s v,
    v.counted,
    find-valid d k s.entries e old,
    weight-find d k s.entries e old,
    valid_bytes-modify d k invalidate s.entries e old,
  );
  few = rw (length-modify d k invalidate s.entries) v.few;
  sound = All-modify d k invalidate IsSound s.entries invalidate-IsSound v.sound;
}

pub delete-Inv : (s : Store) (d : Domain) (key : Option CString) → Inv s → Inv (delete s d key).0
unfolding delete
delete-Inv s d none v = v
delete-Inv s d (some k) v = elim (Option-cases (find d k s.entries)) [
  | inl gone ↦ rw (gone, delete) (ground arith)
  | inr (e, old) ↦ rw (old, delete) (ground (arith, delete_old-Inv s d k e v old))
]

clear_entries_lem :
    (d : Domain) (used : ℕ) (es : List Entry) (other : ℕ)
    → used ≡ valid_bytes es + other
    → used < 2 ^ 32
    → All IsSound es
    → ((clear_entries d used es).1 ≡ valid_bytes (clear_entries d used es).0 + other)
      × (length (clear_entries d used es).0 ≡ length es)
      × All IsSound (clear_entries d used es).0
unfolding clear_entries valid_bytes
clear_entries_lem d used [] other e b h = (e, refl, tt)
clear_entries_lem d used (x ∷ es) other e b h =
    elim (Bool-cases (x.valid && domain_eq x.domain d)) [
      | inl hit ↦ rw hit (
          let ih =
            clear_entries_lem d (u32_sub used x.size) es other (ground arith) (ground arith) h.1 in
          ground (arith, ih, h.0))
      | inr kept ↦ rw kept (
          let ih = clear_entries_lem d used es (weight x + other) (ground arith) b h.1 in
          ground (arith, ih, h.0))
    ]

pub clear_domain-Inv : (s : Store) (d : Domain) → Inv s → Inv (clear_domain s d).0
unfolding clear_domain
clear_domain-Inv s d v =
    let l =
      clear_entries_lem d s.used_bytes s.entries 0 (omega (arith, v.counted))
        (omega (arith, used_small s v)) v.sound in
    ground (arith, l, v.few)

pub init-Inv : (s : Store) → Inv s → Inv (init s).0
unfolding init mock_reset valid_bytes
init-Inv s v = ground arith

pub mock_reset-Inv : Inv mock_reset
unfolding mock_reset valid_bytes
mock_reset-Inv = omega arith
