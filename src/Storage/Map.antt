-- ===== src/Storage/Map.antt =====
-- storage/storage_mock.c refines a map from a domain and a key to the bytes stored there.
use test_controller.Base.{
  ℕ, zero, suc, ◌≤◌, ◌<◌, ◌≡◌, refl, ap, sym, ◌∙◌, true, Option, none, some, List, [], ◌∷◌, ◌++◌,
  arith, CString, length, take, drop, take_all, truncated_fits, length-take, ltb, if◌then◌else◌,
  Option-cases, Bool-cases, inl, inr,
}
use test_controller.Base.Int.{ℤ, pos}
use mathlib.Core.Option
use test_controller.Storage.Entries.{Domain, Entry, matches, find, modify, memcpy}
use test_controller.Storage.Search.{
  same_slot, same_slot_refl, matches-matches, find-matches, find-modify_self, find-modify_other,
  find-append_none, find-append_miss, same_slot→eq, All-find,
}
use test_controller.Storage.Invariant.{IsSound, Inv}
use test_controller.Storage.{
  Store, ok, write, store_value, new_entry, overwrite, read, exists, get_size,
}

-- The bytes that a slot holds.
abbrev pub content : Entry → List ℕ
content e = take e.size e.value

unfoldable pub lookup : Store → Domain → CString → Option (List ℕ)
lookup s d k = Option.map content (find d k s.entries)

take-memcpy : (dst src : List ℕ) → take (length src) (memcpy dst src (length src)) ≡ src
unfolding memcpy
take-memcpy dst src = go src (drop (length src) dst)
  where
    go : (xs ys : List ℕ) → take (length xs) (take (length xs) xs ++ ys) ≡ xs
    go [] ys = refl
    go (x ∷ xs) ys = ap (◌∷◌ x) (go xs ys)

content-overwrite : (bytes : List ℕ) (e : Entry) → content (overwrite bytes e) ≡ bytes
unfolding overwrite
content-overwrite bytes e = take-memcpy e.value bytes

content-new_entry :
    (d : Domain) (k : CString) (bytes : List ℕ) → content (new_entry d k bytes) ≡ bytes
unfolding new_entry
content-new_entry d k bytes = take-memcpy [] bytes

pub matches-overwrite :
    (d : Domain) (k : CString) (bytes : List ℕ) (e : Entry)
    → matches d k (overwrite bytes e) ≡ matches d k e
unfolding matches overwrite
matches-overwrite d k bytes e = refl

-- A new slot is found by the pair that it was made for, if its key fits the array of 64.
pub matches-new_entry :
    (d d' : Domain) (k k' : CString) (bytes : List ℕ)
    → length k < 64
    → matches d' k' (new_entry d k bytes) ≡ same_slot d k d' k'
unfolding matches new_entry
matches-new_entry d d' k k' bytes h = rw (truncated_fits 64 k h)

module _ (d : Domain) (k : CString) (bytes : List ℕ) (d' : Domain) (k' : CString) where
  find-overwrite :
      (es : List Entry) (e : Entry)
      → find d k es ≡ some e
      → find d' k' (modify d k (overwrite bytes) es)
        ≡ (if same_slot d k d' k' then some (overwrite bytes e) else find d' k' es)
  find-overwrite es e old = elim (Bool-cases (same_slot d k d' k')) [
    | inl same ↦
        rw (same, ← (same_slot→eq d d' k k' same).0, ← (same_slot→eq d d' k k' same).1)
          (find-modify_self d k (overwrite bytes) es e old
            (matches-overwrite d k bytes e ∙ find-matches d k es e old))
    | inr other ↦ rw other (
        find-modify_other d k (overwrite bytes) d' k' es
          (λ x m. matches-overwrite d' k' bytes x ∙ matches-matches d d' k k' x m ∙ other) other)
  ]

  find-new_entry :
      (es : List Entry)
      → length k < 64
      → find d k es ≡ none
      → find d' k' (es ++ new_entry d k bytes ∷ [])
        ≡ (if same_slot d k d' k' then some (new_entry d k bytes) else find d' k' es)
  find-new_entry es short new = elim (Bool-cases (same_slot d k d' k')) [
    | inl same ↦
        rw (same, ← (same_slot→eq d d' k k' same).0, ← (same_slot→eq d d' k k' same).1)
          (find-append_none d k es (new_entry d k bytes) new
            ∙ rw (matches-new_entry d d k k bytes short, same_slot_refl d k))
    | inr other ↦ rw other (
        find-append_miss d' k' es (new_entry d k bytes)
          (matches-new_entry d d' k k' bytes short ∙ other))
  ]

  lookup-store_value :
      (s : Store)
      → length k < 64
      → (store_value s d k bytes).1 ≡ ok
      → lookup (store_value s d k bytes).0 d' k'
        ≡ (if same_slot d k d' k' then some bytes else lookup s d' k')
  unfolding lookup store_value
  lookup-store_value s short done = elim (Option-cases (find d k s.entries)) [
    | inl new ↦ ground (arith, find-new_entry s.entries short new, content-new_entry d k bytes)
    | inr (e, old) ↦
        rw (old, store_value)
          (ground (arith, find-overwrite s.entries e old, content-overwrite bytes e))
  ]

-- A write that reports success sets the map at its domain and key, and nowhere else, for a key that
-- fits a slot (below 64 bytes).
pub lookup-write :
    (s : Store) (d : Domain) (k : CString) (bytes : List ℕ) (d' : Domain) (k' : CString)
    → length k < 64
    → (write s d (some k) (some bytes)).1 ≡ ok
    → lookup (write s d (some k) (some bytes)).0 d' k'
      ≡ (if same_slot d k d' k' then some bytes else lookup s d' k')
unfolding write
lookup-write s d k bytes d' k' short done =
    ground (arith, lookup-store_value d k bytes d' k' s short)

length-content : (e : Entry) → IsSound e → length (content e) ≡ e.size
length-content e v = omega (arith, length-take e.size e.value, v.held)

take-take : (m n : ℕ) (xs : List ℕ) → m ≤ n → take m (take n xs) ≡ take m xs
take-take zero n xs h = refl
take-take (suc m) zero xs h = absurd (omega arith)
take-take (suc m) (suc n) [] h = refl
take-take (suc m) (suc n) (x ∷ xs) h = ap (◌∷◌ x) (take-take m n xs (omega arith))

-- What a read gives, by the map: 0 for an absent key, else the bytes that fit the buffer.
abbrev pub read_result : Option (List ℕ) → ℕ → ℤ × List ℕ
read_result none n = (ok, [])
read_result (some bytes) n = (pos (if ltb n (length bytes) then n else length bytes), take n bytes)

abbrev pub size_result : Option (List ℕ) → ℤ
size_result none = pos 0
size_result (some bytes) = pos (length bytes)

abbrev pub exists_result : Option (List ℕ) → ℤ
exists_result none = pos 0
exists_result (some bytes) = pos 1

read_entry :
    (e : Entry) (n : ℕ)
    → IsSound e
    → ◌≡◌ {A = ℤ × List ℕ}
        (
          pos (if ltb n e.size then n else e.size),
          take (if ltb n e.size then n else e.size) e.value,
        )
        (read_result (some (content e)) n)
read_entry e n v = elim (Bool-cases (ltb n e.size)) [
  | inl less ↦ rw (length-content e v, less) (rw (take-take n e.size e.value (ground arith)))
  | inr more ↦
      rw (length-content e v, more)
        (rw (take_all n (content e) (rw (length-content e v) (ground arith))))
]

-- In a state that satisfies the invariant the three queries answer by the map.
pub queries-lookup :
    (s : Store) (d : Domain) (k : CString) (n : ℕ)
    → Inv s
    → s.initialized ≡ true
    → (read s d (some k) (some n) ≡ read_result (lookup s d k) n)
      × (get_size s d (some k) ≡ size_result (lookup s d k))
      × (exists s d (some k) ≡ exists_result (lookup s d k))
unfolding read get_size exists lookup
queries-lookup s d k n v on = elim (Option-cases (find d k s.entries)) [
  | inl gone ↦ rw (on, gone, read, get_size, exists) (refl, refl, refl)
  | inr (e, old) ↦
      let sound = All-find IsSound d k s.entries e old v.sound in
      rw (on, old, read, get_size, exists)
        (read_entry e n sound, ap pos (sym (length-content e sound)), refl)
]
