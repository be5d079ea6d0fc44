-- ===== src/Storage/Unique.antt =====
-- No two live slots of storage/storage_mock.c have one domain and key, so a deletion removes the key.
use test_controller.Base.{
  ℕ, ◌<◌, ◌≡◌, refl, ◌∙◌, true, false, ◌&&◌, Option, none, some, List, [], ◌∷◌, ◌++◌, arith,
  CString, length, if◌then◌else◌, Option-cases, Bool-cases, inl, inr, str_eq_refl,
}
use test_controller.Storage.Entries.{
  Domain, Entry, domain_eq, domain_eq→eq, domain_eq_refl, matches, find, modify,
}
use test_controller.Storage.Search.{
  same_slot, same_slot→eq, find-modify_other, find-append_miss, matches→eq, matches-valid,
}
use test_controller.Storage.Map.{lookup, matches-new_entry, matches-overwrite}
use test_controller.Storage.{
  Store, ok, write, store_value, new_entry, overwrite, delete, invalidate, clear_domain,
  clear_entries, u32_sub,
}

-- Behind each live slot there is no live slot of its domain and key.
abbrev pub IsUnique : List Entry → Type 0
IsUnique [] = Unit {0}
IsUnique (e ∷ es) = (e.valid ≡ true → find e.domain e.key es ≡ none) × IsUnique es

matches_own : (e : Entry) → e.valid ≡ true → matches e.domain e.key e ≡ true
unfolding matches
matches_own e h = rw (h, domain_eq_refl e.domain, str_eq_refl e.key)

matches_invalid : (d : Domain) (k : CString) (e : Entry) → matches d k (invalidate e) ≡ false
unfolding matches invalidate
matches_invalid d k e = refl

-- Invalidating a slot makes no pair found that was not.
find-invalidate-none :
    (d d' : Domain) (k k' : CString) (es : List Entry)
    → find d' k' es ≡ none
    → find d' k' (modify d k invalidate es) ≡ none
unfolding find modify
find-invalidate-none d d' k k' [] h = refl
find-invalidate-none d d' k k' (e ∷ es) h =
    ground (arith, matches_invalid d' k' e, find-invalidate-none d d' k k' es)

find-overwrite-none :
    (d d' : Domain) (k k' : CString) (bytes : List ℕ) (es : List Entry)
    → find d' k' es ≡ none
    → find d' k' (modify d k (overwrite bytes) es) ≡ none
unfolding find modify
find-overwrite-none d d' k k' bytes [] h = refl
find-overwrite-none d d' k k' bytes (e ∷ es) h =
    ground (arith, matches-overwrite d' k' bytes e, find-overwrite-none d d' k k' bytes es)

invalidate-IsUnique :
    (d : Domain) (k : CString) (es : List Entry) → IsUnique es → IsUnique (modify d k invalidate es)
unfolding modify invalidate
invalidate-IsUnique d k [] u = tt
invalidate-IsUnique d k (e ∷ es) u = elim (Bool-cases (matches d k e)) [
  | inl hit ↦ rw hit ((λ h. cc), u.1)
  | inr miss ↦
      rw miss
        ((λ h. find-invalidate-none d e.domain k e.key es (u.0 h)), invalidate-IsUnique d k es u.1)
]

overwrite-IsUnique :
    (d : Domain) (k : CString) (bytes : List ℕ) (es : List Entry)
    → IsUnique es
    → IsUnique (modify d k (overwrite bytes) es)
unfolding modify overwrite
overwrite-IsUnique d k bytes [] u = tt
overwrite-IsUnique d k bytes (e ∷ es) u = elim (Bool-cases (matches d k e)) [
  | inl hit ↦ rw hit (u.0, u.1)
  | inr miss ↦ rw miss (
    (λ h. find-overwrite-none d e.domain k e.key bytes es (u.0 h)),
    overwrite-IsUnique d k bytes es u.1,
  )
]

-- A live slot that the search passed over is of another pair.
other_slot :
    (d : Domain) (k : CString) (e : Entry)
    → e.valid ≡ true
    → matches d k e ≡ false
    → same_slot d k e.domain e.key ≡ false
other_slot d k e live miss = elim (Bool-cases (same_slot d k e.domain e.key)) [
  | inl same ↦
      let (p, q) = same_slot→eq d e.domain k e.key same in
      let own : matches d k e ≡ true = rw (p, q) (matches_own e live) in cc
  | inr other ↦ other
]

append-IsUnique :
    (d : Domain) (k : CString) (bytes : List ℕ) (es : List Entry)
    → length k < 64
    → find d k es ≡ none
    → IsUnique es
    → IsUnique (es ++ new_entry d k bytes ∷ [])
unfolding find
append-IsUnique d k bytes [] short new u = ((λ h. refl), tt)
append-IsUnique d k bytes (e ∷ es) short new u = elim (Bool-cases (matches d k e)) [
  | inl hit ↦ absurd (ground arith)
  | inr miss ↦ (
    (λ live.
        find-append_miss e.domain e.key es (new_entry d k bytes)
          (matches-new_entry d e.domain k e.key bytes short ∙ other_slot d k e live miss)
        ∙ u.0 live),
    append-IsUnique d k bytes es short (ground arith) u.1,
  )
]

store_value-IsUnique :
    (s : Store) (d : Domain) (k : CString) (bytes : List ℕ)
    → length k < 64
    → IsUnique s.entries
    → IsUnique (store_value s d k bytes).0.entries
unfolding store_value
store_value-IsUnique s d k bytes short u = elim (Option-cases (find d k s.entries)) [
  | inl new ↦ ground (arith, append-IsUnique d k bytes s.entries short new u)
  | inr (e, old) ↦ rw (old, store_value) (overwrite-IsUnique d k bytes s.entries u)
]

-- A write keeps the live slots apart, for a key below 64 bytes.
pub write-IsUnique :
    (s : Store) (d : Domain) (k : CString) (value : Option (List ℕ))
    → length k < 64
    → IsUnique s.entries
    → IsUnique (write s d (some k) value).0.entries
unfolding write
write-IsUnique s d k none short u = u
write-IsUnique s d k (some bytes) short u = ground (arith, store_value-IsUnique s d k bytes short u)

pub delete-IsUnique :
    (s : Store) (d : Domain) (key : Option CString)
    → IsUnique s.entries
    → IsUnique (delete s d key).0.entries
unfolding delete
delete-IsUnique s d none u = u
delete-IsUnique s d (some k) u = elim (Option-cases (find d k s.entries)) [
  | inl gone ↦ rw (gone, delete) (ground arith)
  | inr (e, old) ↦ rw (old, delete) (ground (arith, invalidate-IsUnique d k s.entries u))
]

find-invalidate_self :
    (d : Domain) (k : CString) (es : List Entry)
    → IsUnique es
    → find d k (modify d k invalidate es) ≡ none
unfolding find modify
find-invalidate_self d k [] u = refl
find-invalidate_self d k (e ∷ es) u = elim (Bool-cases (matches d k e)) [
  | inl hit ↦ rw (hit, matches_invalid d k e) (gone hit)
  | inr miss ↦ rw (miss, miss) (find-invalidate_self d k es u.1)
]
  where
    gone : matches d k e ≡ true → find d k es ≡ none
    gone hit = let (p, q) = matches→eq d k e hit in rw (← p, ← q) (u.0 (matches-valid d k e hit))

delete-lookup_entries :
    (d d' : Domain) (k k' : CString) (es : List Entry)
    → IsUnique es
    → find d' k' (modify d k invalidate es) ≡ (if same_slot d k d' k' then none else find d' k' es)
delete-lookup_entries d d' k k' es u = elim (Bool-cases (same_slot d k d' k')) [
  | inl same ↦
      rw (same, ← (same_slot→eq d d' k k' same).0, ← (same_slot→eq d d' k k' same).1)
        (find-invalidate_self d k es u)
  | inr other ↦
      rw other (find-modify_other d k invalidate d' k' es (λ x m. matches_invalid d' k' x) other)
]

-- A deletion that reports success removes its domain and key from the map, and nothing else, where
-- the live slots are apart.
pub lookup-delete :
    (s : Store) (d : Domain) (k : CString) (d' : Domain) (k' : CString)
    → IsUnique s.entries
    → (delete s d (some k)).1 ≡ ok
    → lookup (delete s d (some k)).0 d' k' ≡ (if same_slot d k d' k' then none else lookup s d' k')
unfolding delete lookup
lookup-delete s d k d' k' u done = elim (Option-cases (find d k s.entries)) [
  | inl gone ↦ absurd (ground arith)
  | inr (e, old) ↦ rw (old, delete) (ground (arith, delete-lookup_entries d d' k k' s.entries u))
]

find-clear_entries :
    (d : Domain) (used : ℕ) (es : List Entry) (d' : Domain) (k' : CString)
    → find d' k' (clear_entries d used es).0 ≡ (if domain_eq d d' then none else find d' k' es)
unfolding clear_entries find matches
find-clear_entries d used [] d' k' = ground arith
find-clear_entries d used (e ∷ es) d' k' =
    let next = (if e.valid && domain_eq e.domain d then u32_sub used e.size else used) in
    ground (
      arith,
      domain_eq→eq e.domain d,
      domain_eq→eq e.domain d',
      domain_eq→eq d d',
      domain_eq_refl d,
      find-clear_entries d next es d' k',
    )

-- Clearing a domain of an initialized store empties the map there, and keeps the other domains.
pub lookup-clear_domain :
    (s : Store) (d d' : Domain) (k' : CString)
    → s.initialized ≡ true
    → lookup (clear_domain s d).0 d' k' ≡ (if domain_eq d d' then none else lookup s d' k')
unfolding clear_domain lookup
lookup-clear_domain s d d' k' on =
    rw on (ground (arith, find-clear_entries d s.used_bytes s.entries d' k'))
