-- ===== src/Storage/Search.antt =====
-- Lemmas on the search loops of storage/storage_mock.c.
use test_controller.Base.{
  All, ℕ, ◌+◌, ◌≤◌, ◌≡◌, refl, Bool, true, false, ◌&&◌, none, some, List, [], ◌∷◌, ◌++◌, arith,
  CString, str_eq, str_eq→eq, str_eq_refl, length, if◌then◌else◌, Bool-cases, inl, inr,
}
use test_controller.Storage.Entries.{
  Domain, Entry, domain_eq, domain_eq→eq, domain_eq_refl, matches, find, modify,
}

-- Two (domain, key) pairs are one.
abbrev pub same_slot : Domain → CString → Domain → CString → Bool
same_slot d k d' k' = domain_eq d d' && str_eq k k'

pub same_slot_refl : (d : Domain) (k : CString) → same_slot d k d k ≡ true
same_slot_refl d k = rw (domain_eq_refl d, str_eq_refl k)

-- A slot that one pair finds is found by another if and only if the pairs are one.
pub matches-matches :
    (d d' : Domain) (k k' : CString) (e : Entry)
    → matches d k e ≡ true
    → matches d' k' e ≡ same_slot d k d' k'
unfolding matches
matches-matches d d' k k' e h = ground (arith, domain_eq→eq e.domain d, str_eq→eq e.key k)

abbrev pub weight : Entry → ℕ
weight e = if e.valid then e.size else 0

unfoldable pub valid_bytes : List Entry → ℕ
valid_bytes [] = 0
valid_bytes (e ∷ es) = weight e + valid_bytes es

pub matches-valid : (d : Domain) (k : CString) (e : Entry) → matches d k e ≡ true → e.valid ≡ true
unfolding matches
matches-valid d k e h = ground arith

-- Changing the slot that is found.
module _ (d : Domain) (k : CString) (f : Entry → Entry) where
  pub length-modify : (es : List Entry) → length (modify d k f es) ≡ length es
  unfolding modify
  length-modify [] = refl
  length-modify (e ∷ es) = ground (arith, length-modify es)

  pub All-modify {κ} :
      (P : Entry → Type κ) (es : List Entry)
      → ((e : Entry) → P e → P (f e))
      → All P es
      → All P (modify d k f es)
  unfolding modify
  All-modify P [] keep h = tt
  All-modify P (e ∷ es) keep h = elim (Bool-cases (matches d k e)) [
    | inl hit ↦ rw hit (keep e h.0, h.1)
    | inr miss ↦ rw miss (h.0, All-modify P es keep h.1)
  ]

  pub valid_bytes-modify :
      (es : List Entry) (e : Entry)
      → find d k es ≡ some e
      → valid_bytes (modify d k f es) + weight e ≡ valid_bytes es + weight (f e)
  unfolding modify find valid_bytes
  valid_bytes-modify [] e h = ground arith
  valid_bytes-modify (x ∷ es) e h = ground (arith, valid_bytes-modify es e)

  -- The pair that is found again, where the change keeps the slot's pair.
  pub find-modify_self :
      (es : List Entry) (e : Entry)
      → find d k es ≡ some e
      → matches d k (f e) ≡ true
      → find d k (modify d k f es) ≡ some (f e)
  unfolding modify find
  find-modify_self [] e h m = ground arith
  find-modify_self (x ∷ es) e h m = ground (arith, find-modify_self es e)

  -- Another pair, where the change makes no slot of that pair.
  pub find-modify_other :
      (d' : Domain) (k' : CString) (es : List Entry)
      → ((e : Entry) → matches d k e ≡ true → matches d' k' (f e) ≡ false)
      → same_slot d k d' k' ≡ false
      → find d' k' (modify d k f es) ≡ find d' k' es
  unfolding modify find
  find-modify_other d' k' [] keep h = refl
  find-modify_other d' k' (x ∷ es) keep h =
      ground (arith, keep x, matches-matches d d' k k' x, find-modify_other d' k' es keep h)

pub find-matches :
    (d : Domain) (k : CString) (es : List Entry) (e : Entry)
    → find d k es ≡ some e
    → matches d k e ≡ true
unfolding find
find-matches d k [] e h = ground arith
find-matches d k (x ∷ es) e h = elim (Bool-cases (matches d k x)) [
  | inl hit ↦ ground (arith)
  | inr miss ↦ find-matches d k es e (ground arith)
]

pub weight-find :
    (d : Domain) (k : CString) (es : List Entry) (e : Entry)
    → find d k es ≡ some e
    → (weight e ≡ e.size) × (weight e ≤ valid_bytes es)
unfolding find valid_bytes
weight-find d k [] e h = ground arith
weight-find d k (x ∷ es) e h = ground (arith, weight-find d k es e, matches-valid d k x)

pub All-find {κ} :
    (P : Entry → Type κ) (d : Domain) (k : CString) (es : List Entry) (e : Entry)
    → find d k es ≡ some e
    → All P es
    → P e
unfolding find
All-find P d k [] e h a = absurd (ground arith)
All-find P d k (x ∷ es) e h a = elim (Bool-cases (matches d k x)) [
  | inl hit ↦ rw (← hit_is x e es hit h) a.0
  | inr miss ↦ All-find P d k es e (rw miss at h) a.1
]
  where
    hit_is :
        (x e : Entry) (es : List Entry) → matches d k x ≡ true → find d k (x ∷ es) ≡ some e → x ≡ e
    hit_is x e es hit h = ground arith

-- Appending a slot.
pub find-append_none :
    (d : Domain) (k : CString) (es : List Entry) (e : Entry)
    → find d k es ≡ none
    → find d k (es ++ e ∷ []) ≡ (if matches d k e then some e else none)
unfolding find
find-append_none d k [] e h = refl
find-append_none d k (x ∷ es) e h = ground (arith, find-append_none d k es e)

pub find-append_miss :
    (d : Domain) (k : CString) (es : List Entry) (e : Entry)
    → matches d k e ≡ false
    → find d k (es ++ e ∷ []) ≡ find d k es
unfolding find
find-append_miss d k [] e h = ground arith
find-append_miss d k (x ∷ es) e h = ground (arith, find-append_miss d k es e)

pub valid_bytes-append :
    (es : List Entry) (e : Entry) → valid_bytes (es ++ e ∷ []) ≡ valid_bytes es + weight e
unfolding valid_bytes
valid_bytes-append [] e = omega arith
valid_bytes-append (x ∷ es) e = omega (arith, valid_bytes-append es e)

pub All-append {κ} :
    (P : Entry → Type κ) (es : List Entry) (e : Entry) → All P es → P e → All P (es ++ e ∷ [])
All-append P [] e h p = (p, tt)
All-append P (x ∷ es) e h p = (h.0, All-append P es e h.1 p)

pub find-valid :
    (d : Domain) (k : CString) (es : List Entry) (e : Entry) → find d k es ≡ some e → e.valid ≡ true
find-valid d k es e h = matches-valid d k e (find-matches d k es e h)

pub same_slot→eq :
    (d d' : Domain) (k k' : CString) → same_slot d k d' k' ≡ true → (d ≡ d') × (k ≡ k')
same_slot→eq d d' k k' h = ground (arith, domain_eq→eq d d', str_eq→eq k k')

pub matches→eq :
    (d : Domain) (k : CString) (e : Entry) → matches d k e ≡ true → (e.domain ≡ d) × (e.key ≡ k)
unfolding matches
matches→eq d k e h = ground (arith, domain_eq→eq e.domain d, str_eq→eq e.key k)
