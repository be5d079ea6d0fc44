-- ===== src/Primitives/Lookup.antt =====
-- src/recipe_primitives.c: the lookup finds exactly the entries of the table.
use test_controller.Base.{
  ◌≡◌, ◌↔◌, ◌⊎◌, inl, inr, refl, Bool, true, false, not, ◌&&◌, some, List, [], ◌∷◌, CString, str_eq,
  str_eq→eq, str_eq_refl, Bool-cases, arith, if◌then◌else◌,
}
use test_controller.Primitives.{
  Primitive, PrimitiveEntry, primitives, find_primitive, lookup_primitive,
}

-- The table has an entry of that name and function.
abbrev pub Lists : CString → Primitive → List PrimitiveEntry → Type 0
Lists id fn [] = ⊥
Lists id fn (e ∷ es) = ((e.id ≡ id) × (e.fn ≡ fn)) ⊎ Lists id fn es

names : CString → List PrimitiveEntry → Bool
names id [] = false
names id (e ∷ es) = if str_eq e.id id then true else names id es

distinct : List PrimitiveEntry → Bool
unfolding names
distinct [] = true
distinct (e ∷ es) = not (names e.id es) && distinct es

Lists-names :
    (id : CString) (fn : Primitive) (es : List PrimitiveEntry) → Lists id fn es → names id es ≡ true
unfolding names
Lists-names id fn [] h = absurd h
Lists-names id fn (e ∷ es) (inl (same, f)) = rw (same, str_eq_refl id) refl
Lists-names id fn (e ∷ es) (inr h) = ground (arith, Lists-names id fn es h)

found-Lists :
    (id : CString) (fn : Primitive) (es : List PrimitiveEntry)
    → find_primitive id es ≡ some fn
    → Lists id fn es
unfolding find_primitive
found-Lists id fn [] h = absurd (cc)
found-Lists id fn (e ∷ es) h = elim (Bool-cases (str_eq e.id id)) [
  | inl same ↦ inl (str_eq→eq e.id id same, ground (arith, same))
  | inr other ↦ inr (found-Lists id fn es (ground (arith, other)))
]

Lists-found :
    (id : CString) (fn : Primitive) (es : List PrimitiveEntry)
    → distinct es ≡ true
    → Lists id fn es
    → find_primitive id es ≡ some fn
unfolding find_primitive distinct
Lists-found id fn [] d h = absurd h
Lists-found id fn (e ∷ es) d (inl (same, f)) = rw (same, str_eq_refl id, f) refl
Lists-found id fn (e ∷ es) d (inr h) = elim (Bool-cases (str_eq e.id id)) [
  | inl same ↦ absurd (ground (arith, str_eq→eq e.id id same, Lists-names id fn es h))
  | inr other ↦ rw other (Lists-found id fn es (ground (arith, d)) h)
]

primitives-distinct : distinct primitives ≡ true
unfolding distinct names primitives str_eq
primitives-distinct = refl

-- The lookup of a name gives a function exactly when the table has an entry of the two: no entry hides
-- another.
pub lookup_primitive-Lists :
    (id : CString) (fn : Primitive)
    → (lookup_primitive (some id) ≡ some fn) ↔ Lists id fn primitives
unfolding lookup_primitive
lookup_primitive-Lists id fn =
    (found-Lists id fn primitives, Lists-found id fn primitives primitives-distinct)
