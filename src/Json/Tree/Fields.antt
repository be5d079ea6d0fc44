-- ===== src/Json/Tree/Fields.antt =====
-- The fields of a tree: what deletions and updates leave.
use test_controller.Base.{
  ◌≡◌, refl, sym, ap, ◌∙◌, true, false, Option, none, some, CString, map, str_eq→eq, Option-cases,
  arith, Bool-cases, inl, inr, if◌then◌else◌,
}
use test_controller.Json.{or_else, or_else-none, same_key, to_lower}
use test_controller.Json.Tree.{
  Tree, int, flt, str, truth, no_fields, field, no_items, elem, item, delete_item, update_item,
}

same_key_trans : (a b c : CString) → same_key a b ≡ true → same_key b c ≡ same_key a c
same_key_trans a b c h = rw (str_eq→eq (map to_lower a) (map to_lower b) h) refl

pub item-same : (o : Tree) (k k' : CString) → same_key k k' ≡ true → item o k ≡ item o k'
unfolding item
item-same (int n) k k' h = refl
item-same (flt n) k k' h = refl
item-same (str n) k k' h = refl
item-same (truth n) k k' h = refl
item-same no_fields k k' h = refl
item-same no_items k k' h = refl
item-same (elem a v) k k' h = refl
item-same (field o j v) k k' h =
    rw (item-same o k k' h, str_eq→eq (map to_lower k) (map to_lower k') h) refl

pub item-delete_other :
    (o : Tree) (k k' : CString) → same_key k k' ≡ false → item (delete_item o k) k' ≡ item o k'
unfolding delete_item item
item-delete_other (int n) k k' h = refl
item-delete_other (flt n) k k' h = refl
item-delete_other (str n) k k' h = refl
item-delete_other (truth n) k k' h = refl
item-delete_other no_fields k k' h = refl
item-delete_other no_items k k' h = refl
item-delete_other (elem a v) k k' h = refl
item-delete_other (field o j v) k k' h = elim (Option-cases (item o k)) [
  | inr (x, found) ↦
      rw (found, delete_item)
        (ap (λ (r : Option Tree). or_else r (if same_key j k' then some v else none))
          (item-delete_other o k k' h))
  | inl gone ↦ elim (Bool-cases (same_key j k)) [
    | inl same ↦
        let other : same_key j k' ≡ false = sym (same_key_trans j k k' same) ∙ h in
        rw (gone, delete_item) (rw (same) (rw (other) (sym (or_else-none (item o k')))))
    | inr differ ↦ rw (gone, delete_item) (rw differ refl)
  ]
]

pub item-delete_absent :
    (o : Tree) (k k' : CString) → item o k ≡ none → item (delete_item o k) k' ≡ item o k'
unfolding delete_item item
item-delete_absent (int n) k k' h = refl
item-delete_absent (flt n) k k' h = refl
item-delete_absent (str n) k k' h = refl
item-delete_absent (truth n) k k' h = refl
item-delete_absent no_fields k k' h = refl
item-delete_absent no_items k k' h = refl
item-delete_absent (elem a v) k k' h = refl
item-delete_absent (field o j v) k k' h = elim (Option-cases (item o k)) [
  | inr (x, found) ↦ absurd (ground (arith, found))
  | inl gone ↦ elim (Bool-cases (same_key j k)) [
    | inl same ↦ absurd (ground (arith, gone, same))
    | inr differ ↦ rw (gone, delete_item) (rw differ refl)
  ]
]

pub item-updated :
    (o : Tree) (k : CString) (f : Tree → Tree) (i : Tree) (k' : CString)
    → item o k ≡ some i
    → item (update_item o k f) k' ≡ (if same_key k k' then some (f i) else item o k')
unfolding update_item item
item-updated (int n) k f i k' h = absurd (cc)
item-updated (flt n) k f i k' h = absurd (cc)
item-updated (str n) k f i k' h = absurd (cc)
item-updated (truth n) k f i k' h = absurd (cc)
item-updated no_fields k f i k' h = absurd (cc)
item-updated no_items k f i k' h = absurd (cc)
item-updated (elem a v) k f i k' h = absurd (cc)
item-updated (field o j v) k f i k' h = elim (Option-cases (item o k)) [
  | inr (x, found) ↦
      let inner = item-updated o k f i k' (found ∙ ground (arith, found)) in
      rw (found, update_item)
        (rw inner (elim (Bool-cases (same_key k k')) [
          | inl same ↦ rw same refl
          | inr differ ↦ rw differ refl
        ]))
  | inl gone ↦ elim (Bool-cases (same_key j k)) [
    | inr differ ↦ absurd (ground (arith, gone, differ))
    | inl same ↦
        let value : v ≡ i = ground (arith, gone, same) in
        let through = same_key_trans j k k' same in
        rw (gone, update_item)
          (rw same (elim (Bool-cases (same_key k k')) [
            | inl also ↦
                rw (← through, also, ← item-same o k k' also, gone)
                  (ap (λ (t : Tree). some (f t)) value)
            | inr differ ↦ rw (← through, differ) refl
          ]))
  ]
]
