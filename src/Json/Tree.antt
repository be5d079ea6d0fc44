-- ===== src/Json/Tree.antt =====
-- Trees that answer the calls of cJSON, with whole numbers for the floats.
pub mod Text
pub mod Fields
pub mod Instance
use test_controller.Base.{
  ℕ, zero, suc, ◌+◌, ◌-◌, ◌*◌, ◌/◌, ◌%◌, ◌≤◌, ◌<◌, ◌≡◌, refl, sym, ap, ◌∙◌, Bool, true, false,
  Option, none, some, List, [], ◌∷◌, ◌++◌, CString, map, str_eq, str_eq→eq, str_eq_refl,
  Option-cases, length, length-append, arith, ◌==◌, All, Bool-cases, inl, inr, if◌then◌else◌,
}
use test_controller.Base.Int.{ℤ, pos, negsuc}
use mathlib.Core.Path.{subst}
use mathlib.Core.List.{append_assoc, append-nil}
use test_controller.Json.{JsonApi, IsJson, IsWord, IsInt32, or_else, same_key, to_lower, c_string}

-- The last item of an object or an array stands outermost.
pub data Tree : Type 0 where
  int : ℤ → Tree
  flt : ℤ → Tree
  str : CString → Tree
  truth : Bool → Tree
  no_fields : Tree
  field : Tree → CString → Tree → Tree
  no_items : Tree
  elem : Tree → Tree → Tree

unfoldable pub item : Tree → CString → Option Tree
item (field o k v) k' = or_else (item o k') (if same_key k k' then some v else none)
item _ k' = none

unfoldable pub children : Tree → List Tree
children (field o k v) = children o ++ v ∷ []
children (elem a v) = children a ++ v ∷ []
children _ = []

unfoldable pub is_array : Tree → Bool
is_array no_items = true
is_array (elem a v) = is_array a
is_array _ = false

unfoldable pub is_object : Tree → Bool
is_object no_fields = true
is_object (field o k v) = is_object o
is_object _ = false

-- The first field of that name is taken out.
unfoldable pub delete_item : Tree → CString → Tree
unfolding item
delete_item (field o k v) k' =
    let inner = delete_item o k' in
    elim (item o k') [ some x ↦ field inner k v | none ↦ if same_key k k' then o else field o k v ]
delete_item t k' = t

-- The first field of that name is changed.
unfoldable pub update_item : Tree → CString → (Tree → Tree) → Tree
unfolding item
update_item (field o k v) k' f =
    let inner = update_item o k' f in
    elim (item o k') [
      | some x ↦ field inner k v
      | none ↦ if same_key k k' then field o k (f v) else field o k v
    ]
update_item t k' f = t

unfoldable pub as_int : Tree → ℤ
as_int (int n) = n
as_int _ = pos 0

unfoldable pub as_nat : Tree → ℕ
as_nat (int (pos n)) = n
as_nat _ = 0

unfoldable pub as_float : Tree → ℤ
as_float (flt x) = x
as_float _ = pos 0

unfoldable pub text : Tree → Option CString
text (str s) = some s
text _ = none

unfoldable pub is_string : Tree → Bool
is_string (str s) = true
is_string _ = false

unfoldable pub is_number : Tree → Bool
is_number (int n) = true
is_number (flt x) = true
is_number _ = false

unfoldable pub is_true : Tree → Bool
is_true (truth b) = b
is_true _ = false
