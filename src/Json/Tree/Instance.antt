-- ===== src/Json/Tree/Instance.antt =====
-- The trees as an instance of the calls of cJSON and of their laws.
use test_controller.Base.{ℕ, ◌%◌, ◌<◌, ◌≡◌, refl, ap, ◌∙◌, none, some, List, length}
use test_controller.Base.Int.{ℤ, pos}
use mathlib.Core.Path.{subst}
use test_controller.Json.{JsonApi, IsJson, c_string}
use test_controller.Json.Tree.{
  Tree, int, flt, str, truth, no_fields, field, no_items, elem, item, children, is_array, is_object,
  delete_item, update_item, as_int, as_nat, as_float, text, is_string, is_number, is_true,
}
use test_controller.Json.Tree.Text.{
  code, parse, parse-code, c_string-IsText, code-IsText, code-nonempty,
}
use test_controller.Json.Tree.Fields.{
  item-same, item-delete_other, item-delete_absent, item-updated,
}

abbrev pub tree : JsonApi ℤ
tree = record {
  Json = Tree;
  item = item;
  children = children;
  name = λ t. none;
  valuestring = text;
  as_int = as_int;
  as_float = as_float;
  as_u32 = as_nat;
  as_u8 = λ t. as_nat t % 256;
  is_string = is_string;
  is_number = is_number;
  is_true = is_true;
  is_array = is_array;
  is_object = is_object;
  parse = parse;
  print = λ t. some (code t);
  empty_object = no_fields;
  empty_array = no_items;
  of_int = int;
  of_float = flt;
  of_thousandths = λ n. int (pos n);
  of_string = str;
  of_bool = truth;
  add_item = field;
  append = elem;
  delete_item = delete_item;
  update_item = update_item;
}

pub some_injective : {A : Type 0} (x y : A) → some x ≡ some y → x ≡ y
some_injective x y h = cc

unfoldable pub tree-IsJson : IsJson tree
unfolding item children is_array is_number is_string as_int as_nat as_float text is_true
tree-IsJson = record {
  item-empty_object = λ k. refl;
  item-add_item = λ o k i k'. refl;
  item-same = item-same;
  item-delete_item = item-delete_other;
  item-delete_none = item-delete_absent;
  item-update_item = item-updated;
  children-empty_array = refl;
  children-append = λ a i. refl;
  empty_array-is_array = refl;
  append-is_array = λ a i. refl;
  of_int-is_number = λ n. refl;
  of_float-is_number = λ x. refl;
  of_string-is_string = λ s. refl;
  as_int-of_int = λ n h. refl;
  as_u32-of_int = λ n h. refl;
  as_float-of_float = λ x. refl;
  valuestring-of_string = λ s. refl;
  is_true-of_bool = λ b. refl;
  IsFinite = λ x. Unit {0};
  IsPrintable = λ t. Unit {0};
  empty_object-IsPrintable = tt;
  empty_array-IsPrintable = tt;
  of_int-IsPrintable = λ n h. tt;
  of_float-IsPrintable = λ x h. tt;
  of_string-IsPrintable = λ s. tt;
  of_bool-IsPrintable = λ b. tt;
  add_item-IsPrintable = λ o k i p q. tt;
  append-IsPrintable = λ a i p q. tt;
  delete_item-IsPrintable = λ o k p. tt;
  parse-print = λ o symbols p h. ap parse (some_injective symbols (code o) (cc)) ∙ parse-code o;
  print-nonempty = λ o symbols h.
      subst (λ (x : List ℕ). 0 < length x) (some_injective (code o) symbols h) (code-nonempty o);
  c_string-print = λ o symbols h.
      subst (λ (x : List ℕ). c_string x ≡ x) (some_injective (code o) symbols h)
        (c_string-IsText (code o) (code-IsText o));
}
