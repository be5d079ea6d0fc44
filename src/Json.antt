-- ===== src/Json.antt =====
-- cJSON as the sources use it to build, print and read back a tree: its calls, and what the callers
-- rely on. `F` is the type of `float`. A tree stands for what its readers see of it: `as_int` and
-- `as_float` are the casts of its number.
pub mod Tree
use test_controller.Base.{
  ℕ, ◌+◌, ◌≤◌, ◌<◌, ◌≡◌, refl, Bool, true, false, ◌&&◌, Option, none, some, List, [], ◌∷◌, ◌++◌,
  map, CString, length, leb, str_eq, ◌==◌, if◌then◌else◌,
}
use test_controller.Base.Int.{ℤ, pos, negsuc, ◌≤ℤ◌}
use test_controller.Parser.{Cjson}

pub record JsonApi (F : Type 0) : Type 1 where
  pub Json : Type 0
  pub item : Json → CString → Option Json  -- cJSON_GetObjectItem
  pub children : Json → List Json
  pub name : Json → Option CString
  pub valuestring : Json → Option CString
  pub as_int : Json → ℤ  -- (int)valuedouble
  pub as_float : Json → F  -- (float)valuedouble
  pub as_u32 : Json → ℕ  -- (uint32_t)valuedouble
  pub as_u8 : Json → ℕ  -- (uint8_t)valuedouble
  pub is_string : Json → Bool
  pub is_number : Json → Bool
  pub is_true : Json → Bool
  pub is_array : Json → Bool
  pub is_object : Json → Bool
  pub parse : CString → Option Json
  pub print : Json → Option CString  -- cJSON_PrintUnformatted
  pub empty_object : Json
  pub empty_array : Json
  pub of_int : ℤ → Json
  pub of_float : F → Json
  pub of_thousandths : ℕ → Json  -- a literal number of the source
  pub of_string : CString → Json
  pub of_bool : Bool → Json
  pub add_item : Json → CString → Json → Json  -- cJSON_AddItemToObject
  pub append : Json → Json → Json  -- cJSON_AddItemToArray
  pub delete_item : Json → CString → Json  -- cJSON_DeleteItemFromObject
  -- A change of the first item of that name, through its pointer.
  pub update_item : Json → CString → (Json → Json) → Json

-- tolower of the C locale; cJSON compares the names of items by it.
abbrev pub to_lower : ℕ → ℕ
to_lower c = if leb 65 c && leb c 90 then c + 32 else c

abbrev pub same_key : CString → CString → Bool
same_key a b = str_eq (map to_lower a) (map to_lower b)

-- The first item of that name is found.
abbrev pub or_else : {A : Type 0} → Option A → Option A → Option A
or_else none b = b
or_else (some a) b = some a

pub or_else-none : {A : Type 0} (a : Option A) → or_else a none ≡ a
or_else-none none = refl
or_else-none (some x) = refl

abbrev pub IsInt32 : ℤ → Type 0
IsInt32 n = (negsuc 2147483647 ≤ℤ n) × (n ≤ℤ pos 2147483647)

-- A value of uint32_t or int32_t, which a double holds exactly.
abbrev pub IsWord : ℤ → Type 0
IsWord n = (negsuc 2147483647 ≤ℤ n) × (n ≤ℤ pos 4294967295)

-- The bytes in front of the first NUL.
unfoldable pub c_string : List ℕ → CString
c_string [] = []
c_string (c ∷ cs) = if c == 0 then [] else c ∷ c_string cs

-- Documented behaviour of cJSON. A text that is printed of a tree of finite numbers gives the tree
-- back, up to what the casts see.
pub record IsJson {F : Type 0} (js : JsonApi F) : Type 1 where
  pub item-empty_object : (k : CString) → js.item js.empty_object k ≡ none
  pub item-add_item :
      (o : js.Json) (k : CString) (i : js.Json) (k' : CString)
      → js.item (js.add_item o k i) k'
        ≡ or_else (js.item o k') (if same_key k k' then some i else none)
  pub item-same : (o : js.Json) (k k' : CString) → same_key k k' ≡ true → js.item o k ≡ js.item o k'
  pub item-delete_item :
      (o : js.Json) (k k' : CString)
      → same_key k k' ≡ false
      → js.item (js.delete_item o k) k' ≡ js.item o k'
  pub item-delete_none :
      (o : js.Json) (k k' : CString)
      → js.item o k ≡ none
      → js.item (js.delete_item o k) k' ≡ js.item o k'
  pub item-update_item :
      (o : js.Json) (k : CString) (f : js.Json → js.Json) (i : js.Json) (k' : CString)
      → js.item o k ≡ some i
      → js.item (js.update_item o k f) k' ≡ (if same_key k k' then some (f i) else js.item o k')
  pub children-empty_array : js.children js.empty_array ≡ []
  pub children-append : (a i : js.Json) → js.children (js.append a i) ≡ js.children a ++ i ∷ []
  pub empty_array-is_array : js.is_array js.empty_array ≡ true
  pub append-is_array : (a i : js.Json) → js.is_array (js.append a i) ≡ js.is_array a
  pub of_int-is_number : (n : ℤ) → js.is_number (js.of_int n) ≡ true
  pub of_float-is_number : (x : F) → js.is_number (js.of_float x) ≡ true
  pub of_string-is_string : (s : CString) → js.is_string (js.of_string s) ≡ true
  pub as_int-of_int : (n : ℤ) → IsInt32 n → js.as_int (js.of_int n) ≡ n
  pub as_u32-of_int : (n : ℕ) → n ≤ 4294967295 → js.as_u32 (js.of_int (pos n)) ≡ n
  pub as_float-of_float : (x : F) → js.as_float (js.of_float x) ≡ x
  pub valuestring-of_string : (s : CString) → js.valuestring (js.of_string s) ≡ some s
  pub is_true-of_bool : (b : Bool) → js.is_true (js.of_bool b) ≡ b
  pub IsFinite : F → Type 0
  pub IsPrintable : js.Json → Type 0
  pub empty_object-IsPrintable : IsPrintable js.empty_object
  pub empty_array-IsPrintable : IsPrintable js.empty_array
  pub of_int-IsPrintable : (n : ℤ) → IsWord n → IsPrintable (js.of_int n)
  pub of_float-IsPrintable : (x : F) → IsFinite x → IsPrintable (js.of_float x)
  pub of_string-IsPrintable : (s : CString) → IsPrintable (js.of_string s)
  pub of_bool-IsPrintable : (b : Bool) → IsPrintable (js.of_bool b)
  pub add_item-IsPrintable :
      (o : js.Json) (k : CString) (i : js.Json)
      → IsPrintable o
      → IsPrintable i
      → IsPrintable (js.add_item o k i)
  pub append-IsPrintable :
      (a i : js.Json) → IsPrintable a → IsPrintable i → IsPrintable (js.append a i)
  pub delete_item-IsPrintable :
      (o : js.Json) (k : CString) → IsPrintable o → IsPrintable (js.delete_item o k)
  pub parse-print :
      (o : js.Json) (text : CString)
      → IsPrintable o
      → js.print o ≡ some text
      → js.parse text ≡ some o
  pub print-nonempty : (o : js.Json) (text : CString) → js.print o ≡ some text → 0 < length text
  pub c_string-print :
      (o : js.Json) (text : CString) → js.print o ≡ some text → c_string text ≡ text

-- The part that recipe_json_parse uses. The text ends at its first NUL: what cJSON_ParseWithLength makes of a
-- NUL inside a text is left out.
abbrev pub reader : {F : Type 0} → JsonApi F → Cjson
reader js = record {
  Json = js.Json;
  parse_with_length = λ text. js.parse (c_string text);
  get_object_item = js.item;
  valuestring = js.valuestring;
  name = js.name;
  as_u32 = js.as_u32;
  as_u8 = js.as_u8;
  is_string = js.is_string;
  is_number = js.is_number;
  is_true = js.is_true;
  is_array = js.is_array;
  is_object = js.is_object;
  children = js.children;
}
