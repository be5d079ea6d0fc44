-- ===== src/Json/Tree/Text.antt =====
-- The text of a tree is one symbol for each node behind those of its parts, and is read back by a stack.
use test_controller.Base.{
  ℕ, ◌+◌, ◌-◌, ◌*◌, ◌/◌, ◌%◌, ◌<◌, ◌≡◌, refl, sym, ap, ◌∙◌, true, false, Option, none, some, List,
  [], ◌∷◌, ◌++◌, CString, length, length-append, arith, ◌==◌, All, if◌then◌else◌,
}
use test_controller.Base.Int.{ℤ, pos, negsuc}
use mathlib.Core.List.{append_assoc, append-nil}
use test_controller.Json.{c_string}
use test_controller.Json.Tree.{Tree, int, flt, str, truth, no_fields, field, no_items, elem}

-- The symbols below eight are nodes without a number; above, five kinds share the numbers.
abbrev numbered : ℕ → ℕ → ℕ
numbered kind n = 8 + (n * 5 + kind)

number_code : ℕ → ℤ → ℕ
number_code kind (pos n) = numbered kind n
number_code kind (negsuc n) = numbered (kind + 1) n

text_code : CString → List ℕ
text_code [] = []
text_code (c ∷ cs) = numbered 4 c ∷ text_code cs

unfoldable pub code : Tree → List ℕ
unfolding number_code text_code
code (int n) = number_code 0 n ∷ []
code (flt x) = number_code 2 x ∷ []
code (str s) = 3 ∷ text_code s
code (truth true) = 4 ∷ []
code (truth false) = 5 ∷ []
code no_fields = 1 ∷ []
code (field o k v) = code o ++ (3 ∷ text_code k ++ (code v ++ 6 ∷ []))
code no_items = 2 ∷ []
code (elem a v) = code a ++ (code v ++ 7 ∷ [])

push_char : ℕ → List Tree → List Tree
push_char c (str s ∷ st) = str (s ++ c ∷ []) ∷ st
push_char c st = []

join_field : List Tree → List Tree
join_field (v ∷ (str k ∷ (o ∷ st))) = field o k v ∷ st
join_field st = []

join_elem : List Tree → List Tree
join_elem (v ∷ (a ∷ st)) = elem a v ∷ st
join_elem st = []

-- A symbol with a number.
push_number : ℕ → ℕ → List Tree → List Tree
unfolding push_char
push_number kind n st =
    if kind == 0
    then int (pos n) ∷ st
    else if kind == 1
    then int (negsuc n) ∷ st
    else if kind == 2
    then flt (pos n) ∷ st
    else if kind == 3
    then flt (negsuc n) ∷ st
    else push_char n st

exec : ℕ → List Tree → List Tree
unfolding push_number join_field join_elem
exec s st =
    if s == 1
    then no_fields ∷ st
    else if s == 2
    then no_items ∷ st
    else if s == 3
    then str [] ∷ st
    else if s == 4
    then truth true ∷ st
    else if s == 5
    then truth false ∷ st
    else if s == 6
    then join_field st
    else if s == 7
    then join_elem st
    else push_number ((s - 8) % 5) ((s - 8) / 5) st

only : List Tree → Option Tree
only [] = none
only (t ∷ []) = some t
only (t ∷ (u ∷ st)) = none

run : List ℕ → List Tree → Option Tree
unfolding exec only
run [] st = only st
run (s ∷ ss) st = run ss (exec s st)

exec-number :
    (kind n : ℕ) (st : List Tree) → kind < 5 → exec (numbered kind n) st ≡ push_number kind n st
unfolding exec
exec-number kind n st h =
    let q : (numbered kind n - 8) / 5 ≡ n = omega arith in
    let r : (numbered kind n - 8) % 5 ≡ kind = omega arith in
    rw
      (
        other 1 n kind (omega arith),
        other 2 n kind (omega arith),
        other 3 n kind (omega arith),
        other 4 n kind (omega arith),
        other 5 n kind (omega arith),
        other 6 n kind (omega arith),
        other 7 n kind (omega arith),
        q,
        r,
      )
      refl
  where
    other : (k n kind : ℕ) → k < 8 → (numbered kind n == k) ≡ false
    other k n kind h = ground arith

run-text :
    (cs : CString) (rest : List ℕ) (s : CString) (st : List Tree)
    → run (text_code cs ++ rest) (str s ∷ st) ≡ run rest (str (s ++ cs) ∷ st)
unfolding run text_code push_number
run-text [] rest s st = ap (λ (x : CString). run rest (str x ∷ st)) (sym (append-nil s))
run-text (c ∷ cs) rest s st =
    ap (run (text_code cs ++ rest)) (exec-number 4 c (str s ∷ st) (omega arith))
    ∙ run-text cs rest (s ++ c ∷ []) st
    ∙ ap (λ (x : CString). run rest (str x ∷ st)) (append_assoc s (c ∷ []) cs)

run-number :
    (kind : ℕ) (n : ℤ) (rest : List ℕ) (st : List Tree)
    → kind + 1 < 5
    → run (number_code kind n ∷ rest) st
      ≡ run rest (elim n [ pos m ↦ push_number kind m st | negsuc m ↦ push_number (kind + 1) m st ])
unfolding run number_code
run-number kind (pos m) rest st h = ap (run rest) (exec-number kind m st (omega arith))
run-number kind (negsuc m) rest st h = ap (run rest) (exec-number (kind + 1) m st (omega arith))

-- The text of a tree pushes the tree.
run-code : (t : Tree) (rest : List ℕ) (st : List Tree) → run (code t ++ rest) st ≡ run rest (t ∷ st)
unfolding code run exec push_number join_field join_elem
run-code (int (pos n)) rest st = run-number 0 (pos n) rest st (omega arith)
run-code (int (negsuc n)) rest st = run-number 0 (negsuc n) rest st (omega arith)
run-code (flt (pos n)) rest st = run-number 2 (pos n) rest st (omega arith)
run-code (flt (negsuc n)) rest st = run-number 2 (negsuc n) rest st (omega arith)
run-code (str s) rest st = run-text s rest [] st
run-code (truth true) rest st = refl
run-code (truth false) rest st = refl
run-code no_fields rest st = refl
run-code no_items rest st = refl
run-code (field o k v) rest st =
    ap (λ (xs : List ℕ). run xs st)
      (append_assoc (code o) (3 ∷ text_code k ++ (code v ++ 6 ∷ [])) rest)
    ∙ run-code o ((3 ∷ text_code k ++ (code v ++ 6 ∷ [])) ++ rest) st
    ∙ ap (λ (xs : List ℕ). run xs (str [] ∷ (o ∷ st)))
        (append_assoc (text_code k) (code v ++ 6 ∷ []) rest)
    ∙ run-text k ((code v ++ 6 ∷ []) ++ rest) [] (o ∷ st)
    ∙ ap (λ (xs : List ℕ). run xs (str k ∷ (o ∷ st))) (append_assoc (code v) (6 ∷ []) rest)
    ∙ run-code v (6 ∷ rest) (str k ∷ (o ∷ st))
run-code (elem a v) rest st =
    ap (λ (xs : List ℕ). run xs st) (append_assoc (code a) (code v ++ 7 ∷ []) rest)
    ∙ run-code a ((code v ++ 7 ∷ []) ++ rest) st
    ∙ ap (λ (xs : List ℕ). run xs (a ∷ st)) (append_assoc (code v) (7 ∷ []) rest)
    ∙ run-code v (7 ∷ rest) (a ∷ st)

unfoldable pub parse : List ℕ → Option Tree
unfolding run
parse symbols = run symbols []

pub parse-code : (t : Tree) → parse (code t) ≡ some t
unfolding parse run only
parse-code t = ap (λ (xs : List ℕ). run xs []) (sym (append-nil (code t))) ∙ run-code t [] []

-- No symbol is a NUL.
pub IsText : List ℕ → Type 0
IsText = All (λ c. 0 < c)

IsText-append : (xs ys : List ℕ) → IsText xs → IsText ys → IsText (xs ++ ys)
unfolding IsText
IsText-append [] ys h g = g
IsText-append (x ∷ xs) ys h g = (h.0, IsText-append xs ys h.1 g)

pub c_string-IsText : (xs : List ℕ) → IsText xs → c_string xs ≡ xs
unfolding c_string IsText
c_string-IsText [] h = refl
c_string-IsText (x ∷ xs) h =
    let go : (x == 0) ≡ false = ground (arith, h.0) in rw go (ap (◌∷◌ x) (c_string-IsText xs h.1))

text_code-IsText : (cs : CString) → IsText (text_code cs)
unfolding text_code IsText
text_code-IsText [] = tt
text_code-IsText (c ∷ cs) = (omega arith, text_code-IsText cs)

pub code-IsText : (t : Tree) → IsText (code t)
unfolding code number_code IsText
code-IsText (int (pos n)) = (omega arith, tt)
code-IsText (int (negsuc n)) = (omega arith, tt)
code-IsText (flt (pos n)) = (omega arith, tt)
code-IsText (flt (negsuc n)) = (omega arith, tt)
code-IsText (str s) = (omega arith, text_code-IsText s)
code-IsText (truth true) = (omega arith, tt)
code-IsText (truth false) = (omega arith, tt)
code-IsText no_fields = (omega arith, tt)
code-IsText no_items = (omega arith, tt)
code-IsText (field o k v) = IsText-append (code o) _ (code-IsText o) (
  omega arith,
  IsText-append (text_code k) _ (text_code-IsText k)
      (IsText-append (code v) _ (code-IsText v) (omega arith, tt)),
)
code-IsText (elem a v) =
    IsText-append (code a) _ (code-IsText a)
      (IsText-append (code v) _ (code-IsText v) (omega arith, tt))

pub code-nonempty : (t : Tree) → 0 < length (code t)
unfolding code number_code
code-nonempty (int n) = omega arith
code-nonempty (flt n) = omega arith
code-nonempty (str s) = omega arith
code-nonempty (truth true) = omega arith
code-nonempty (truth false) = omega arith
code-nonempty no_fields = omega arith
code-nonempty no_items = omega arith
code-nonempty (field o k v) =
    omega (arith, code-nonempty o, length-append (code o) (3 ∷ text_code k ++ (code v ++ 6 ∷ [])))
code-nonempty (elem a v) = omega (arith, code-nonempty a, length-append (code a) (code v ++ 7 ∷ []))
