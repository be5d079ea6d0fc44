-- ===== src/Base/Text.antt =====
-- C strings: the bytes before the terminating NUL, and the functions of string.h on them.
use Prim.Native.Nat.{ℕ, zero, suc, ◌-◌, ◌<◌, ◌≤◌}
use Prim.Native.Char.{code}
use Prim.Native.String.{String}
use mathlib.Core.Path.{◌≡◌, refl, ap}
use mathlib.Core.Bool.{Bool, true, false, ◌&&◌}
use mathlib.Core.List.{List, [], ◌∷◌}
use native.Mathlib.Omega.{arith}
use test_controller.Base.Tests.{◌==◌, if◌then◌else◌}
use mathlib.Core.Option.{Option, none, some}
use test_controller.Base.Lists.{length, take, get_or}

abbrev pub CString : Type 0
CString = List ℕ

-- A literal of the source.
abbrev pub codes : String → CString
codes String.[] = []
codes (String.◌∷◌ c s) = code c ∷ codes s

-- strcmp(a, b) == 0
unfoldable pub str_eq : CString → CString → Bool
str_eq [] [] = true
str_eq [] (y ∷ ys) = false
str_eq (x ∷ xs) [] = false
str_eq (x ∷ xs) (y ∷ ys) = (x == y) && str_eq xs ys

pub str_eq→eq : (a b : CString) → str_eq a b ≡ true → a ≡ b
unfolding str_eq
str_eq→eq [] [] h = refl
str_eq→eq [] (y ∷ ys) h = ground arith
str_eq→eq (x ∷ xs) [] h = ground arith
str_eq→eq (x ∷ xs) (y ∷ ys) h = ground (arith, str_eq→eq xs ys)

pub str_eq_refl : (a : CString) → str_eq a a ≡ true
unfolding str_eq
str_eq_refl [] = refl
str_eq_refl (x ∷ xs) = ground (arith, str_eq_refl xs)

pub eq→str_eq : (a b : CString) → a ≡ b → str_eq a b ≡ true
eq→str_eq a b e = rw e (str_eq_refl b)

-- strlcpy and strncpy followed by a NUL: at most `n - 1` bytes arrive in a buffer of `n`.
unfoldable pub truncated : ℕ → CString → CString
truncated n s = take (n - 1) s

pub take_all {ℓ} : {A : Type ℓ} (n : ℕ) (xs : List A) → length xs ≤ n → take n xs ≡ xs
take_all zero [] h = refl
take_all zero (x ∷ xs) h = absurd (omega arith)
take_all (suc n) [] h = refl
take_all (suc n) (x ∷ xs) h = ap (◌∷◌ x) (take_all n xs (omega arith))

pub truncated_fits : (n : ℕ) (s : CString) → length s < n → truncated n s ≡ s
unfolding truncated
truncated_fits n s h = take_all (n - 1) s (omega arith)

-- strncmp with a literal, and what stands behind it.
unfoldable pub behind : CString → CString → Option CString
behind [] s = some s
behind (c ∷ cs) [] = none
behind (c ∷ cs) (x ∷ xs) = let rest = behind cs xs in if c == x then rest else none

-- argv[i]
abbrev pub arg : List CString → ℕ → CString
arg argv i = get_or argv i []
