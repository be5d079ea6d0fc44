-- ===== src/Base/Atoi.antt =====
-- The C function atoi, for texts whose number fits an int.
use test_controller.Base.{
  ℕ, ◌+◌, ◌-◌, ◌*◌, ◌≡◌, refl, Bool, ◌&&◌, ◌||◌, [], ◌∷◌, CString, codes, leb, ◌==◌, if◌then◌else◌,
}
use test_controller.Base.Int.{ℤ, pos, negsuc, sub_ℕ}

abbrev pub is_digit : ℕ → Bool
is_digit c = leb 48 c && leb c 57

-- isspace
abbrev pub is_space : ℕ → Bool
is_space c = (c == 32) || (leb 9 c && leb c 13)

unfoldable pub digits : ℕ → CString → ℕ
digits n [] = n
digits n (c ∷ cs) = let rest = digits (n * 10 + (c - 48)) cs in if is_digit c then rest else n

signed : CString → ℤ
unfolding digits
signed [] = pos 0
signed (c ∷ cs) =
    if c == 45
    then sub_ℕ 0 (digits 0 cs)
    else if c == 43
    then pos (digits 0 cs)
    else pos (digits 0 (c ∷ cs))

unfoldable pub atoi : CString → ℤ
unfolding signed
atoi [] = pos 0
atoi (c ∷ cs) = let rest = atoi cs in if is_space c then rest else signed (c ∷ cs)

atoi_percent : atoi (codes " 80%") ≡ pos 80
unfolding atoi
atoi_percent = refl

atoi_negative : atoi (codes "-12") ≡ negsuc 11
unfolding atoi
atoi_negative = refl
