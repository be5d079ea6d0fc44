-- ===== src/Base/Decimal.antt =====
-- The conversion %u of snprintf, and strtoul in base ten; the result of a text that does not fit is
-- ULONG_MAX, which is an argument.
use test_controller.Base.{
  ℕ, zero, suc, ◌+◌, ◌-◌, ◌*◌, ◌/◌, ◌%◌, ◌≤◌, ◌<◌, ◌≡◌, refl, ap, ◌∙◌, true, false, [], ◌∷◌,
  CString, ltb, ◌==◌, if◌then◌else◌, length, All, arith, Bool-cases, inl, inr,
}
use test_controller.Base.Atoi.{is_digit, is_space, digits}

-- The digits of a number in front of a text; the number is less than the rounds.
unfoldable pub put_digits : ℕ → ℕ → CString → CString
put_digits zero n acc = acc
put_digits (suc rounds) n acc =
    let rest = put_digits rounds (n / 10) ((48 + n % 10) ∷ acc) in
    if ltb n 10 then (48 + n) ∷ acc else rest

unfoldable pub decimal : ℕ → CString
unfolding put_digits
decimal n = put_digits (suc n) n []

abbrev pub saturated : ℕ → ℕ → ℕ
saturated ulong_max n = if ltb ulong_max n then ulong_max else n

-- Behind the blanks; a minus negates what fits.
unfoldable pub unsigned : ℕ → CString → ℕ
unfolding digits
unsigned ulong_max [] = 0
unsigned ulong_max (c ∷ cs) =
    let n = digits 0 cs in
    if c == 45
    then (if ltb ulong_max n then ulong_max else (ulong_max + 1 - n) % (ulong_max + 1))
    else if c == 43
    then saturated ulong_max n
    else saturated ulong_max (digits 0 (c ∷ cs))

unfoldable pub strtoul : ℕ → CString → ℕ
unfolding unsigned
strtoul ulong_max [] = 0
strtoul ulong_max (c ∷ cs) =
    let rest = strtoul ulong_max cs in if is_space c then rest else unsigned ulong_max (c ∷ cs)

-- A text that begins with a digit.
abbrev pub Digital : CString → Type 0
Digital [] = ⊥
Digital (c ∷ cs) = is_digit c ≡ true

abbrev pub IsDigit : ℕ → Type 0
IsDigit c = (48 ≤ c) × (c ≤ 57)

digits-put_digits :
    (rounds n : ℕ) (acc : CString) → n < rounds → digits 0 (put_digits rounds n acc) ≡ digits n acc
unfolding put_digits digits
digits-put_digits zero n acc h = absurd (omega arith)
digits-put_digits (suc rounds) n acc h = elim (Bool-cases (ltb n 10)) [
  | inl small ↦
      let digit : is_digit (48 + n) ≡ true = ground (arith, small) in
      let value : 0 * 10 + (48 + n - 48) ≡ n = omega arith in
      rw small (rw digit (ap (λ (k : ℕ). digits k acc) value))
  | inr big ↦
      let ten : 10 ≤ n = ground (arith, big) in
      let digit : is_digit (48 + n % 10) ≡ true = ground arith in
      let value : n / 10 * 10 + (48 + n % 10 - 48) ≡ n = omega arith in
      rw big (
        digits-put_digits rounds (n / 10) ((48 + n % 10) ∷ acc) (omega (arith, ten))
        ∙ rw digit (ap (λ (k : ℕ). digits k acc) value))
]

put_digits-Digital : (rounds n : ℕ) (acc : CString) → n < rounds → Digital (put_digits rounds n acc)
unfolding put_digits
put_digits-Digital zero n acc h = absurd (omega arith)
put_digits-Digital (suc rounds) n acc h = elim (Bool-cases (ltb n 10)) [
  | inl small ↦ rw small (ground (arith, small))
  | inr big ↦
      rw big (put_digits-Digital rounds (n / 10) ((48 + n % 10) ∷ acc) (ground (arith, big)))
]

put_digits-IsDigit :
    (rounds n : ℕ) (acc : CString)
    → n < rounds
    → All IsDigit acc
    → All IsDigit (put_digits rounds n acc)
unfolding put_digits
put_digits-IsDigit zero n acc h a = a
put_digits-IsDigit (suc rounds) n acc h a = elim (Bool-cases (ltb n 10)) [
  | inl small ↦ rw small ((omega arith, ground (arith, small)), a)
  | inr big ↦ rw big (
      put_digits-IsDigit rounds (n / 10) ((48 + n % 10) ∷ acc) (ground (arith, big))
        ((omega arith, omega arith), a))
]

abbrev pub ten_to : ℕ → ℕ
ten_to zero = 1
ten_to (suc k) = 10 * ten_to k

length-put_digits :
    (rounds k n : ℕ) (acc : CString)
    → n < ten_to (suc k)
    → length (put_digits rounds n acc) ≤ suc k + length acc
unfolding put_digits
length-put_digits zero k n acc h = omega arith
length-put_digits (suc rounds) zero n acc h =
    let small : ltb n 10 ≡ true = ground (arith, h) in rw small (omega arith)
length-put_digits (suc rounds) (suc k) n acc h = elim (Bool-cases (ltb n 10)) [
  | inl small ↦ rw small (omega arith)
  | inr big ↦
      rw big
        (omega (arith, length-put_digits rounds k (n / 10) ((48 + n % 10) ∷ acc) (omega arith)))
]

pub length-decimal : (k n : ℕ) → n < ten_to (suc k) → length (decimal n) ≤ suc k
unfolding decimal
length-decimal k n h = omega (arith, length-put_digits (suc n) k n [] h)

pub decimal-IsDigit : (n : ℕ) → All IsDigit (decimal n)
unfolding decimal
decimal-IsDigit n = put_digits-IsDigit (suc n) n [] (omega arith) tt

pub decimal-Digital : (n : ℕ) → Digital (decimal n)
unfolding decimal
decimal-Digital n = put_digits-Digital (suc n) n [] (omega arith)

strtoul-Digital :
    (ulong_max : ℕ) (cs : CString)
    → Digital cs
    → strtoul ulong_max cs ≡ saturated ulong_max (digits 0 cs)
unfolding strtoul unsigned
strtoul-Digital ulong_max [] d = absurd d
strtoul-Digital ulong_max (c ∷ cs) d =
    let bounds : (48 ≤ c) × (c ≤ 57) = ground (arith, d) in
    let solid : is_space c ≡ false = ground (arith, bounds.0) in
    let no_minus : (c == 45) ≡ false = ground (arith, bounds.0) in
    let no_plus : (c == 43) ≡ false = ground (arith, bounds.0) in
    rw solid (rw no_minus (rw no_plus refl))

pub strtoul-decimal : (ulong_max n : ℕ) → n ≤ ulong_max → strtoul ulong_max (decimal n) ≡ n
unfolding decimal digits
strtoul-decimal ulong_max n h =
    let read : digits 0 (put_digits (suc n) n []) ≡ n =
      digits-put_digits (suc n) n [] (omega arith) in
    let fits : ltb ulong_max n ≡ false = ground (arith, h) in
    strtoul-Digital ulong_max (decimal n) (decimal-Digital n) ∙ rw (read, fits) refl
