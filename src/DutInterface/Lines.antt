-- ===== src/DutInterface/Lines.antt =====
-- dut/dut_interface_mock.c: a line that the device sends, read from the port and stripped.
use test_controller.Base.{
  ℕ, zero, suc, ◌≤◌, ◌<◌, ◌≡◌, refl, ap, false, List, [], ◌∷◌, ◌++◌, CString, length, length-append,
  get_or, take, All, ◌==◌, arith,
}
use test_controller.Json.{c_string}
use test_controller.Uart.Reading.{upto}
use test_controller.DutInterface.{stripped, strip}

-- A byte other than NUL, LF and CR.
abbrev pub IsPlain : ℕ → Type 0
IsPlain c = (0 < c) × (((c == 10) ≡ false) × ((c == 13) ≡ false))

abbrev pub line_end : List ℕ
line_end = 10 ∷ []

pub upto-line :
    (n : ℕ) (line : CString)
    → All IsPlain line
    → length line < n
    → upto n 10 (line ++ line_end) ≡ line ++ line_end
unfolding upto
upto-line zero line p h = absurd (omega arith)
upto-line (suc n) [] p h = refl
upto-line (suc n) (c ∷ cs) p h = rw (p.0.1.0) (ap (◌∷◌ c) (upto-line n cs p.1 (omega arith)))

pub c_string-plain : (line : CString) → All IsPlain line → c_string line ≡ line
unfolding c_string
c_string-plain [] p = refl
c_string-plain (c ∷ cs) p =
    let go : (c == 0) ≡ false = ground (arith, p.0.0) in rw go (ap (◌∷◌ c) (c_string-plain cs p.1))

get_or-IsPlain :
    (xs ys : List ℕ) (n : ℕ) → n < length xs → All IsPlain xs → IsPlain (get_or (xs ++ ys) n 0)
get_or-IsPlain [] ys n h p = absurd (omega arith)
get_or-IsPlain (x ∷ xs) ys zero h p = p.0
get_or-IsPlain (x ∷ xs) ys (suc n) h p = get_or-IsPlain xs ys n (omega arith) p.1

stripped-plain :
    (xs ys : List ℕ) (n : ℕ) → n ≤ length xs → All IsPlain xs → stripped n (xs ++ ys) ≡ n
unfolding stripped
stripped-plain xs ys zero h p = refl
stripped-plain xs ys (suc n) h p =
    let last = get_or-IsPlain xs ys n (omega arith) p in rw (last.1.0) (rw (last.1.1) refl)

get_or-append : (xs ys : List ℕ) → get_or (xs ++ ys) (length xs) 0 ≡ get_or ys 0 0
get_or-append [] ys = refl
get_or-append (x ∷ xs) ys = get_or-append xs ys

take-append : (xs ys : List ℕ) → take (length xs) (xs ++ ys) ≡ xs
take-append [] ys = refl
take-append (x ∷ xs) ys = ap (◌∷◌ x) (take-append xs ys)

pub strip-line : (line : CString) → All IsPlain line → strip (line ++ line_end) ≡ line
unfolding stripped
strip-line line p =
    let size : length (line ++ line_end) ≡ suc (length line) =
      omega (arith, length-append line line_end) in
    let last : get_or (line ++ line_end) (length line) 0 ≡ 10 = get_or-append line line_end in
    let left : stripped (suc (length line)) (line ++ line_end) ≡ length line =
      rw last (stripped-plain line line_end (length line) (omega arith) p) in
    rw (size, left) (take-append line line_end)
