-- ===== src/Spiffs/Slots.antt =====
-- storage/storage_spiffs.c: which entries share a place.
use test_controller.Base.{
  ℕ, ◌≤◌, ◌≡◌, refl, sym, ap, ◌∙◌, ◌==◌, Bool, true, false, not, ◌&&◌, Option, some, List, [], ◌∷◌,
  ◌++◌, CString, codes, str_eq, str_eq→eq, str_eq_refl, truncated_fits, length, length-append, take,
  take_all, ltb, if◌then◌else◌, arith, Bool-cases, inl, inr, if_true, if_false,
}
use test_controller.Base.Int.{ℤ, pos, negsuc}
use test_controller.Storage.Entries.{Domain}
use test_controller.Spiffs.{
  File, Spiffs, Drivers, file_at, put_file, is_cal, make_path, nvs_cal_write, written, write,
}

-- The bytes of an entry.
unfoldable pub entry : Spiffs → Domain → CString → Option (List ℕ)
entry s d k = if is_cal d then file_at k s.cal else file_at (make_path k) s.files

-- Two entries are one if their keys are and both or neither belong to the calibration.
abbrev pub shares : Domain → CString → Domain → CString → Bool
shares d k d' k' = (if is_cal d then is_cal d' else not (is_cal d')) && str_eq k k'

clash : (a b : CString) → a ≡ b → str_eq a b ≡ false → ⊥
clash a b e h = ground (arith, e, h, str_eq_refl a)

file_at-put_file :
    (p : CString) (bytes : List ℕ) (p' : CString) (fs : List File)
    → file_at p' (put_file p bytes fs) ≡ (if str_eq p p' then some bytes else file_at p' fs)
unfolding file_at put_file
file_at-put_file p bytes p' [] = refl
file_at-put_file p bytes p' (f ∷ fs) = elim (Bool-cases (str_eq f.path p)) [
  | inl same ↦ rw same (
      let e : str_eq f.path p' ≡ str_eq p p' =
        ap (λ (x : CString). str_eq x p') (str_eq→eq f.path p same) in
      elim (Bool-cases (str_eq p p')) [ inl q ↦ rw q refl | inr q ↦ rw q (rw (e ∙ q) refl) ])
  | inr other ↦ rw other (elim (Bool-cases (str_eq f.path p')) [
    | inr q ↦ rw q (file_at-put_file p bytes p' fs)
    | inl q ↦
        let apart : str_eq p p' ≡ false = elim (Bool-cases (str_eq p p')) [
          | inr r ↦ r
          | inl r ↦ absurd (clash f.path p (str_eq→eq f.path p' q ∙ sym (str_eq→eq p p' r)) other)
        ] in
        rw q (rw apart refl)
  ])
]

cancel_left : (p x y : CString) → str_eq (p ++ x) (p ++ y) ≡ str_eq x y
unfolding str_eq
cancel_left [] x y = refl
cancel_left (c ∷ cs) x y = let one : (c == c) ≡ true = ground arith in rw one (cancel_left cs x y)

pub str_eq-length : (a b : CString) → ltb (length a) (length b) ≡ true → str_eq a b ≡ false
str_eq-length a b h = elim (Bool-cases (str_eq a b)) [
  | inr differ ↦ differ
  | inl same ↦
      let sizes : length a ≡ length b = ap length (str_eq→eq a b same) in
      absurd (ground (arith, h, sizes))
]

pub str_eq_sym : (a b : CString) → str_eq a b ≡ str_eq b a
unfolding str_eq
str_eq_sym [] [] = refl
str_eq_sym [] (b ∷ bs) = refl
str_eq_sym (a ∷ as') [] = refl
str_eq_sym (a ∷ as') (b ∷ bs) =
    let one : (a == b) ≡ (b == a) = ground arith in rw (one, str_eq_sym as' bs) refl

cancel_right : (x y t : CString) → str_eq (x ++ t) (y ++ t) ≡ str_eq x y
unfolding str_eq
cancel_right [] [] t = str_eq_refl t
cancel_right [] (y ∷ ys) t = str_eq-length t (y ∷ (ys ++ t)) (ground (arith, length-append ys t))
cancel_right (x ∷ xs) [] t =
    str_eq_sym (x ∷ (xs ++ t)) t
    ∙ str_eq-length t (x ∷ (xs ++ t)) (ground (arith, length-append xs t))
cancel_right (x ∷ xs) (y ∷ ys) t = ap (λ (b : Bool). (x == y) && b) (cancel_right xs ys t)

-- A key whose path fits 296 bytes.
abbrev pub IsShort : CString → Type 0
IsShort k = length k ≤ 281

pub make_path-short :
    (k : CString) → IsShort k → make_path k ≡ codes "/recipes/" ++ (k ++ codes ".json")
unfolding make_path
make_path-short k h =
    truncated_fits 296 (codes "/recipes/" ++ (k ++ codes ".json"))
      (omega (arith, length-append k (codes ".json")))

str_eq-make_path :
    (k k' : CString) → IsShort k → IsShort k' → str_eq (make_path k) (make_path k') ≡ str_eq k k'
str_eq-make_path k k' h h' =
    rw (make_path-short k h, make_path-short k' h')
      (cancel_left (codes "/recipes/") (k ++ codes ".json") (k' ++ codes ".json")
        ∙ cancel_right k k' (codes ".json"))

differ : negsuc 0 ≡ pos 0 → ⊥
differ e = cc

-- What a write that returns 0 has done.
write_cal :
    (dr : Drivers) (s : Spiffs) (d : Domain) (k : CString) (bytes : List ℕ)
    → is_cal d ≡ true
    → (write dr s d k bytes).1 ≡ pos 0
    → (write dr s d k bytes).0 ≡ record s { cal = put_file k bytes s.cal }
unfolding write nvs_cal_write
write_cal dr s d k bytes c done = elim (Bool-cases (dr.nvs_opens && dr.nvs_sets)) [
  | inl good ↦
      ap (λ (r : Spiffs × ℤ). r.0)
        (if_true _ (is_cal d) c ∙ if_true _ (dr.nvs_opens && dr.nvs_sets) good)
  | inr bad ↦
      let refused =
        ap (λ (r : Spiffs × ℤ). r.1)
          (if_true _ (is_cal d) c ∙ if_false _ (dr.nvs_opens && dr.nvs_sets) bad) in
      absurd (differ (sym refused ∙ done))
]

written_all :
    (dr : Drivers) (s : Spiffs) (path : CString) (bytes : List ℕ)
    → (written dr s path bytes).1 ≡ pos 0
    → (written dr s path bytes).0 ≡ record s { files = put_file path bytes s.files }
unfolding written
written_all dr s path bytes done = elim (Bool-cases (dr.takes (length bytes) == length bytes)) [
  | inl full ↦
      let all : take (dr.takes (length bytes)) bytes ≡ bytes =
        take_all (dr.takes (length bytes)) bytes (ground (arith, full)) in
      ap (λ (x : List ℕ). record s { files = put_file path x s.files }) all
  | inr part ↦
      absurd (differ (sym (if_false _ (dr.takes (length bytes) == length bytes) part) ∙ done))
]

pub write_file :
    (dr : Drivers) (s : Spiffs) (d : Domain) (k : CString) (bytes : List ℕ)
    → is_cal d ≡ false
    → (write dr s d k bytes).1 ≡ pos 0
    → (write dr s d k bytes).0 ≡ record s { files = put_file (make_path k) bytes s.files }
unfolding write written
write_file dr s d k bytes c done = elim (Bool-cases (not s.s_mounted)) [
  | inl off ↦
      let refused =
        ap (λ (r : Spiffs × ℤ). r.1) (if_false _ (is_cal d) c ∙ if_true _ (not s.s_mounted) off) in
      absurd (differ (sym refused ∙ done))
  | inr on ↦ elim (Bool-cases dr.opens) [
    | inr shut ↦
        let refused =
          ap (λ (r : Spiffs × ℤ). r.1)
            (if_false _ (is_cal d) c
              ∙ if_false _ (not s.s_mounted) on
              ∙ if_false _ dr.opens shut) in
        absurd (differ (sym refused ∙ done))
    | inl open' ↦
        let ran : write dr s d k bytes ≡ written dr s (make_path k) bytes =
          if_false _ (is_cal d) c ∙ if_false _ (not s.s_mounted) on ∙ if_true _ dr.opens open' in
        ap (λ (r : Spiffs × ℤ). r.0) ran
        ∙ written_all dr s (make_path k) bytes (ap (λ (r : Spiffs × ℤ). r.1) (sym ran) ∙ done)
  ]
]

-- A write that returns 0 changes one place, that of its entry: another domain has the same place where
-- neither is the calibration. The paths of the two keys fit.
pub entry-write :
    (dr : Drivers) (s : Spiffs) (d : Domain) (k : CString) (bytes : List ℕ) (d' : Domain)
    (k' : CString)
    → IsShort k
    → IsShort k'
    → (write dr s d k bytes).1 ≡ pos 0
    → entry (write dr s d k bytes).0 d' k'
      ≡ (if shares d k d' k' then some bytes else entry s d' k')
unfolding entry
entry-write dr s d k bytes d' k' h h' done = elim (Bool-cases (is_cal d)) [
  | inl c ↦
      ap (λ (x : Spiffs). entry x d' k') (write_cal dr s d k bytes c done)
      ∙ elim (Bool-cases (is_cal d')) [
        | inl c' ↦ rw (c, c') (file_at-put_file k bytes k' s.cal)
        | inr c' ↦ rw (c, c') refl
      ]
  | inr c ↦
      ap (λ (x : Spiffs). entry x d' k') (write_file dr s d k bytes c done)
      ∙ elim (Bool-cases (is_cal d')) [
        | inl c' ↦ rw (c, c') refl
        | inr c' ↦
            rw (c, c')
              (file_at-put_file (make_path k) bytes (make_path k') s.files
                ∙ ap (λ (b : Bool). if b then some bytes else file_at (make_path k') s.files)
                    (str_eq-make_path k k' h h'))
      ]
]
