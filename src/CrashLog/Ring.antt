-- ===== src/CrashLog/Ring.antt =====
-- The ring of src/crash_log.c as a list.
use test_controller.Base.{
  ℕ, zero, suc, ◌+◌, ◌-◌, ◌%◌, ◌≤◌, ◌<◌, ◌≡◌, ◌≢◌, ◌∙◌, sym, ap, refl, Bool, true, false, Option,
  some, List, [], ◌∷◌, ◌++◌, arith, ltb, if◌then◌else◌, length, length-append, Bool-cases, inl, inr,
  drop,
}
use test_controller.CrashLog.{
  Crash, Log, capacity, slot_of, store_at, save_pointers, append_entry, records_from, oldest, dump,
}

-- The pointers are in range.
pub record IsRing (s : Log) : Type 0 where
  pub head_fits : s.s_head < 8
  pub count_fits : s.s_count ≤ 8

-- A list of which the last eight are kept.
abbrev pub last_eight : List (Option Crash) → List (Option Crash)
last_eight rs = drop (length rs - 8) rs

store_at_self : (idx : ℕ) (e : Crash) (blobs : ℕ → Option Crash) → store_at idx e blobs idx ≡ some e
store_at_self idx e blobs = ground arith

store_at_other :
    (idx i : ℕ) (e : Crash) (blobs : ℕ → Option Crash) → i ≢ idx → store_at idx e blobs i ≡ blobs i
store_at_other idx i e blobs h = ground arith

pub length-records_from :
    (blobs : ℕ → Option Crash) (idx n : ℕ) → length (records_from blobs idx n) ≡ n
unfolding records_from
length-records_from blobs idx zero = refl
length-records_from blobs idx (suc n) = ap suc (length-records_from blobs (idx + 1) n)

records_from-store_at :
    (h : ℕ) (e : Crash) (blobs : ℕ → Option Crash) (idx n : ℕ)
    → ((j : ℕ) → j < n → slot_of (idx + j) ≢ h)
    → records_from (store_at h e blobs) idx n ≡ records_from blobs idx n
unfolding records_from
records_from-store_at h e blobs idx zero apart = refl
records_from-store_at h e blobs idx (suc n) apart =
    rw
      (
        store_at_other h (slot_of idx) e blobs
            (λ (eq : slot_of idx ≡ h). apart 0 (omega arith) (omega arith)),
        records_from-store_at h e blobs (idx + 1) n
            (λ j less (eq : slot_of (idx + 1 + j) ≡ h). apart (suc j) (omega arith) (omega arith)),
      )
      refl

records_from-snoc :
    (blobs : ℕ → Option Crash) (idx n : ℕ)
    → records_from blobs idx (suc n) ≡ records_from blobs idx n ++ blobs (slot_of (idx + n)) ∷ []
unfolding records_from
records_from-snoc blobs idx zero = ap (λ i. blobs (slot_of i) ∷ []) (omega arith)
records_from-snoc blobs idx (suc n) = ap (◌∷◌ (blobs (slot_of idx))) (
    records_from-snoc blobs (idx + 1) n
    ∙ ap (λ i. records_from blobs (idx + 1) n ++ blobs (slot_of i) ∷ []) (omega arith))

records_from-mod :
    (blobs : ℕ → Option Crash) (i j n : ℕ)
    → slot_of i ≡ slot_of j
    → records_from blobs i n ≡ records_from blobs j n
unfolding records_from
records_from-mod blobs i j zero h = refl
records_from-mod blobs i j (suc n) h =
    rw (h, records_from-mod blobs (i + 1) (j + 1) n (omega arith)) refl

module _ (e : Crash) (blobs : ℕ → Option Crash) (h : ℕ) (h_fits : h < 8) where
  abbrev written : ℕ → Option Crash
  written = store_at (slot_of h) e blobs

  last_written : (idx n : ℕ) → slot_of (idx + n) ≡ slot_of h → written (slot_of (idx + n)) ≡ some e
  last_written idx n same = rw same (store_at_self (slot_of h) e blobs)

  -- Behind n records that the write leaves alone stands the new one.
  records_from-written :
      (idx n m : ℕ)
      → m ≡ suc n
      → ((j : ℕ) → j < n → slot_of (idx + j) ≢ slot_of h)
      → slot_of (idx + n) ≡ slot_of h
      → records_from written idx m ≡ records_from blobs idx n ++ some e ∷ []
  records_from-written idx n m next apart same =
      ap (records_from written idx) next
      ∙ records_from-snoc written idx n
      ∙ rw (records_from-store_at (slot_of h) e blobs idx n apart, last_written idx n same) refl

  -- An append with room left.
  room :
      (c : ℕ)
      → c < 8
      → records_from written (((h + 1) % 8 + 8 - (c + 1)) % 8) (c + 1)
        ≡ records_from blobs ((h + 8 - c) % 8) c ++ some e ∷ []
  room c fits =
      records_from-mod written (((h + 1) % 8 + 8 - (c + 1)) % 8) ((h + 8 - c) % 8) (c + 1)
        (omega arith)
      ∙ records_from-written ((h + 8 - c) % 8) c (c + 1) (omega arith)
          (λ j less (eq : slot_of ((h + 8 - c) % 8 + j) ≡ slot_of h). omega arith) (omega arith)

  -- An append to a full ring.
  full :
      records_from written (((h + 1) % 8 + 8 - 8) % 8) 8
      ≡ drop 1 (records_from blobs ((h + 8 - 8) % 8) 8 ++ some e ∷ [])
  unfolding records_from
  full =
      records_from-mod written (((h + 1) % 8 + 8 - 8) % 8) (h + 1) 8 (omega arith)
      ∙ records_from-written (h + 1) 7 8 refl
          (λ j less (eq : slot_of (h + 1 + j) ≡ slot_of h). omega arith) (omega arith)
      ∙ ap (λ rs. drop 1 (rs ++ some e ∷ []))
          (records_from-mod blobs h ((h + 8 - 8) % 8) 8 (omega arith))

module _ (e : Crash) (blobs : ℕ → Option Crash) (h : ℕ) (h_fits : h < 8) where
  full_at :
      (c : ℕ)
      → c ≡ 8
      → records_from (written e blobs h h_fits) (((h + 1) % 8 + 8 - c) % 8) c
        ≡ drop 1 (records_from blobs ((h + 8 - c) % 8) c ++ some e ∷ [])
  full_at c eight = rw eight (full e blobs h h_fits)

dump-save_pointers : (opened : Bool) (s : Log) → dump (save_pointers opened s) ≡ dump s
unfolding save_pointers dump
dump-save_pointers true s = refl
dump-save_pointers false s = refl

save_pointers-IsRing : (opened : Bool) (s : Log) → IsRing s → IsRing (save_pointers opened s)
unfolding save_pointers
save_pointers-IsRing true s v = record { head_fits = v.head_fits; count_fits = v.count_fits }
save_pointers-IsRing false s v = v

-- append_entry up to the pointers.
abbrev appended : Crash → Log → Log
appended e s = record s {
  nvs = record s.nvs { blobs = store_at (slot_of s.s_head) e s.nvs.blobs };
  s_head = (s.s_head + 1) % 8;
  s_count = if ltb s.s_count capacity then s.s_count + 1 else s.s_count;
}

pub last_eight_lem :
    (rs : List (Option Crash)) (n : ℕ) → length rs - 8 ≡ n → last_eight rs ≡ drop n rs
last_eight_lem rs n h = ap (λ k. drop k rs) h

length-dump : (e : Crash) (s : Log) → length (dump s ++ some e ∷ []) ≡ s.s_count + 1
unfolding dump
length-dump e s =
    length-append (dump s) (some e ∷ [])
    ∙ ap (λ n. n + 1) (length-records_from s.nvs.blobs (oldest s) s.s_count)

room_left : (c : ℕ) → ltb c capacity ≡ true → c < 8
room_left c h = ground arith

no_room : (c : ℕ) → ltb c capacity ≡ false → c ≤ 8 → c ≡ 8
no_room c h k = ground arith

dump-appended :
    (e : Crash) (s : Log) → IsRing s → dump (appended e s) ≡ last_eight (dump s ++ some e ∷ [])
unfolding dump
dump-appended e s v = elim (Bool-cases (ltb s.s_count capacity)) [
  | inl less ↦
      rw (less, dump)
        (room e s.nvs.blobs s.s_head v.head_fits s.s_count (room_left s.s_count less)
          ∙ sym (
              last_eight_lem (dump s ++ some e ∷ []) 0
                (omega (arith, length-dump e s, room_left s.s_count less))))
  | inr more ↦
      rw (more, dump)
        (full_at e s.nvs.blobs s.s_head v.head_fits s.s_count (no_room s.s_count more v.count_fits)
          ∙ sym (
              last_eight_lem (dump s ++ some e ∷ []) 1
                (omega (arith, length-dump e s, no_room s.s_count more v.count_fits))))
]

appended-IsRing : (e : Crash) (s : Log) → IsRing s → IsRing (appended e s)
appended-IsRing e s v = record { head_fits = omega arith; count_fits = ground arith }

-- An append adds the crash behind the others, of which the last eight are kept: what the dump shows is
-- a list with a bound. The pointers stay in range.
pub dump-append_entry :
    (again : Bool) (e : Crash) (s : Log)
    → IsRing s
    → (dump (append_entry true again e s) ≡ last_eight (dump s ++ some e ∷ []))
      × IsRing (append_entry true again e s)
unfolding append_entry
dump-append_entry again e s v = (
  dump-save_pointers again (appended e s) ∙ dump-appended e s v,
  save_pointers-IsRing again (appended e s) (appended-IsRing e s v),
)
