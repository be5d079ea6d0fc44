-- ===== src/Engine/Verdict.antt =====
-- What the verdict on a primitive says of the checks that it recorded.
use test_controller.Base.{
  suc, ◌+◌, ◌≤◌, ◌<◌, ◌≡◌, refl, ap, ◌∙◌, Bool, true, false, ◌↔◌, ◌&&◌, List, [], ◌∷◌, ◌++◌, arith,
  CString, length, length-append, length-drop, drop,
}
use mathlib.Core.List.{append_assoc, append-nil}
use mathlib.Core.Path.{subst}
use test_controller.Base.Int.{pos}
use test_controller.Selftest.{Selftest, Check, max_checks, st_record}
use test_controller.Selftest.Laws.{AllPass, count_passes-all}
use test_controller.Engine.Machine.{verdict}

drop-length : {A : Type 0} (xs ys : List A) → drop (length xs) (xs ++ ys) ≡ ys
drop-length [] ys = refl
drop-length (x ∷ xs) ys = drop-length xs ys

-- Where the primitive added checks, it passes exactly when each of the new ones passed.
pub verdict-AllPass :
    (before after : Selftest)
    → length before.checks < length after.checks
    → (verdict before after ≡ true) ↔ AllPass (drop (length before.checks) after.checks)
unfolding verdict
verdict-AllPass before after grew = ground (
  arith,
  length-drop (length before.checks) after.checks,
  count_passes-all (drop (length before.checks) after.checks),
)

-- A primitive that records the given checks by selftest_check_record, one after the other.
pub record_all : List (CString × Bool) → Selftest → Selftest
record_all [] s = s
record_all ((id, ok) ∷ cs) s = record_all cs (st_record id ok s)

abbrev pub all_ok : List (CString × Bool) → Bool
all_ok [] = true
all_ok ((id, ok) ∷ cs) = ok && all_ok cs

abbrev checks_of : List (CString × Bool) → List Check
checks_of [] = []
checks_of ((id, ok) ∷ cs) =
    record { id = id; pass = ok; has_value = false; value = pos 0 } ∷ checks_of cs

abbrev check_of : CString → Bool → Check
check_of id ok = record { id = id; pass = ok; has_value = false; value = pos 0 }

st_record-room :
    (id : CString) (ok : Bool) (s : Selftest)
    → length s.checks < max_checks
    → st_record id ok s ≡ record s { checks = s.checks ++ check_of id ok ∷ [] }
unfolding st_record
st_record-room id ok s h = ground arith

record_all-room :
    (cs : List (CString × Bool)) (s : Selftest)
    → length s.checks + length cs ≤ max_checks
    → record_all cs s ≡ record s { checks = s.checks ++ checks_of cs }
unfolding record_all
record_all-room [] s h = simp append-nil
record_all-room ((id, ok) ∷ cs) s h = simp (st_record-room id ok s (omega arith)) (
    record_all-room cs (record s { checks = s.checks ++ check_of id ok ∷ [] })
      (omega (arith, length-append s.checks (check_of id ok ∷ [])))
    ∙ simp append_assoc)

record_all-full :
    (cs : List (CString × Bool)) (s : Selftest) → max_checks ≤ length s.checks → record_all cs s ≡ s
unfolding record_all st_record
record_all-full [] s h = refl
record_all-full ((id, ok) ∷ cs) s h =
    let same : st_record id ok s ≡ s = ground arith in rw same (record_all-full cs s h)

all_ok-AllPass : (cs : List (CString × Bool)) → (all_ok cs ≡ true) ↔ AllPass (checks_of cs)
all_ok-AllPass [] = ((λ h. tt), (λ h. refl))
all_ok-AllPass ((id, ok) ∷ cs) = ground (arith, all_ok-AllPass cs)

length-checks_of : (cs : List (CString × Bool)) → length (checks_of cs) ≡ length cs
length-checks_of [] = refl
length-checks_of ((id, ok) ∷ cs) = ap suc (length-checks_of cs)

Bool_ext : (a b : Bool) → ((a ≡ true) ↔ (b ≡ true)) → a ≡ b
Bool_ext a b h = ground arith

verdict-append :
    (xs : List Check) (s : Selftest)
    → 0 < length xs
    → (verdict s (record s { checks = s.checks ++ xs }) ≡ true) ↔ AllPass xs
verdict-append xs s some_new =
    subst (λ new. (verdict s (record s { checks = s.checks ++ xs }) ≡ true) ↔ AllPass new)
      (drop-length s.checks xs)
      (verdict-AllPass s (record s { checks = s.checks ++ xs })
        (omega (arith, length-append s.checks xs)))

-- While the buffer has room for all of its checks, a primitive that records at least one passes
-- exactly when each of them is a pass.
pub verdict-record_all :
    (c : CString × Bool) (cs : List (CString × Bool)) (s : Selftest)
    → length s.checks + length (c ∷ cs) ≤ max_checks
    → verdict s (record_all (c ∷ cs) s) ≡ all_ok (c ∷ cs)
verdict-record_all c cs s room =
    let judged = verdict-append (checks_of (c ∷ cs)) s (omega arith) in
    let all = all_ok-AllPass (c ∷ cs) in
    rw (record_all-room (c ∷ cs) s room)
      (Bool_ext _ _ ((λ v. all.1 (judged.0 v)), (λ a. judged.1 (all.0 a))))

-- Once the buffer holds 128 checks, a primitive that records its checks this way passes, whatever
-- they say.
pub verdict-record_all_full :
    (cs : List (CString × Bool)) (s : Selftest)
    → max_checks ≤ length s.checks
    → verdict s (record_all cs s) ≡ true
unfolding verdict
verdict-record_all_full cs s full = rw (record_all-full cs s full) (ground arith)
