-- ===== src/Selftest.antt =====
-- src/cmd_selftest.c: the check buffer and the pass and total counters that the primitives fill and
-- the recipe engine reads.
pub mod Laws
use test_controller.Base.{
  ℕ, suc, ◌+◌, Bool, true, false, Option, none, some, List, [], ◌∷◌, ◌++◌, CString, length, ltb,
  leb, if◌then◌else◌,
}
use test_controller.Base.Int.{ℤ, pos}

pub record Check : Type 0 where
  pub id : CString
  pub pass : Bool
  pub has_value : Bool
  pub value : ℤ

-- `checks` is s_checks up to s_ncheck.
pub record Selftest : Type 0 where
  pub pass : ℕ
  pub total : ℕ
  pub checks : List Check

abbrev pub max_checks : ℕ
max_checks = 128

unfoldable pub report : Bool → Selftest → Selftest
report ok s = record s { total = s.total + 1; pass = if ok then s.pass + 1 else s.pass }

-- A full buffer drops the check.
append_check : Check → Selftest → Selftest
append_check c s =
    if leb max_checks (length s.checks) then s else record s { checks = s.checks ++ c ∷ [] }

unfoldable pub st_record : CString → Bool → Selftest → Selftest
unfolding append_check
st_record id pass = append_check (record { id = id; pass = pass; has_value = false; value = pos 0 })

unfoldable pub st_record_mv : CString → Bool → ℤ → Selftest → Selftest
unfolding append_check
st_record_mv id pass mv =
    append_check (record { id = id; pass = pass; has_value = true; value = mv })

unfoldable pub reset_checks : Selftest → Selftest
reset_checks s = record { pass = 0; total = 0; checks = [] }

unfoldable pub first_failed : List Check → Option CString
first_failed [] = none
first_failed (c ∷ cs) = if c.pass then first_failed cs else some c.id

-- The loop that counts the passes among new checks.
unfoldable pub count_passes : List Check → ℕ
count_passes [] = 0
count_passes (c ∷ cs) = if c.pass then suc (count_passes cs) else count_passes cs
