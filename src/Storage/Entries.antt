-- ===== src/Storage/Entries.antt =====
-- The slots of storage/storage_mock.c, and the loops that search them for a key.
use test_controller.Base.{
  ℕ, ◌≡◌, Bool, true, ◌&&◌, Option, none, some, List, [], ◌∷◌, ◌++◌, arith, CString, str_eq, take,
  drop, ◌==◌, if◌then◌else◌,
}

pub data Domain : Type 0 where
  recipes calibration configuration : Domain

abbrev domain_code : Domain → ℕ
domain_code recipes = 0
domain_code calibration = 1
domain_code configuration = 2

unfoldable pub domain_eq : Domain → Domain → Bool
domain_eq a b = domain_code a == domain_code b

pub domain_eq→eq : (a b : Domain) → domain_eq a b ≡ true → a ≡ b
unfolding domain_eq
domain_eq→eq a b h = ground arith

pub domain_eq_refl : (a : Domain) → domain_eq a a ≡ true
unfolding domain_eq
domain_eq_refl a = ground arith

-- `value` holds the bytes that have been written so far of the array of 32768.
pub record Entry : Type 0 where
  pub key : CString
  pub domain : Domain
  pub value : List ℕ
  pub size : ℕ
  pub valid : Bool

-- The test of every search loop.
unfoldable pub matches : Domain → CString → Entry → Bool
matches d k e = e.valid && (domain_eq e.domain d && str_eq e.key k)

-- The first slot that passes the test.
unfoldable pub find : Domain → CString → List Entry → Option Entry
find d k [] = none
find d k (e ∷ es) = if matches d k e then some e else find d k es

-- The loops that change the first slot that passes the test, and return.
unfoldable pub modify : Domain → CString → (Entry → Entry) → List Entry → List Entry
modify d k f [] = []
modify d k f (e ∷ es) = if matches d k e then f e ∷ es else e ∷ modify d k f es

-- memcpy(dst, src, n) leaves the bytes behind the first n as they are.
unfoldable pub memcpy : List ℕ → List ℕ → ℕ → List ℕ
memcpy dst src n = take n src ++ drop n dst
