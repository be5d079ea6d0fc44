-- ===== src/Selftest/Laws.antt =====
-- Laws of the check buffer of src/cmd_selftest.c.
use test_controller.Base.{◌≤◌, ◌≡◌, refl, true, ◌↔◌, List, [], ◌∷◌, arith, length}
use test_controller.Selftest.{Check, count_passes}

abbrev pub AllPass : List Check → Type 0
AllPass [] = Unit {0}
AllPass (c ∷ cs) = (c.pass ≡ true) × AllPass cs

pub count_passes-le-length : (cs : List Check) → count_passes cs ≤ length cs
unfolding count_passes
count_passes-le-length [] = omega arith
count_passes-le-length (c ∷ cs) = ground (arith, count_passes-le-length cs)

-- The count reaches the length exactly when every check passed.
pub count_passes-all : (cs : List Check) → (count_passes cs ≡ length cs) ↔ AllPass cs
unfolding count_passes
count_passes-all [] = ((λ h. tt), (λ h. refl))
count_passes-all (c ∷ cs) = ground (arith, count_passes-all cs, count_passes-le-length cs)
