-- ===== src/Assurance/Examples.antt =====
-- The assurance theorems at a password login and a step-up.
use rss_identity.Common.{◌≡◌, refl, true, false, some, [], ◌∷◌, arith, ok}
use rss_identity.Common.Int.{pos, ◌+ℤ◌}
use rss_identity.Assurance.{Acr, Amr, Assurance, step_up, check, canonical_methods}
use rss_identity.Assurance.Methods.{canonical_methods-eq-listed, listed}
use rss_identity.Assurance.Check.{check_iff}

canonical_methods-eq-listed_example : (Amr.mfa ∷ Amr.pwd ∷ []) ≡ listed true false true
unfolding canonical_methods
canonical_methods-eq-listed_example = canonical_methods-eq-listed (Amr.mfa ∷ Amr.pwd ∷ []) refl

abbrev strong : Assurance
strong = record { auth_time = some (pos 990); acr = Acr.mfa; amr = Amr.mfa ∷ [] }

check_iff_example : check strong step_up (pos 1000) (pos 1010) ≡ ok tt
unfolding ◌+ℤ◌
check_iff_example =
    (check_iff strong step_up (pos 1000) (pos 1010) (omega arith) (omega arith) (omega arith)).1
      (omega arith, omega arith, (omega arith, omega arith), refl)
