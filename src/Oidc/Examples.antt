-- ===== src/Oidc/Examples.antt =====
-- A token with the approved class
use rss_identity.Common.{◌≡◌, refl, true, false, some, List, [], ◌∷◌, ok, is_ok}
use rss_identity.Common.Int.{ℤ, pos, ◌+ℤ◌, ◌-ℤ◌, saturating_add, saturating_sub}
use rss_identity.Common.Text.{Text, codes, bytes, is_control}
use rss_identity.Assurance.{Acr, Amr, Assurance, step_up, check, canonical_methods, amr_of_name}
use rss_identity.Assurance
use rss_identity.Oidc.{normalize, refused_claims, keycloak_totp_acr}
use rss_identity.Oidc.Approved.{normalize_iff, normalize-step_up}

abbrev proved : Assurance
proved = record { auth_time = some (pos 100); acr = Acr.mfa; amr = Amr.otp ∷ Amr.pwd ∷ [] }

abbrev methods : List Text
methods = codes "pwd" ∷ codes "otp" ∷ codes "pwd" ∷ codes "unknown" ∷ []

normalizes : normalize (some (pos 100)) (some (codes "2")) methods true ≡ ok proved
unfolding normalize Assurance.new canonical_methods amr_of_name is_control bytes
normalizes = refl

steps_up : check proved step_up (pos 100) (pos 101) ≡ ok tt
unfolding check saturating_add saturating_sub ◌+ℤ◌ ◌-ℤ◌
steps_up = refl

normalize-step_up_example :
    (true ≡ true)
    × (some (codes "2") ≡ some keycloak_totp_acr)
    × ((t : ℤ) × (some (pos 100) ≡ some t))
normalize-step_up_example =
    normalize-step_up (some (pos 100)) (some (codes "2")) methods true proved (pos 100) (pos 101)
      normalizes steps_up

in_bounds : refused_claims (some (codes "2")) methods ≡ false
unfolding refused_claims is_control bytes
in_bounds = refl

normalize_iff_example : is_ok (normalize (some (pos 100)) (some (codes "2")) methods true) ≡ true
normalize_iff_example =
    (normalize_iff (some (pos 100)) (some (codes "2")) methods true).1 (in_bounds, refl)
