-- ===== src/Session/Examples.antt =====
-- A session of five minutes idle and one hour in all, issued at 1000.
use rss_identity.Common.{ℕ, ◌≡◌, refl, some, List, [], ◌∷◌, arith, ok}
use rss_identity.Common.Int.{pos, ◌+ℤ◌, ◌-ℤ◌, ◌≤ℤ◌, ◌<ℤ◌, checked_add}
use rss_identity.Common.Text.{Text}
use rss_identity.Session.Secret.{parse, generate}
use rss_identity.Session.Secret.Hex.{parse-generate, hex-injective}
use rss_identity.Session.Lifetime.{SessionPolicy, SessionLifetime, new_policy, valid_at, renew}
use rss_identity.Session.Lifetime.Bounds.{IsPolicy, IsValid, new_policy_iff}
use rss_identity.Session.Lifetime.Renewal.{renew_all, renew_all-absolute}

abbrev limits : SessionPolicy
limits = record { idle = pos 300; absolute = pos 3600 }

abbrev issued : SessionLifetime
issued = record {
  policy = limits;
  issued_at = pos 1000;
  idle_expires_at = pos 1300;
  absolute_expires_at = pos 4600;
}

issued-IsValid : IsValid issued
unfolding ◌-ℤ◌
issued-IsValid = record {
  issued = omega arith;
  open_window = omega arith;
  capped = omega arith;
  duration = refl;
  duration_fits = omega arith;
}

new_policy_iff_example : IsPolicy limits
unfolding new_policy
new_policy_iff_example = (new_policy_iff (pos 300) (pos 3600)).0 refl

abbrev renewed : SessionLifetime
renewed = record issued { idle_expires_at = pos 1500 }

renews : renew issued (pos 1200) ≡ ok renewed
unfolding renew checked_add ◌+ℤ◌
renews = refl

renews_once : renew_all issued (pos 1200 ∷ []) ≡ ok renewed
unfolding renew_all
renews_once = rw renews

renew_all-absolute_example : (pos 1000 ≤ℤ pos 1499) × (pos 1499 <ℤ pos 1000 +ℤ pos 3600)
unfolding valid_at
renew_all-absolute_example =
    renew_all-absolute issued renewed (pos 1200 ∷ []) (pos 1499) issued-IsValid renews_once refl

abbrev seed : List ℕ
seed =
    0 ∷ 1 ∷ 2 ∷ 3 ∷ 4 ∷ 5 ∷ 6 ∷ 7 ∷ 8 ∷ 9 ∷ 10 ∷ 11 ∷ 12 ∷ 13 ∷ 14 ∷ 15 ∷ 16 ∷ 17 ∷ 18 ∷ 19 ∷ 20
    ∷ 21 ∷ 22 ∷ 23 ∷ 24 ∷ 25 ∷ 26 ∷ 27 ∷ 28 ∷ 29 ∷ 254 ∷ 255 ∷ []

parse-generate_example :
    (secret : Text) × (generate (some seed) ≡ some secret) × (parse secret ≡ some secret)
parse-generate_example = parse-generate seed (omega arith) refl

hex-injective_example : seed ≡ seed
hex-injective_example = hex-injective seed seed (omega arith) (omega arith) refl
