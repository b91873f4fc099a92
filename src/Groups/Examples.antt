-- ===== src/Groups/Examples.antt =====
-- The group theorems at a small claim.
use rss_identity.Groups.{dedup, sort, present, bounded_values, make_present, expires_at}
use rss_identity.Common.{◌≡◌, refl, true, List, [], ◌∷◌, arith, ok}
use rss_identity.Common.Int.{pos, ◌+ℤ◌, ◌-ℤ◌, checked_add, checked_sub}
use rss_identity.Common.Text.{Text, codes, bytes, is_control, contains_text}
use rss_identity.Common.Text.Order.{str_lt}
use rss_identity.Common.Text.Sort.{sort, dedup}
use rss_identity.Facts
use rss_identity.Facts.{FactSource}
use rss_identity.Groups.Sets.{make_present-ext}

abbrev claimed : List Text
claimed = codes "ops" ∷ codes "dev" ∷ codes "ops" ∷ []

abbrev reordered : List Text
reordered = codes "dev" ∷ codes "ops" ∷ []

claimed_bounded : bounded_values claimed ≡ true
unfolding bounded_values bytes is_control
claimed_bounded = refl

reordered_bounded : bounded_values reordered ≡ true
unfolding bounded_values bytes is_control
reordered_bounded = refl

same_members : (s : Text) → contains_text claimed s ≡ contains_text reordered s
same_members s = grind arith

make_present-ext_example : make_present claimed ≡ make_present reordered
make_present-ext_example =
    make_present-ext claimed reordered claimed_bounded reordered_bounded same_members

abbrev source : FactSource
source = record { provider_id = 7; issuer = codes "https://idp.test" }

sorts : make_present claimed ≡ ok (present reordered)
unfolding make_present bounded_values bytes is_control sort dedup str_lt
sorts = refl

deadline : expires_at (pos 120) (pos 1000) (pos 4600) (pos 1010) ≡ ok (pos 1120)
unfolding expires_at Facts.expires_at checked_add checked_sub ◌+ℤ◌ ◌-ℤ◌
deadline = refl
