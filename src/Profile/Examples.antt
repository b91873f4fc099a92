-- ===== src/Profile/Examples.antt =====
-- The profile theorems at a small set of claims.
use rss_identity.Common.{ℕ, ◌*◌, ◌≡◌, refl, true, Option, none, some, arith, ok}
use rss_identity.Common.Text.{codes, bytes, is_control}
use rss_identity.Profile.Json.{Members, string, object, end, member, count_members, check_object}
use rss_identity.Profile.Budget.{fits, total_members, total_entries, fits_entries, check_object_iff}
use rss_identity.Profile.{
  default_limits, Extensions, Attribute, Profile, ProfileSettings, LocalProfile, apply_limits,
  from_claims, validate, too_long, attr,
}
use rss_identity.Profile.Accepted.{validate-from_claims, Admits}

abbrev inner : Members
inner = member (codes "team") (string (codes "ops")) end

abbrev root : Members
root = member (codes "org") (object inner) end

abbrev claims : Members
claims = member (codes "name") (string (codes "Ada")) (member (codes "ext") (object root) end)

abbrev settings : ProfileSettings
settings = record { extensions_claim = some (codes "ext"); max_age_seconds = 14400 }

-- A text of ten bytes for each member
abbrev serialized : Members → Option ℕ
serialized o = some (10 * count_members o)

root-fits : fits default_limits root ≡ true
unfolding fits fits_entries rss_identity.Profile.Json.refused_key is_control
root-fits = refl

root-Admits : Admits serialized default_limits root
unfolding too_long total_members total_entries count_members
root-Admits = (root-fits, omega arith, refl)

check_object_iff_example : check_object default_limits root 1 0 ≡ some 2
unfolding total_members total_entries count_members
check_object_iff_example =
    (check_object_iff default_limits root 2 (omega arith)).1 (root-fits, omega arith, refl)

validate-from_claims_example :
    validate (apply_limits serialized (from_claims serialized claims settings) default_limits)
    ≡ ok tt
validate-from_claims_example = validate-from_claims serialized claims settings default_limits

abbrev extensions : Extensions
extensions = record { members = root }

abbrev local : LocalProfile
local = record {
  display_name = some (codes "Ada");
  username = none;
  email = none;
  extensions = extensions;
  max_age_seconds = 3600;
}

abbrev observed : Profile
observed = record {
  display_name = attr local.display_name;
  username = attr local.username;
  email = attr local.email;
  email_verified = Attribute.missing;
  extensions = Attribute.available extensions;
}

observed_valid : validate observed ≡ ok tt
unfolding validate rss_identity.Profile.refused_text rss_identity.Profile.value attr bytes
    is_control
observed_valid = refl
