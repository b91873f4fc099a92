-- ===== src/Profile/Accepted.antt =====
-- What the profiles and extensions of crates/identity-core/src/profile.rs have passed.
use rss_identity.Common.{
  ℕ, ◌^◌, ◌≤◌, ◌<◌, ◌≡◌, refl, ◌↔◌, inl, inr, true, false, Option, none, some, arith, Option-cases,
  is_none, ok,
}
use rss_identity.Common.Text.{codes}
use rss_identity.Profile.Json.{
  Value, Members, null, bool, number, string, array, object, get, ProfileLimits, check_object,
}
use rss_identity.Profile.Budget.{fits, total_members, check_object_iff}
use rss_identity.Profile.{
  default_limits, Extensions, Attribute, Profile, ProfileSettings, text, value, refused_text,
  validate, too_long, try_from, limited, apply_limits, from_claims, LocalProfile, observation,
  validate_settings, attr,
}

text-accepted : (v : Option Value) (most : ℕ) → refused_text (text v most) most ≡ false
unfolding text refused_text value
text-accepted none most = refl
text-accepted (some null) most = refl
text-accepted (some (string v)) most = ground arith
text-accepted (some (bool b)) most = refl
text-accepted (some (number n)) most = refl
text-accepted (some (array vs)) most = refl
text-accepted (some (object o)) most = refl

-- A profile read from any verified claims, with any settings and also after a deployment's limits
-- are applied, passes the validation of profiles: malformed values never make it invalid.
pub validate-from_claims :
    (serialized : Members → Option ℕ) (claims : Members) (settings : ProfileSettings)
    (limits : ProfileLimits)
    → validate (apply_limits serialized (from_claims serialized claims settings) limits) ≡ ok tt
unfolding validate from_claims apply_limits
validate-from_claims serialized claims settings limits = ground (
  arith,
  text-accepted (get (codes "name") claims) 512,
  text-accepted (get (codes "preferred_username") claims) 256,
  text-accepted (get (codes "email") claims) 320,
)

module _ (serialized : Members → Option ℕ) where
  -- The object is within the limits and its text within the bytes.
  abbrev pub Admits : ProfileLimits → Members → Type 0
  Admits limits o =
      (fits limits o ≡ true)
      × (total_members o ≤ limits.members)
      × (too_long serialized o limits.bytes ≡ false)

  walk_iff :
      (limits : ProfileLimits) (o : Members)
      → limits.members < 2 ^ 64
      → is_none (check_object limits o 1 0) ≡ false
        ↔ (fits limits o ≡ true) × (total_members o ≤ limits.members)
  walk_iff limits o small = elim (Option-cases (check_object limits o 1 0)) [
    | inl e ↦ ground (arith, e, check_object_iff limits o (total_members o) small)
    | inr (n, e) ↦ ground (arith, e, check_object_iff limits o n small)
  ]

  -- An object becomes extensions exactly when it is within the fixed limits of depth, members, array
  -- sizes, keys and values and its text has at most 65,536 bytes.
  pub extensions_iff :
      (o : Members)
      → try_from serialized (object o) ≡ ok (record { members = o }) ↔ Admits default_limits o
  unfolding try_from
  extensions_iff o = ground (arith, walk_iff default_limits o (ground arith))

  -- After limits whose members fit 64 bits are applied, extensions are available exactly when they
  -- were available before, unchanged, and are within those limits.
  limited_iff :
      (limits : ProfileLimits) (before : Attribute Extensions) (e : Extensions)
      → limits.members < 2 ^ 64
      → limited serialized limits before ≡ Attribute.available e
        ↔ (before ≡ Attribute.available e) × Admits limits e.members
  unfolding limited
  limited_iff limits Attribute.not_configured e small = ground arith
  limited_iff limits Attribute.missing e small = ground arith
  limited_iff limits Attribute.invalid e small = ground arith
  limited_iff limits (Attribute.available x) e small =
      ground (arith, walk_iff limits x.members small)

-- A local profile is observed exactly when its age is within 60 to 86,400 seconds and the observed
-- profile passes validation; it claims nothing about the verification of its address.
observation_iff :
    (l : LocalProfile) (p : Profile)
    → observation l ≡ ok p
      ↔ (60 ≤ l.max_age_seconds)
        × (l.max_age_seconds ≤ 86400)
        × (validate p ≡ ok tt)
        × (p ≡ record {
          display_name = attr l.display_name;
          username = attr l.username;
          email = attr l.email;
          email_verified = Attribute.missing;
          extensions = Attribute.available l.extensions;
        })
unfolding observation validate_settings
observation_iff l p = ground arith
