-- ===== src/Federation/Upstream.antt =====
-- crates/identity-core/src/federation.rs: the claims that the upstream adapter returns.
use rss_identity.Common.{
  arith, subst, ok, sym, ◌≡◌, List, ℕ, Option, ◌||◌, Result, ◌>>◌, reject_if, map_err,
}
use rss_identity.Common.Int.{◌<ℤ◌, ℤ, pos, leb_ℤ}
use rss_identity.Common.Text.{Text}
use rss_identity.Assurance.{Assurance}
use rss_identity.Department.{UpstreamDepartmentSnapshot}
use rss_identity.Entra.{ExternalSubject, validate_subject}
use rss_identity.Federation.Errors.{FederationError, claims}
use rss_identity.Profile.Json.{Members, ProfileLimits}
use rss_identity.Profile.{ProfileSettings, Profile}
use rss_identity.Profile.Accepted.{validate-from_claims}
use rss_identity.Groups.Sets.{validate-make_present}
use rss_identity.Groups
use rss_identity.Groups.{UpstreamGroups}
use rss_identity.Profile

pub record UpstreamClaims : Type 0 where
  pub issuer : Text
  pub subject : ExternalSubject
  pub profile : Profile
  pub groups : UpstreamGroups
  pub department_snapshot : UpstreamDepartmentSnapshot
  pub issued_at : ℤ
  pub expires_at : ℤ
  pub assurance : Assurance

unfoldable pub validate_upstream : UpstreamClaims → Result (Unit {0}) FederationError
validate_upstream c = do
  validate_subject c.subject
  Groups.validate c.groups
  reject_if (leb_ℤ c.issued_at (pos 0) || leb_ℤ c.expires_at c.issued_at) claims
  map_err (Profile.validate c.profile) (λ _. claims)

-- What the adapter makes of verified claims, a profile read from them with any settings and limits
-- and any groups that can be made present, passes the validation of upstream claims whenever the
-- subject is valid and the times are positive and in order.
validate_upstream-from_claims :
    (c : UpstreamClaims) (serialized : Members → Option ℕ) (raw : Members)
    (settings : ProfileSettings) (limits : ProfileLimits) (values : List Text)
    → validate_subject c.subject ≡ ok tt
    → Groups.make_present values ≡ ok c.groups
    → c.profile
      ≡ Profile.apply_limits serialized (Profile.from_claims serialized raw settings) limits
    → pos 0 <ℤ c.issued_at
    → c.issued_at <ℤ c.expires_at
    → validate_upstream c ≡ ok tt
unfolding validate_upstream
validate_upstream-from_claims c serialized raw settings limits values s g p i e =
    let valid = validate-from_claims serialized raw settings limits in
    let groups : Groups.validate c.groups ≡ ok tt = validate-make_present values c.groups g in
    let profile : Profile.validate c.profile ≡ ok tt =
      subst (λ x. Profile.validate x ≡ ok tt) (sym p) valid in
    ground (arith, s, groups, profile, i, e)
