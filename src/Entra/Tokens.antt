-- ===== src/Entra/Tokens.antt =====
-- What an accepted Entra token and its profile guarantee.
use rss_identity.Common.{
  ◌≤◌, ◌<◌, ◌≡◌, true, false, List, [], ◌∷◌, arith, is_some_and, length, any, is_empty, ok,
}
use rss_identity.Common.Int.{pos, ◌<ℤ◌}
use rss_identity.Common.Text.{contains}
use rss_identity.Common.Ids.{Uuid, is_nil}
use rss_identity.Entra.{
  SubjectMapping, EntraTokenProfile, EntraTokenClaims, subject, matches, validate_subject,
  validate_profile, validate_claims, set_size,
}

abbrev pub Distinct : List Uuid → Type 0
Distinct [] = Unit {0}
Distinct (u ∷ us) = (contains us u ≡ false) × Distinct us

set_size-le : (us : List Uuid) → set_size us ≤ length us
unfolding set_size
set_size-le [] = omega arith
set_size-le (u ∷ us) = ground (arith, set_size-le us)

set_size-Distinct : (us : List Uuid) → set_size us ≡ length us → Distinct us
unfolding set_size
set_size-Distinct [] h = tt
set_size-Distinct (u ∷ us) h =
    (ground (arith, set_size-le us), set_size-Distinct us (ground (arith, set_size-le us)))

-- What an accepted profile guarantees of its clients.
pub record IsProfile (p : EntraTokenProfile) : Type 0 where
  pub real_tenant : is_nil p.tenant ≡ false
  pub some_client : 0 < length p.authorized_clients
  pub few_clients : length p.authorized_clients ≤ 16
  pub real_clients : any is_nil p.authorized_clients ≡ false
  pub distinct_clients : Distinct p.authorized_clients

profile-IsProfile : (p : EntraTokenProfile) → validate_profile p ≡ ok tt → IsProfile p
unfolding validate_profile
profile-IsProfile p h = record {
  real_tenant = ground arith;
  some_client = nonempty p.authorized_clients (ground arith);
  few_clients = ground arith;
  real_clients = ground arith;
  distinct_clients = set_size-Distinct p.authorized_clients (ground arith);
}
  where
    nonempty : (us : List Uuid) → is_empty us ≡ false → 0 < length us
    nonempty [] e = cc
    nonempty (u ∷ us) e = omega arith

-- What accepted claims guarantee under their profile.
pub record IsBound (c : EntraTokenClaims) (p : EntraTokenProfile) : Type 0 where
  pub profile : IsProfile p
  pub subject_ok : validate_subject (subject c) ≡ ok tt
  pub in_tenant : matches (subject c) (SubjectMapping.entra p.tenant) ≡ true
  pub real_user : is_nil c.user ≡ false
  pub real_device : is_some_and c.device is_nil ≡ false
  pub issued : pos 0 <ℤ c.issued_at
  pub spans : c.issued_at <ℤ c.expires_at

-- Accepted token claims name a valid subject of the profile's own tenant, a real user and, if any, a
-- real device, and a positive span of time; and the profile has 1 to 16 distinct, real clients.
pub validate_claims-IsBound :
    (c : EntraTokenClaims) (p : EntraTokenProfile) → validate_claims c p ≡ ok tt → IsBound c p
unfolding validate_claims validate_subject matches
validate_claims-IsBound c p h = record {
  profile = profile-IsProfile p (ground arith);
  subject_ok = ground arith;
  in_tenant = ground arith;
  real_user = ground arith;
  real_device = ground arith;
  issued = ground arith;
  spans = ground arith;
}
