-- ===== src/Entra.antt =====
-- crates/identity-core/src/entra.rs
pub mod StorageKeys
pub mod Tokens
mod Examples
use rss_identity.Common.{
  ℕ, ◌+◌, Bool, true, false, not, ◌&&◌, ◌||◌, Option, List, [], ◌∷◌, ◌++◌, map, ltb, leb, ◌==◌,
  if◌then◌else◌, is_some_and, length, any, all, is_empty, Result, ok, err, ◌>>=◌, ◌>>◌, reject_if,
}
use rss_identity.Common.Int.{ℤ, pos, leb_ℤ}
use rss_identity.Common.Text.{
  Text, codes, bytes, len, is_control, is_whitespace, is_ascii_alphanumeric, contains,
  contains_text,
}
use rss_identity.Common.Ids.{Uuid, is_nil}
use rss_identity.Common.Url.{Parsers}
use rss_identity.Federation.Errors.{FederationError, claims, configuration}

pub data SubjectMapping : Type 0 where
  oidc : SubjectMapping
  entra : Uuid → SubjectMapping

pub data ExternalSubject : Type 0 where
  oidc : Text → ExternalSubject
  entra : Uuid → Uuid → ExternalSubject

unfoldable pub validate_subject : ExternalSubject → Result (Unit {0}) FederationError
validate_subject (ExternalSubject.oidc v) =
    if not (is_empty v) && leb (len v) 255 && not (any is_control v) then ok tt else err claims
validate_subject (ExternalSubject.entra tenant user) =
    if not (is_nil tenant) && not (is_nil user) then ok tt else err claims

-- `format!` of the subject, with the `Display` of the uuid crate
unfoldable pub storage_key : Parsers → ExternalSubject → Text
storage_key parsers (ExternalSubject.oidc v) = codes "oidc:" ++ v
storage_key parsers (ExternalSubject.entra tenant user) =
    codes "entra:" ++ (parsers.show_uuid tenant ++ (codes ":" ++ parsers.show_uuid user))

unfoldable pub matches : ExternalSubject → SubjectMapping → Bool
matches (ExternalSubject.oidc v) SubjectMapping.oidc = true
matches (ExternalSubject.entra a user) (SubjectMapping.entra b) = a == b
matches (ExternalSubject.oidc v) (SubjectMapping.entra b) = false
matches (ExternalSubject.entra a user) SubjectMapping.oidc = false

pub record EntraTokenProfile : Type 0 where
  pub tenant : Uuid
  pub app_id : Uuid
  pub authorized_clients : List Uuid
  pub required_scopes : List Text
  pub device_claim : Text

-- The size of the `BTreeSet` of a list.
unfoldable pub set_size : List Uuid → ℕ
set_size [] = 0
set_size (u ∷ us) = (if contains us u then 0 else 1) + set_size us

abbrev pub is_claim_byte : ℕ → Bool
is_claim_byte b = is_ascii_alphanumeric b || b == b'_'

abbrev pub reserved_claims : List Text
reserved_claims = map codes (
    "iss" ∷ "aud" ∷ "tid" ∷ "oid" ∷ "sub" ∷ "idtyp" ∷ "ver" ∷ "azp" ∷ "exp" ∷ "nbf" ∷ "iat" ∷ "scp"
    ∷ [])

unfoldable pub validate_profile : EntraTokenProfile → Result (Unit {0}) FederationError
unfolding set_size
validate_profile p =
    if is_nil p.tenant
      || is_nil p.app_id
      || is_empty p.authorized_clients
      || ltb 16 (length p.authorized_clients)
      || any is_nil p.authorized_clients
      || not (set_size p.authorized_clients == length p.authorized_clients)
      || ltb 16 (length p.required_scopes)
      || any (λ s. is_empty s || ltb 128 (len s) || any is_whitespace s) p.required_scopes
      || is_empty p.device_claim
      || ltb 64 (len p.device_claim)
      || not (all is_claim_byte (bytes p.device_claim))
      || contains_text reserved_claims p.device_claim
    then err configuration
    else ok tt

-- The issuer of a tenant, also spelled out where provider settings are checked.
unfoldable pub issuer_of : Parsers → Uuid → Text
issuer_of parsers tenant =
    codes "https://login.microsoftonline.com/" ++ (parsers.show_uuid tenant ++ codes "/v2.0")

pub record EntraTokenClaims : Type 0 where
  pub tenant : Uuid
  pub user : Uuid
  pub device : Option Uuid
  pub issued_at : ℤ
  pub expires_at : ℤ

unfoldable pub subject : EntraTokenClaims → ExternalSubject
subject c = ExternalSubject.entra c.tenant c.user

unfoldable pub validate_claims :
    EntraTokenClaims → EntraTokenProfile → Result (Unit {0}) FederationError
unfolding subject
validate_claims c profile = do
  validate_profile profile
  validate_subject (subject c)
  reject_if
      (not (c.tenant == profile.tenant)
        || is_some_and c.device is_nil
        || leb_ℤ c.issued_at (pos 0)
        || leb_ℤ c.expires_at c.issued_at)
      claims
