-- ===== src/Federation/Settings.antt =====
-- crates/identity-core/src/federation.rs: provider settings, their validation and their storage form;
-- crates/identity-core/src/federation/credentials.rs: the credentials of one operation.
pub mod Accepted
use rss_identity.Common.{
  ℕ, Bool, true, not, ◌&&◌, ◌||◌, Option, List, [], ◌∷◌, map, ltb, leb, ◌==◌, if◌then◌else◌,
  is_some_and, is_none_or, is_none, length, any, all, is_empty, Result, ok, err, ◌>>=◌, ◌>>◌,
  reject_if, ok_or, map_err,
}
use rss_identity.Common.Text.{
  Text, codes, bytes, len, text_eq, is_control, is_ascii_alphanumeric, contains, contains_text,
  trim,
}
use rss_identity.Common.Ids.{Uuid, is_nil}
use rss_identity.Common.Url.{Parsers}
use rss_identity.Department.{DepartmentSnapshotClaim}
use rss_identity.Entra.{SubjectMapping, issuer_of}
use rss_identity.Federation.Errors.{FederationError, configuration}
use rss_identity.Identity.{parse_name}
use rss_identity.Profile.{ProfileSettings, validate_settings}

-- `ProviderId::parse`
unfoldable pub parse_provider : Parsers → Text → Result Uuid FederationError
parse_provider parsers value = do
  id ← ok_or (parsers.parse_uuid value) configuration
  reject_if (is_nil id) configuration
  ok id

pub record ClaimMapping : Type 0 where
  pub subject : SubjectMapping
  pub profile : ProfileSettings
  pub groups : Option Text
  pub department_snapshot : Option DepartmentSnapshotClaim

pub record ProviderSettingsInput : Type 0 where
  pub issuer : Text
  pub client_id : Text
  pub redirect_uri : Text
  pub scopes : List Text
  pub claims : ClaimMapping
  pub jit : Bool

-- The fields of a `ProviderSettings` are those of its input, with the issuer and the client as names.
pub record ProviderSettings : Type 0 where
  pub issuer : Text
  pub client_id : Text
  pub redirect_uri : Text
  pub scopes : List Text
  pub claims : ClaimMapping
  pub jit : Bool

unfoldable pub entra_ok : Parsers → ProviderSettingsInput → Bool
entra_ok parsers input = elim input.claims.subject [
  | SubjectMapping.oidc ↦ true
  | SubjectMapping.entra tenant ↦
      not (is_nil tenant)
      && text_eq input.issuer (issuer_of parsers tenant)
      && contains_text input.scopes (codes "profile")
]

unfoldable pub plain_text : Text → ℕ → Bool
plain_text s most =
    not (is_empty s) && leb (len s) most && text_eq (trim s) s && not (any is_control s)

unfoldable pub plain_url : Parsers → Text → Bool
plain_url parsers s = is_some_and (parsers.parse_url s) (λ url.
    contains_text (codes "http" ∷ codes "https" ∷ []) url.scheme
    && not (is_none url.host)
    && is_empty url.username
    && is_none url.password
    && is_none url.query
    && is_none url.fragment)

-- `(0x21..=0x7e).contains(&b) && b != b'"' && b != b'\\'`
unfoldable pub is_scope_byte : ℕ → Bool
is_scope_byte b = leb 0x21 b && leb b 0x7e && not (b == 0x22) && not (b == 0x5c)

unfoldable pub plain_scope : Text → Bool
plain_scope s =
    leb (len s) 128
    && not (is_empty s)
    && all is_scope_byte (bytes s)
    && not (text_eq s (codes "offline_access"))

-- The loop over the scopes, with the set of those already seen.
unfoldable pub scopes_ok : List Text → List Text → Bool
scopes_ok seen [] = true
scopes_ok seen (s ∷ rest) = plain_scope s && not (contains_text seen s) && scopes_ok (s ∷ seen) rest

-- `[a, b].into_iter().flatten()` with `any` and `all`
unfoldable pub differs_from : Text → Option Text → Bool
differs_from claim name = is_none_or name (λ n. not (text_eq n claim))

unfoldable pub plain_claim : Text → Bool
plain_claim s =
    not (is_empty s)
    && leb (len s) 64
    && all (λ b. is_ascii_alphanumeric b || b == b'_') (bytes s)
    && not (contains_text (map codes ("sub" ∷ "iss" ∷ "aud" ∷ "nonce" ∷ "azp" ∷ [])) s)

unfoldable pub validate_input : Parsers → ProviderSettingsInput → Result (Unit {0}) FederationError
validate_input parsers input =
    let extensions = input.claims.profile.extensions_claim in
    let groups = input.claims.groups in
    do
      reject_if (not (entra_ok parsers input)) configuration
      reject_if (not (plain_text input.issuer 2048)) configuration
      reject_if (not (plain_text input.client_id 256)) configuration
      reject_if (not (plain_text input.redirect_uri 2048)) configuration
      reject_if (not (plain_url parsers input.issuer)) configuration
      reject_if (not (plain_url parsers input.redirect_uri)) configuration
      reject_if
          (is_empty input.scopes
            || ltb 16 (length input.scopes)
            || not (contains_text input.scopes (codes "openid")))
          configuration
      map_err (validate_settings input.claims.profile) (λ _. configuration)
      reject_if (not (scopes_ok [] input.scopes)) configuration
      reject_if
          (is_some_and input.claims.department_snapshot
            (λ d. not (differs_from d.claim extensions && differs_from d.claim groups)))
          configuration
      reject_if (not (is_none_or extensions plain_claim && is_none_or groups plain_claim))
          configuration

-- `TryFrom<ProviderSettingsInput> for ProviderSettings`, which restoring from storage uses too
unfoldable pub try_from : Parsers → ProviderSettingsInput → Result ProviderSettings FederationError
try_from parsers input = do
  validate_input parsers input
  issuer ← map_err (parse_name input.issuer) (λ _. configuration)
  client_id ← map_err (parse_name input.client_id) (λ _. configuration)
  ok (record {
    issuer = issuer;
    client_id = client_id;
    redirect_uri = input.redirect_uri;
    scopes = input.scopes;
    claims = input.claims;
    jit = input.jit;
  })

unfoldable pub input_of : ProviderSettings → ProviderSettingsInput
input_of s = record {
  issuer = s.issuer;
  client_id = s.client_id;
  redirect_uri = s.redirect_uri;
  scopes = s.scopes;
  claims = s.claims;
  jit = s.jit;
}

pub record ProviderCredentials : Type 0 where
  pub secret : Text
  pub ca : Option Text

unfoldable pub new_credentials : Text → Option Text → Result ProviderCredentials FederationError
new_credentials secret ca =
    if is_empty secret
      || ltb 4096 (len secret)
      || contains secret 0
      || is_some_and ca (λ v. is_empty v || ltb 16384 (len v))
    then err configuration
    else ok (record { secret = secret; ca = ca })
