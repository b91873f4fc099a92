-- ===== src/Facts.antt =====
-- crates/identity-core/src/facts.rs: observation windows of authentication facts.
pub mod Window
mod Examples
use rss_identity.Common.{
  Bool, not, ◌&&◌, ◌||◌, Option, none, some, leb, if◌then◌else◌, is_some_and, is_none, any,
  is_empty, Result, ok, ◌>>=◌, ◌>>◌, reject_if, ok_or,
}
use rss_identity.Common.Int.{ℤ, pos, ltb_ℤ, leb_ℤ, checked_add, checked_sub, min_ℤ}
use rss_identity.Common.Text.{Text, codes, len, text_eq, is_control, trim}
use rss_identity.Common.Ids.{Uuid, is_nil}
use rss_identity.Common.Url.{Url, Parsers}
use rss_identity.Federation.Errors.{FederationError, claims}

abbrev pub min_ttl_seconds : ℤ
min_ttl_seconds = pos 1

abbrev pub max_ttl_seconds : ℤ
max_ttl_seconds = pos 300

abbrev pub max_future_skew_seconds : ℤ
max_future_skew_seconds = pos 30

unfoldable pub valid_max_age : ℤ → Bool
valid_max_age seconds = leb_ℤ min_ttl_seconds seconds && leb_ℤ seconds max_ttl_seconds

unfoldable pub valid_snapshot_window : ℤ → ℤ → Bool
unfolding valid_max_age
valid_snapshot_window observed_at expires_at =
    ltb_ℤ (pos 0) observed_at && is_some_and (checked_sub expires_at observed_at) valid_max_age

unfoldable pub acceptable_observation : ℤ → ℤ → Bool
acceptable_observation observed_at now =
    ltb_ℤ (pos 0) observed_at
    && ltb_ℤ (pos 0) now
    && is_some_and (checked_sub observed_at now) (λ ahead. leb_ℤ ahead max_future_skew_seconds)

pub data FactUnavailableReason : Type 0 where
  local_identity not_configured claim_missing not_yet_valid : FactUnavailableReason

pub record FactSource : Type 0 where
  pub provider_id : Uuid
  pub issuer : Text

-- `valid_issuer`, over the parser of the url crate
unfoldable pub valid_issuer : Parsers → Text → Bool
valid_issuer parsers value =
    leb (len value) 2048
    && text_eq (trim value) value
    && not (any is_control value)
    && is_some_and (parsers.parse_url value) (λ (u : Url).
      (text_eq u.scheme (codes "https") || text_eq u.scheme (codes "http"))
      && not (is_none u.host)
      && is_empty u.username
      && is_none u.password
      && is_none u.query
      && is_none u.fragment)

-- `none` is `ValidationError::InvalidValue`.
unfoldable pub new_source : Parsers → Uuid → Text → Option FactSource
unfolding valid_issuer
new_source parsers provider_id issuer =
    if is_nil provider_id || not (valid_issuer parsers issuer)
    then none
    else some (record { provider_id = provider_id; issuer = issuer })

unfoldable pub expires_at : ℤ → ℤ → ℤ → ℤ → Result ℤ FederationError
unfolding acceptable_observation
expires_at max_age issued_at expires now = do
  reject_if
      (not (acceptable_observation issued_at now) || leb_ℤ expires issued_at || leb_ℤ expires now)
      claims
  deadline ← ok_or (checked_add issued_at max_age) claims
  ok (min_ℤ deadline expires)
