-- ===== src/Groups.antt =====
-- crates/identity-core/src/groups.rs
pub mod Sets
pub mod Lifecycle
mod Examples
use rss_identity.Common.{
  ℕ, Bool, not, ◌&&◌, Option, none, some, List, leb, ◌==◌, if◌then◌else◌, is_some_and, length, any,
  all, is_empty, Result, ok, err,
}
use rss_identity.Common.Int.{ℤ, pos, ltb_ℤ}
use rss_identity.Common.Text.{Text, len, is_control}
use rss_identity.Common.Text.Sort.{sort, dedup, strictly_sorted}
use rss_identity.Common.Ids.{Uuid, is_nil}
use rss_identity.Federation.Errors.{FederationError, claims, configuration}
use rss_identity.Facts
use rss_identity.Facts.{
  FactSource, FactUnavailableReason, valid_max_age, valid_snapshot_window, acceptable_observation,
}

abbrev pub current_version : ℕ
current_version = 1

pub record AvailableGroups : Type 0 where
  pub version : ℕ
  pub source : FactSource
  pub snapshot_id : Uuid
  pub provider_config_version : ℤ
  pub observed_at : ℤ
  pub expires_at : ℤ
  pub values : List Text

pub data Groups : Type 0 where
  available : AvailableGroups → Groups
  unavailable : ℕ → FactUnavailableReason → Groups
  expired : ℕ → Groups

unfoldable pub unavailable_for : FactUnavailableReason → Groups
unavailable_for reason = unavailable current_version reason

unfoldable pub bounded_values : List Text → Bool
bounded_values values =
    leb (length values) 100
    && all (λ v. not (is_empty v) && leb (len v) 256 && not (any is_control v)) values

unfoldable pub canonical_values : List Text → Bool
canonical_values values = bounded_values values && strictly_sorted values

unfoldable pub structurally_valid_at : Groups → ℤ → Bool
structurally_valid_at (unavailable version reason) now = version == current_version
structurally_valid_at (expired version) now = version == current_version
structurally_valid_at (available a) now =
    (a.version == current_version)
    && not (is_nil a.snapshot_id)
    && ltb_ℤ (pos 0) a.provider_config_version
    && acceptable_observation a.observed_at now
    && valid_snapshot_window a.observed_at a.expires_at
    && canonical_values a.values

-- `GroupFactsMaxAge`
unfoldable pub new_max_age : ℤ → Result ℤ FederationError
new_max_age seconds = if not (valid_max_age seconds) then err configuration else ok seconds

unfoldable pub expires_at : ℤ → ℤ → ℤ → ℤ → Result ℤ FederationError
expires_at max_age issued expires now = Facts.expires_at max_age issued expires now

pub data UpstreamGroups : Type 0 where
  not_configured missing : UpstreamGroups
  present : List Text → UpstreamGroups

unfoldable pub make_present : List Text → Result UpstreamGroups FederationError
make_present values =
    if not (bounded_values values) then err claims else ok (present (dedup (sort values)))

unfoldable pub values_of : UpstreamGroups → Option (List Text)
values_of (present values) = some values
values_of not_configured = none
values_of missing = none

unfoldable pub validate : UpstreamGroups → Result (Unit {0}) FederationError
unfolding values_of
validate g = if is_some_and (values_of g) (λ v. not (canonical_values v)) then err claims else ok tt
