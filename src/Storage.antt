-- ===== src/Storage.antt =====
-- crates/identity-postgres/src/types.rs and storage.rs: the errors of the authority, and whether a
-- password candidate still stands against what is stored.
pub mod Current
pub mod Clock
mod Examples
use rss_identity.Common.{
  ℕ, Bool, not, Option, none, some, leb, ◌==◌, if◌then◌else◌, Result, ok, err, ◌>>=◌, ◌>>◌,
  reject_if, ok_or, map_err,
}
use rss_identity.Common.Int.{ℤ}
use rss_identity.Common.Text.{Text}
use rss_identity.Common.Ids.{Uuid}
use rss_identity.Account.Kdf
use rss_identity.Account.Kdf.{PasswordError}
use rss_identity.Account.Login.{from_storage}
use rss_identity.Account.Policy.{
  AccountKey, AccountState, AccountRuleError, restore, matches_verification,
}
use rss_identity.Federation.Errors.{FederationError}

pub data StorageMismatch : Type 0 where
  deployment_identity schema_version role privileges schema_contract : StorageMismatch

pub data StorageFailure : Type 0 where
  transient permanent storage_conflict ownership_lost invariant failure_deadline : StorageFailure

pub data AuthorityError : Type 0 where
  cursor_invalidated interaction_required cancelled configuration : AuthorityError
  revision_conflict operation_conflict invalid_input deadline_elapsed : AuthorityError
  federation : FederationError → AuthorityError
  rejected reauthentication_failed : AuthorityError
  rule_rejected : AccountRuleError → AuthorityError
  rate_limited_for : ℕ → AuthorityError
  busy unavailable : AuthorityError
  storage_incompatible : StorageMismatch → AuthorityError
  not_started rolled_back rollback_failed commit_unknown : StorageFailure → AuthorityError
  fenced : AuthorityError

-- `From<PasswordError>`
pub password_error : PasswordError → AuthorityError
password_error Kdf.invalid = invalid_input
password_error Kdf.busy = busy
password_error Kdf.unavailable = unavailable

-- The errors that roll a transaction back: `reject()`, `corrupt()`, and a row that a CHECK of the
-- table refuses.
pub data PgError : Type 0 where
  reject corrupt check_violation : PgError

pub record AuthenticationCandidate : Type 0 where
  pub state : AccountState
  pub authority : Uuid
  pub expires : ℕ  -- Instant
  pub authenticated_at : ℤ  -- i64

-- `accounts` joined with `memberships` and `local_credentials`
pub record AccountRow : Type 0 where
  pub enabled : Bool
  pub auth_epoch : ℤ  -- i64
  pub has_local_password : Bool
  pub password_hash : Option Text
  pub active : Bool
  pub epoch : ℤ  -- i64

-- What the statements here read: whether a tenant has its guard row, the identifier of the
-- deployment (none for a text that is no UUID), and the rows of the accounts.
pub record Store : Type 0 where
  pub guarded : Uuid → Bool
  pub deployment : Option Uuid
  pub accounts : AccountKey → Option AccountRow

pub record Stored : Type 0 where
  pub state : AccountState
  pub hash : Option Text

unfoldable pub lock_guard : Store → Uuid → Result (Unit {0}) PgError
lock_guard store tenant = if store.guarded tenant then ok tt else err reject

abbrev pub corrupted {ℓ} : {A : Type 0} {E : Type ℓ} → Result A E → Result A PgError
corrupted r = map_err r (λ _. corrupt)

unfoldable pub stored_hash : Option Text → Result (Option Text) PgError
stored_hash none = ok none
stored_hash (some h) = corrupted (from_storage h) >>= λ hash. ok (some hash)

unfoldable pub decode : AccountKey → AccountRow → Result Stored PgError
unfolding stored_hash
decode key r = do
  state ← corrupted (restore key r.enabled r.active r.auth_epoch r.has_local_password r.epoch)
  hash ← stored_hash r.password_hash
  ok (record { state = state; hash = hash })

unfoldable pub load : Store → AccountKey → Result Stored PgError
unfolding lock_guard decode
load store key = do
  lock_guard store key.tenant
  row ← ok_or (store.accounts key) reject
  decode key row

unfoldable pub authority_id : Store → Result Uuid PgError
authority_id store = ok_or store.deployment corrupt

-- `now` is the reading of `Instant::now()`.
unfoldable pub current : Store → ℕ → AuthenticationCandidate → Result AccountState PgError
unfolding load authority_id
current store now candidate = do
  reject_if (leb candidate.expires now) reject
  authority ← authority_id store
  reject_if (not (authority == candidate.authority)) reject
  stored ← load store candidate.state.key
  reject_if (not (matches_verification stored.state candidate.state)) reject
  ok stored.state
