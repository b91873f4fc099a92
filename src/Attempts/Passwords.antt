-- ===== src/Attempts/Passwords.antt =====
-- crates/identity-postgres/src/password_attempts.rs: the claim to check one password of a login, and
-- what its outcome does to the failures that are counted.
pub mod Decisions
pub mod Ledger
pub mod Settlement
pub mod Claims
pub mod Stale
pub mod Lockout
pub mod Guesses
pub mod Total
use rss_identity.Common.{
  ℕ, ◌+◌, min, max, Bool, true, false, not, ◌&&◌, Option, none, some, List, [], ◌∷◌, ltb, leb, ◌==◌,
  if◌then◌else◌, is_some_and, is_none_or, is_none, bool_eq, Result, ok, err, ◌>>=◌, ◌>>◌,
}
use rss_identity.Common.Text.{Text}
use rss_identity.Common.Ids.{Uuid, TenantId}
use rss_identity.Storage.{
  PgError, AuthorityError, Store, AuthenticationCandidate, lock_guard, current, check_violation,
  rejected, busy,
}
use rss_identity.Attempts.{
  Clock, Tables, PasswordRow, Attempt, attempt, consume, rate_limited, total, cleanup,
  attempt_source_limit, attempt_source_seconds, max_attempt_rows, seconds_to_micros, seconds_left,
  login_digest_of,
}
use rss_identity.Attempts.Table.{find, put, remove}
use rss_identity.Attempts.Reserve.{source_key, one_unless}

abbrev pub password_failure_limit : ℕ
password_failure_limit = 5

abbrev pub password_failure_seconds : ℕ
password_failure_seconds = 600

pub record PasswordClaim : Type 0 where
  pub tenant : TenantId
  pub login : Text
  pub token : Uuid

-- What a transaction leaves, and the value that it commits
abbrev pub Committed : Type 0 → Type 0
Committed A = Result (Tables × Result A AuthorityError) PgError

-- The CHECK constraints of `password_attempts`
unfoldable pub is_storable : PasswordRow → Bool
is_storable r =
    leb r.failures 5
    && bool_eq (r.failures == 0) (is_none r.window_until)
    && bool_eq (is_none r.claim_token) (is_none r.claim_until)
    && is_none_or r.claim_token (λ token. not (token == 0))

-- A statement that writes a row, or is refused
unfoldable pub write : PasswordRow → Tables → Result Tables PgError
unfolding is_storable
write r tables =
    if is_storable r
    then ok (record tables { passwords = put login_digest_of r tables.passwords })
    else err check_violation

-- `until > now`, which NULL does not pass
abbrev pub is_live : ℕ → Option ℕ → Bool
is_live now until = is_some_and until (λ x. ltb now x)

-- The retry of the SELECT, with the readings i and i + 1
unfoldable pub password_retry : Clock → ℕ → Option PasswordRow → ℕ
password_retry t i none = 0
password_retry t i (some r) = elim r.window_until [
  | none ↦ 0
  | some until ↦
      if r.failures == password_failure_limit && ltb (t i) until
      then seconds_left until (t (i + 1))
      else 0
]

unfoldable pub is_busy : ℕ → Option PasswordRow → Bool
is_busy now none = false
is_busy now (some r) = is_live now r.claim_until

-- The row that the claim inserts, or puts in the place of the stored one, with the readings i, i + 1
-- and i + 2
unfoldable pub claimed : Clock → ℕ → Text → Uuid → ℕ → Option PasswordRow → PasswordRow
claimed t i digest token micros none = record {
  login_digest = digest;
  failures = 0;
  window_until = none;
  claim_token = some token;
  claim_until = some (t i + micros);
}
claimed t i digest token micros (some r) = record {
  login_digest = digest;
  failures = if is_live (t (i + 1)) r.window_until then r.failures else 0;
  window_until = if is_live (t (i + 2)) r.window_until then r.window_until else none;
  claim_token = some token;
  claim_until = some (t i + micros);
}

-- The decision on what the two reads found: a refusal commits and changes nothing more.
unfoldable pub decided :
    Clock
    → TenantId
    → Text
    → Uuid
    → ℕ
    → Attempt
    → Option PasswordRow
    → Tables
    → Committed PasswordClaim
unfolding password_retry is_busy claimed write
decided t tenant digest token timeout source row tables =
    let retry = max (password_retry t 5 row) source.retry in
    if ltb 0 retry
    then (rate_limited retry >>= λ e. ok (tables, err e))
    else if is_busy (t 7) row
    then ok (tables, err busy)
    else if ltb max_attempt_rows
        (total tables + one_unless source.is_stored + one_unless (not (is_none row)))
    then ok (tables, err busy)
    else (write (claimed t 9 digest token (min timeout (seconds_to_micros 60)) row)
          (consume (t 8) source tables)
        >>= λ after. ok (after, ok (record { tenant = tenant; login = digest; token = token })))

-- `claim_password`. The digest of the login and the random token are arguments, and the deadline is
-- in microseconds.
unfoldable pub claim_password :
    Store → Clock → TenantId → Text → Text → Uuid → ℕ → Tables → Committed PasswordClaim
unfolding decided
claim_password store t tenant digest source token timeout tables = do
  lock_guard store tenant
  let cleaned = cleanup t 0 tables
  let by_source =
      attempt t 2 cleaned (source_key source) attempt_source_limit attempt_source_seconds
  let row = find login_digest_of digest cleaned.passwords
  decided t tenant digest token timeout by_source row cleaned

-- `claim_token = $3`, which NULL does not pass
abbrev pub holds : Uuid → PasswordRow → Bool
holds token r = is_some_and r.claim_token (λ x. x == token)

abbrev pub owned : ℕ → Uuid → Option PasswordRow → Bool
owned now token row = is_some_and row (λ r. holds token r && is_live now r.claim_until)

-- The row after a rejected password, with the readings i, i + 1 and i + 2
unfoldable pub failed : Clock → ℕ → PasswordRow → PasswordRow
failed t i r = record {
  login_digest = r.login_digest;
  failures = if is_live (t i) r.window_until then r.failures + 1 else 1;
  window_until =
      if is_live (t (i + 1)) r.window_until
      then r.window_until
      else some (t (i + 2) + seconds_to_micros password_failure_seconds);
  claim_token = none;
  claim_until = none;
}

abbrev pub released : PasswordRow → PasswordRow
released r = record r { claim_token = none; claim_until = none }

abbrev pub is_rejected : AuthorityError → Bool
is_rejected rejected = true
is_rejected _ = false

-- `UPDATE … WHERE login_digest = … AND claim_token = …`
unfoldable pub update_held :
    Text → Uuid → (PasswordRow → PasswordRow) → Tables → Result Tables PgError
unfolding write
update_held digest token change tables = elim (find login_digest_of digest tables.passwords) [
  | none ↦ ok tables
  | some r ↦ if holds token r then write (change r) tables else ok tables
]

-- `DELETE … WHERE login_digest = … AND claim_token = …`
unfoldable pub delete_held : Text → Uuid → Tables → Tables
delete_held digest token tables = elim (find login_digest_of digest tables.passwords) [
  | none ↦ tables
  | some r ↦
      if holds token r
      then record tables { passwords = remove login_digest_of digest tables.passwords }
      else tables
]

-- What the outcome of the check does, once the claim is known to be held
unfoldable pub settled :
    Store
    → Clock
    → ℕ
    → PasswordClaim
    → Result AuthenticationCandidate AuthorityError
    → Tables
    → Committed AuthenticationCandidate
unfolding failed update_held delete_held
settled store t instant claim (ok candidate) tables = do
  state ← current store instant candidate
  ok (delete_held claim.login claim.token tables, ok candidate)
settled store t instant claim (err error) tables = do
  after ←
      update_held claim.login claim.token (if is_rejected error then failed t 1 else released)
        tables
  ok (after, err error)

-- `settle_password`; `instant` is the reading of `Instant::now()` in the check of the candidate.
unfoldable pub settle_password :
    Store
    → Clock
    → ℕ
    → PasswordClaim
    → Result AuthenticationCandidate AuthorityError
    → Tables
    → Committed AuthenticationCandidate
unfolding settled
settle_password store t instant claim outcome tables = do
  lock_guard store claim.tenant
  (if owned (t 0) claim.token (find login_digest_of claim.login tables.passwords)
      then settled store t instant claim outcome tables
      else ok (tables, err rejected))

-- `clear`, with the digests of the logins of an account's local credentials
unfoldable pub clear : List Text → Tables → Tables
clear [] tables = tables
clear (digest ∷ digests) tables =
    clear digests (record tables { passwords = remove login_digest_of digest tables.passwords })
