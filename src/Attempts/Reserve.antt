-- ===== src/Attempts/Reserve.antt =====
-- crates/identity-postgres/src/attempts.rs: the reservation before a federated or platform login.
pub mod Decisions
pub mod Step
pub mod Opening
pub mod Windows
use rss_identity.Common.{
  ℕ, ◌+◌, max, Bool, true, false, ◌++◌, ltb, if◌then◌else◌, Result, ok, err, ◌>>=◌, ◌>>◌,
}
use rss_identity.Common.Text.{Text, codes}
use rss_identity.Common.Ids.{Uuid}
use rss_identity.Storage.{PgError, AuthorityError, Store, lock_guard, busy}
use rss_identity.Attempts.{
  Clock, Tables, Attempt, attempt, consume, rate_limited, total, cleanup, attempt_source_limit,
  attempt_source_seconds, attempt_scope_limit, attempt_scope_seconds, max_attempt_rows,
}

-- `AttemptSource::value` in its key
abbrev pub source_key : Text → Text
source_key source = codes "s:" ++ source

-- `i64::from(!exists)`
abbrev pub one_unless : Bool → ℕ
one_unless true = 0
one_unless false = 1

-- The decision on what the two reads found: a refusal commits and changes nothing more.
unfoldable pub reserved :
    Clock → Attempt → Attempt → Tables → Result (Tables × Result (Unit {0}) AuthorityError) PgError
reserved t source scope tables =
    let retry = max source.retry scope.retry in
    if ltb 0 retry
    then (rate_limited retry >>= λ e. ok (tables, err e))
    else if ltb max_attempt_rows
        (total tables + one_unless source.is_stored + one_unless scope.is_stored)
    then ok (tables, err busy)
    else ok (consume (t 9) scope (consume (t 8) source tables), ok tt)

-- `reserve`: the outer error rolls back, the inner one commits.
unfoldable pub reserve :
    Store
    → Clock
    → Uuid
    → Text
    → Text
    → Tables
    → Result (Tables × Result (Unit {0}) AuthorityError) PgError
unfolding reserved
reserve store t tenant scope source tables = do
  lock_guard store tenant
  let cleaned = cleanup t 0 tables
  let by_source =
      attempt t 2 cleaned (source_key source) attempt_source_limit attempt_source_seconds
  let by_scope = attempt t 5 cleaned scope attempt_scope_limit attempt_scope_seconds
  reserved t by_source by_scope cleaned
