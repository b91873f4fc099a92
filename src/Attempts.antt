-- ===== src/Attempts.antt =====
-- crates/identity-postgres/src/attempts.rs: the attempts of one tenant, counted by source and scope.
pub mod Table
pub mod Purge
pub mod Reserve
pub mod Passwords
pub mod Total
pub mod Steps
pub mod Operations
mod Examples
use rss_identity.Common.{
  ℕ, ◌+◌, ◌-◌, ◌*◌, ◌/◌, ◌^◌, max, Bool, true, false, ◌&&◌, Option, none, some, List, ltb, leb,
  ◌==◌, if◌then◌else◌, length, Result, ok, err,
}
use rss_identity.Common.Text.{Text}
use rss_identity.Common.Ids.{Uuid}
use rss_identity.Storage.{PgError, AuthorityError, corrupt, rate_limited_for}
use rss_identity.Attempts.Table.{find, put}
use rss_identity.Attempts.Purge.{purge}

abbrev pub attempt_source_limit : ℕ
attempt_source_limit = 30

abbrev pub attempt_source_seconds : ℕ
attempt_source_seconds = 300

abbrev pub attempt_scope_limit : ℕ
attempt_scope_limit = 5

abbrev pub attempt_scope_seconds : ℕ
attempt_scope_seconds = 900

abbrev pub max_attempt_rows : ℕ
max_attempt_rows = 10000

-- Times of the database are microseconds of a `timestamptz`.
abbrev pub seconds_to_micros : ℕ → ℕ
seconds_to_micros s = s * 1000000

-- A row of `attempts`
pub record AttemptRow : Type 0 where
  pub key : Text
  pub count : ℕ
  pub expires_at : ℕ

-- A row of `password_attempts`. NULL is none.
pub record PasswordRow : Type 0 where
  pub login_digest : Text
  pub failures : ℕ
  pub window_until : Option ℕ
  pub claim_token : Option Uuid
  pub claim_until : Option ℕ

-- The rows of a tenant
pub record Tables : Type 0 where
  pub attempts : List AttemptRow
  pub passwords : List PasswordRow

abbrev pub attempt_key : AttemptRow → Text
attempt_key r = r.key

abbrev pub login_digest_of : PasswordRow → Text
login_digest_of r = r.login_digest

-- The i-th reading of `clock_timestamp()` in a transaction. One reading stands for all rows of a
-- statement that deletes.
abbrev pub Clock : Type 0
Clock = ℕ → ℕ

pub record Attempt : Type 0 where
  pub key : Text
  pub count : ℕ
  pub seconds : ℕ
  pub is_stored : Bool
  pub retry : ℕ

-- `greatest(1, ceil(extract(epoch FROM until - now)))`
abbrev pub seconds_left : ℕ → ℕ → ℕ
seconds_left until now = max 1 ((until - now + 999999) / 1000000)

-- `attempt`, with the readings i, i + 1 and i + 2
unfoldable pub attempt : Clock → ℕ → Tables → Text → ℕ → ℕ → Attempt
attempt t i tables key limit seconds = elim (find attempt_key key tables.attempts) [
  | none ↦ record { key = key; count = 0; seconds = seconds; is_stored = false; retry = 0 }
  | some row ↦ record {
    key = key;
    count = if ltb (t i) row.expires_at then row.count else 0;
    seconds = seconds;
    is_stored = true;
    retry =
        if leb limit row.count && ltb (t (i + 1)) row.expires_at
        then seconds_left row.expires_at (t (i + 2))
        else 0;
  }
]

-- `consume`, at one reading: the row that is inserted, or the one that takes the stored one's place
unfoldable pub consumed : ℕ → Attempt → Option AttemptRow → AttemptRow
consumed now a none = record {
  key = a.key;
  count = 1;
  expires_at = now + seconds_to_micros a.seconds;
}
consumed now a (some row) = record {
  key = a.key;
  count = a.count + 1;
  expires_at = if a.count + 1 == 1 then now + seconds_to_micros a.seconds else row.expires_at;
}

unfoldable pub consume : ℕ → Attempt → Tables → Tables
unfolding consumed
consume now a tables = record tables {
  attempts =
      put attempt_key (consumed now a (find attempt_key a.key tables.attempts)) tables.attempts;
}

-- `u32::try_from` and `NonZeroU32::new`
unfoldable pub rate_limited : ℕ → Result AuthorityError PgError
rate_limited seconds =
    if ltb 0 seconds && ltb seconds (2 ^ 32) then ok (rate_limited_for seconds) else err corrupt

unfoldable pub total : Tables → ℕ
total tables = length tables.attempts + length tables.passwords

abbrev pub attempt_due : ℕ → AttemptRow → Bool
attempt_due now r = leb r.expires_at now

abbrev pub attempt_before : AttemptRow → AttemptRow → Bool
attempt_before a b = leb a.expires_at b.expires_at

-- `window_until IS NULL OR window_until <= now`, and of the claim
abbrev pub is_past : ℕ → Option ℕ → Bool
is_past now none = true
is_past now (some until) = leb until now

abbrev pub password_due : ℕ → PasswordRow → Bool
password_due now r = is_past now r.window_until && is_past now r.claim_until

-- `ORDER BY window_until NULLS FIRST`
abbrev pub password_before : PasswordRow → PasswordRow → Bool
password_before a b = elim a.window_until [
  | none ↦ true
  | some x ↦ elim b.window_until [ none ↦ false | some y ↦ leb x y ]
]

-- `cleanup`, with the readings i and i + 1
unfoldable pub cleanup : Clock → ℕ → Tables → Tables
unfolding purge
cleanup t i tables =
    let (attempts, removed) =
      purge attempt_key (attempt_due (t i)) attempt_before 128 tables.attempts in
    let (passwords, n) =
      purge login_digest_of (password_due (t (i + 1))) password_before (128 - removed)
        tables.passwords in
    record { attempts = attempts; passwords = passwords }
