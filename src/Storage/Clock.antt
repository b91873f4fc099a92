-- ===== src/Storage/Clock.antt =====
-- crates/identity-postgres/src/session_storage.rs, session_checks.rs and sessions.rs: from the clock of
-- the database to deadlines on the clock of the process.
pub mod Deadlines
pub mod Live
mod Examples
use rss_identity.Common.{
  ℕ, ◌+◌, ◌-◌, ◌*◌, ◌/◌, ◌^◌, min, max, Bool, false, not, ◌&&◌, Option, none, some, ltb, leb, ◌==◌,
  if◌then◌else◌, is_some_and, Result, ok, err, ◌>>=◌, ◌>>◌, reject_if, ok_or, map_err,
}
use rss_identity.Common.Int.{ℤ, pos, pos_part, leb_ℤ, checked_add, max_ℤ}
use rss_identity.Storage.{PgError, reject, corrupt, corrupted, AuthorityError, rejected}
use rss_identity.Session.Lifetime.{SessionPolicy, SessionLifetime, restore, valid_at, renew}
use rss_identity.Assurance.{Assurance}

-- `Instant` and `Duration` are in nanoseconds. The time of the database is in microseconds, an i64
-- that `read` has found positive.
pub record TimeSample : Type 0 where
  pub started : ℕ
  pub micros : ℕ

unfoldable pub read : ℕ → ℤ → Result TimeSample PgError
read started micros =
    if leb_ℤ micros (pos 0)
    then err corrupt
    else ok (record { started = started; micros = pos_part micros })

unfoldable pub seconds : TimeSample → ℤ
seconds sample = pos (sample.micros / 1000000)

-- `SessionChecks::seconds`; the floor is set by tests alone.
unfoldable pub fact_seconds : Option ℤ → ℤ → ℤ
fact_seconds none database_now = database_now
fact_seconds (some floor) database_now = max_ℤ database_now floor

-- `i64::saturating_mul` by a million
abbrev pub million_times : ℤ → ℕ
million_times s = min (pos_part s * 1000000) (2 ^ 63 - 1)

unfoldable pub for_facts : Option ℤ → TimeSample → TimeSample
unfolding fact_seconds seconds
for_facts controlled sample = record sample {
  micros = max sample.micros (million_times (fact_seconds controlled (seconds sample)));
}

-- `Instant::checked_add`, with the latest instant that the platform can represent
abbrev pub add_instant : ℕ → ℕ → ℕ → Option ℕ
add_instant latest a b = if leb (a + b) latest then some (a + b) else none

-- `deadline`: what remains is `seconds * 1000000 - micros - 1`, at i128.
unfoldable pub deadline : ℕ → TimeSample → ℤ → Result ℕ PgError
deadline latest sample s =
    let total = pos_part s * 1000000 in
    let remaining = total - sample.micros - 1 in
    if leb_ℤ s (pos 0)
    then err corrupt
    else if leb total (sample.micros + 1)
    then ok sample.started
    else if ltb remaining (2 ^ 64)
    then ok_or (add_instant latest sample.started (remaining * 1000)) corrupt
    else err corrupt

-- `deadline(end).ok().is_some_and(|deadline| now < deadline)`
abbrev pub is_before : ℕ → Result ℕ PgError → Bool
is_before now (ok d) = ltb now d
is_before now (err e) = false

unfoldable pub within_age : ℕ → TimeSample → ℤ → ℕ → ℕ → Bool
unfolding deadline
within_age latest sample authenticated max_age now =
    if max_age == 0
    then false
    else if ltb (max_age / 1000000000) (2 ^ 63)
    then is_some_and (checked_add authenticated (pos (max_age / 1000000000)))
        (λ end. is_before now (deadline latest sample end))
    else false

unfoldable pub recently_authenticated : ℕ → TimeSample → Assurance → ℕ → ℕ → Bool
unfolding within_age seconds
recently_authenticated latest sample a max_age now =
    is_some_and a.auth_time
      (λ t. leb_ℤ t (seconds sample) && within_age latest sample t max_age now)

-- What `by_id` does with the times of a row and the sample: the lifetime, and when the proof expires.
unfoldable pub timed :
    ℕ → TimeSample → ℤ → ℤ → ℤ → SessionPolicy → Result (SessionLifetime × ℕ) PgError
unfolding deadline seconds
timed latest sample issued_at idle_expires_at absolute_expires_at policy = do
  lifetime ← corrupted (restore issued_at idle_expires_at absolute_expires_at policy)
  reject_if (not (valid_at lifetime (seconds sample))) reject
  expires ← deadline latest sample lifetime.idle_expires_at
  ok (lifetime, expires)

-- `touch`: the renewed lifetime, of which the idle end is stored, and the new end of the proof
unfoldable pub touch : ℕ → TimeSample → SessionLifetime → Result (SessionLifetime × ℕ) PgError
unfolding deadline seconds
touch latest sample lifetime = do
  renewed ← map_err (renew lifetime (seconds sample)) (λ _. reject)
  expires ← deadline latest sample renewed.idle_expires_at
  ok (renewed, expires)

-- `checked_expiry`, at a reading of `Instant::now()`
unfoldable pub checked_expiry : ℕ → ℕ → ℕ → Result ℕ PgError
checked_expiry loaded_expires budget now =
    if leb (min budget loaded_expires) now then err reject else ok (min budget loaded_expires)

unfoldable pub check_live : ℕ → ℕ → Result (Unit {0}) AuthorityError
check_live expires now = if leb expires now then err rejected else ok tt
