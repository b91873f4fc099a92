-- ===== src/Attempts/Passwords/Lockout.antt =====
-- How many wrong passwords of one login are checked while its window of failures is open.
use rss_identity.Common.{ℕ, ◌+◌, ◌≤◌, ◌<◌, ◌≡◌, ◌≢◌, true, false, some, arith, ltb, ok, err}
use rss_identity.Common.Text.{Text}
use rss_identity.Common.Ids.{Uuid}
use rss_identity.Storage.{Store, lock_guard, rejected}
use rss_identity.Attempts.{
  Clock, Tables, PasswordRow, cleanup, login_digest_of, password_due, password_before,
}
use rss_identity.Attempts.Table.{find, put}
use rss_identity.Attempts.Purge.{purge-IsPurge}
use rss_identity.Attempts.Reserve.Step.{Before}
use rss_identity.Attempts.Passwords.{
  PasswordClaim, is_storable, write, claimed, password_retry, password_failure_limit, holds, owned,
  failed, update_held, settled, settle_password,
}

-- A login has a row with these failures in a window until this time.
pub record IsOpen (digest : Text) (failures until : ℕ) (tables : Tables) : Type 0 where
  pub row : PasswordRow
  pub there : find login_digest_of digest tables.passwords ≡ some row
  pub counted : row.failures ≡ failures
  pub ends : row.window_until ≡ some until

pub cleanup-IsOpen :
    (t : Clock) (digest : Text) (failures until : ℕ) (tables : Tables)
    → Before t until
    → IsOpen digest failures until tables
    → IsOpen digest failures until (cleanup t 0 tables)
unfolding cleanup
cleanup-IsOpen t digest failures until tables b k = record {
  row = k.row;
  there =
      (purge-IsPurge login_digest_of (password_due (t 1)) password_before _ tables.passwords).kept
        digest k.row k.there (ground (arith, k.ends, b 1));
  counted = k.counted;
  ends = k.ends;
}

-- A row that is claimed in its window keeps failures and window.
pub claimed_open :
    (t : Clock) (digest : Text) (token : Uuid) (micros until : ℕ) (r : PasswordRow)
    → Before t until
    → r.window_until ≡ some until
    → ((claimed t 9 digest token micros (some r)).failures ≡ r.failures)
      × ((claimed t 9 digest token micros (some r)).window_until ≡ some until)
unfolding claimed
claimed_open t digest token micros until r b e = (ground (arith, e, b 10), ground (arith, e, b 11))

pub unlocked_failures :
    (t : Clock) (until : ℕ) (r : PasswordRow)
    → Before t until
    → r.window_until ≡ some until
    → ltb 0 (password_retry t 5 (some r)) ≡ false
    → r.failures ≢ password_failure_limit
unfolding password_retry
unlocked_failures t until r b e h same = ground (arith, e, h, same, b 5)

-- The row after a wrong password that is settled in its window
pub failed_open :
    (u : Clock) (until : ℕ) (r : PasswordRow)
    → Before u until
    → r.window_until ≡ some until
    → r.failures ≤ 4
    → ((failed u 1 r).failures ≡ r.failures + 1)
      × ((failed u 1 r).window_until ≡ some until)
      × (is_storable (failed u 1 r) ≡ true)
unfolding failed is_storable
failed_open u until r b e le =
    (ground (arith, e, b 1), ground (arith, e, b 2), ground (arith, e, le, b 1, b 2))

pub settle_open :
    (store : Store) (u : Clock) (instant : ℕ) (claim : PasswordClaim) (until end : ℕ)
    (r : PasswordRow) (tables : Tables)
    → store.guarded claim.tenant ≡ true
    → find login_digest_of claim.login tables.passwords ≡ some r
    → r.claim_token ≡ some claim.token
    → r.claim_until ≡ some end
    → u 0 < end
    → Before u until
    → r.window_until ≡ some until
    → r.failures ≤ 4
    → settle_password store u instant claim (err rejected) tables
      ≡ ok (
        record tables { passwords = put login_digest_of (failed u 1 r) tables.passwords },
        err rejected,
      )
unfolding settle_password lock_guard settled update_held write
settle_open store u instant claim until end r tables guarded there by ends live b window le =
    let (n, w, s) = failed_open u until r b window le in
    let mine : holds claim.token r ≡ true = ground (arith, by) in
    let alive : owned (u 0) claim.token (some r) ≡ true = ground (arith, by, ends, live) in
    ground (arith, guarded, there, mine, alive, s)
