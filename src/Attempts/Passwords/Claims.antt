-- ===== src/Attempts/Passwords/Claims.antt =====
-- A claim excludes every other check of its login while it lives, and is worth nothing once another
-- was granted.
use rss_identity.Common.{
  ℕ, ◌+◌, min, ◌≡◌, refl, sym, subst, inl, inr, true, false, Option, none, some, List, [], ◌∷◌,
  arith, Bool-cases, All, Result, ok, err, is_ok, Result-cases,
}
use rss_identity.Common.Text.{Text}
use rss_identity.Common.Ids.{Uuid, TenantId}
use rss_identity.Storage.{AuthorityError, Store}
use rss_identity.Attempts.{
  Clock, Tables, PasswordRow, cleanup, consume, login_digest_of, password_due, password_before,
  seconds_to_micros,
}
use rss_identity.Attempts.Table.{find, put, find-put}
use rss_identity.Attempts.Purge.{purge-IsPurge}
use rss_identity.Attempts.Reserve.Step.{Before}
use rss_identity.Attempts.Passwords.{
  PasswordClaim, is_storable, write, claimed, claim_password, is_busy, Committed,
}
use rss_identity.Attempts.Passwords.Decisions.{claim_password-cases}

-- A login has a row with this token, claimed until this time.
pub record IsHeld (digest : Text) (token : Uuid) (until : ℕ) (tables : Tables) : Type 0 where
  pub row : PasswordRow
  pub there : find login_digest_of digest tables.passwords ≡ some row
  pub by : row.claim_token ≡ some token
  pub ends : row.claim_until ≡ some until

pub claimed_digest :
    (t : Clock) (digest : Text) (token : Uuid) (micros : ℕ) (o : Option PasswordRow)
    → ((claimed t 9 digest token micros o).login_digest ≡ digest)
      × ((claimed t 9 digest token micros o).claim_token ≡ some token)
      × ((claimed t 9 digest token micros o).claim_until ≡ some (t 9 + micros))
unfolding claimed
claimed_digest t digest token micros none = (refl, refl, refl)
claimed_digest t digest token micros (some r) = (refl, refl, refl)

pub write-find :
    (r : PasswordRow) (tables after : Tables)
    → write r tables ≡ ok after
    → find login_digest_of r.login_digest after.passwords ≡ some r
unfolding write
write-find r tables after h = elim (Bool-cases (is_storable r)) [
  | inr e ↦ absurd (ground (arith, e, h))
  | inl e ↦
      let same : record tables { passwords = put login_digest_of r tables.passwords } ≡ after =
        ground (arith, e, h) in
      subst (λ s. find login_digest_of r.login_digest s.passwords ≡ some r) same
        (find-put login_digest_of r tables.passwords)
]

abbrev pub claim_end : Clock → ℕ → ℕ
claim_end t timeout = t 9 + min timeout (seconds_to_micros 60)

-- A claim that is granted is held, until its deadline or for sixty seconds.
pub claim_password-IsHeld :
    (store : Store) (t : Clock) (tenant : TenantId) (digest source : Text) (token : Uuid)
    (timeout : ℕ) (tables after : Tables) (out : Result PasswordClaim AuthorityError)
    → claim_password store t tenant digest source token timeout tables ≡ ok (after, out)
    → is_ok out ≡ true
    → IsHeld digest token (claim_end t timeout) after
claim_password-IsHeld store t tenant digest source token timeout tables after out h granted =
    elim (claim_password-cases store t tenant digest source token timeout tables after out h) [
      | inl (refused, same) ↦ absurd (ground (arith, refused, granted))
      | inr g ↦
          let micros = min timeout (seconds_to_micros 60) in
          let row = find login_digest_of digest (cleanup t 0 tables).passwords in
          let (at, by, ends) = claimed_digest t digest token micros row in
          record {
            row = claimed t 9 digest token micros row;
            there =
                subst
                  (λ d.
                    find login_digest_of d after.passwords
                    ≡ some (claimed t 9 digest token micros row))
                  at (write-find _ (consume (t 8) _ (cleanup t 0 tables)) after g.written);
            by = by;
            ends = ends;
          }
    ]

cleanup-IsHeld :
    (t : Clock) (digest : Text) (token : Uuid) (until : ℕ) (tables : Tables)
    → Before t until
    → IsHeld digest token until tables
    → IsHeld digest token until (cleanup t 0 tables)
unfolding cleanup
cleanup-IsHeld t digest token until tables b k = record {
  row = k.row;
  there =
      (purge-IsPurge login_digest_of (password_due (t 1)) password_before _ tables.passwords).kept
        digest k.row k.there (ground (arith, k.ends, b 1));
  by = k.by;
  ends = k.ends;
}

claim_password-IsHeld_refused :
    (store : Store) (t : Clock) (tenant : TenantId) (digest source : Text) (token other : Uuid)
    (until timeout : ℕ) (tables after : Tables) (out : Result PasswordClaim AuthorityError)
    → Before t until
    → IsHeld digest other until tables
    → claim_password store t tenant digest source token timeout tables ≡ ok (after, out)
    → (is_ok out ≡ false) × IsHeld digest other until after
unfolding is_busy
claim_password-IsHeld_refused store t tenant digest source token other until timeout tables after
      out b k h =
    let k' = cleanup-IsHeld t digest other until tables b k in
    elim (claim_password-cases store t tenant digest source token timeout tables after out h) [
      | inl (refused, same) ↦ (refused, subst (IsHeld digest other until) (sym same) k')
      | inr g ↦ absurd (ground (arith, g.free, k'.there, k'.ends, b 7))
    ]

-- A request to check a password of a login
pub record Guess : Type 0 where
  pub source : Text
  pub token : Uuid
  pub timeout : ℕ
  pub clock : Clock

abbrev pub granted_of : Tables → Committed PasswordClaim → ℕ × Tables
granted_of tables (err x) = (0, tables)
granted_of tables (ok (after, ok claim)) = (1, after)
granted_of tables (ok (after, err e)) = (0, after)

-- Requests for one login in turn: how many are granted.
pub claim_all : Store → TenantId → Text → List Guess → Tables → ℕ × Tables
claim_all store tenant digest [] tables = (0, tables)
claim_all store tenant digest (q ∷ qs) tables =
    let (n, after) =
      granted_of tables
        (claim_password store q.clock tenant digest q.source q.token q.timeout tables) in
    let (m, last) = claim_all store tenant digest qs after in (n + m, last)

abbrev pub IsBefore : ℕ → Guess → Type 0
IsBefore until q = Before q.clock until

granted_step :
    (digest : Text) (token : Uuid) (until : ℕ) (tables after : Tables)
    (out : Result PasswordClaim AuthorityError)
    → (is_ok out ≡ false) × IsHeld digest token until after
    → ((granted_of tables (ok (after, out))).0 ≡ 0)
      × IsHeld digest token until (granted_of tables (ok (after, out))).1
granted_step digest token until tables after (ok c) (refused, k) = absurd (ground (arith, refused))
granted_step digest token until tables after (err x) (refused, k) = (refl, k)

claim_all-IsHeld :
    (store : Store) (tenant : TenantId) (digest : Text) (token : Uuid) (until : ℕ) (qs : List Guess)
    (tables : Tables)
    → All (IsBefore until) qs
    → IsHeld digest token until tables
    → ((claim_all store tenant digest qs tables).0 ≡ 0)
      × IsHeld digest token until (claim_all store tenant digest qs tables).1
unfolding claim_all
claim_all-IsHeld store tenant digest token until [] tables b k = (refl, k)
claim_all-IsHeld store tenant digest token until (q ∷ qs) tables (b, bs) k =
    elim (Result-cases
      (claim_password store q.clock tenant digest q.source q.token q.timeout tables)) [
        | inr (x, h) ↦
            let (none', k') = claim_all-IsHeld store tenant digest token until qs tables bs k in
            rw h (omega (arith, none'), k')
        | inl ((after, out), h) ↦
            let (zero', next) = granted_step digest token until tables after out (
              claim_password-IsHeld_refused store q.clock tenant digest q.source q.token token until
                q.timeout tables after out b k h) in
            let (none', k') =
              claim_all-IsHeld store tenant digest token until qs
                (granted_of tables (ok (after, out))).1 bs next in
            rw h (omega (arith, zero', none'), k')
      ]

-- After a claim is granted, no further claim of its login is granted before it ends, whatever source,
-- token and deadline they come with.
pub claim_password_exclusive :
    (store : Store) (t : Clock) (tenant : TenantId) (digest source : Text) (token : Uuid)
    (timeout : ℕ) (tables after : Tables) (claim : PasswordClaim) (qs : List Guess)
    → claim_password store t tenant digest source token timeout tables ≡ ok (after, ok claim)
    → All (IsBefore (t 9 + min timeout (seconds_to_micros 60))) qs
    → (claim_all store tenant digest qs after).0 ≡ 0
claim_password_exclusive store t tenant digest source token timeout tables after claim qs h b =
    (claim_all-IsHeld store tenant digest token (claim_end t timeout) qs after b (
      claim_password-IsHeld store t tenant digest source token timeout tables after (ok claim) h
        refl)).0
