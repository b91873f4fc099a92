-- ===== src/Attempts/Passwords/Stale.antt =====
-- A claim that another one has taken the place of
use rss_identity.Common.{
  ℕ, min, ◌≡◌, subst, inl, inr, true, false, List, arith, ◌==◌, Option-cases, All, Result, ok, err,
}
use rss_identity.Common.Text.{Text, text_eq, text_eq_iff}
use rss_identity.Common.Ids.{Uuid, TenantId}
use rss_identity.Storage.{AuthorityError, Store, AuthenticationCandidate, lock_guard, rejected}
use rss_identity.Attempts.{
  Clock, Tables, attempt, attempt_source_limit, attempt_source_seconds, cleanup, consume,
  login_digest_of, password_due, password_before, seconds_to_micros,
}
use rss_identity.Attempts.Table.{find, key-find, All-find, All-put_own, Unique}
use rss_identity.Attempts.Purge.{purge-Unique}
use rss_identity.Attempts.Reserve.{source_key}
use rss_identity.Attempts.Passwords.{PasswordClaim, owned, claimed, claim_password, settle_password}
use rss_identity.Attempts.Passwords.Decisions.{claim_password-cases}
use rss_identity.Attempts.Passwords.Claims.{claimed_digest}
use rss_identity.Attempts.Operations.{Operation, perform_all}
use rss_identity.Attempts.Operations.Fresh.{IsFresh, perform_all-AreFree}
use rss_identity.Attempts.Operations.Tokens.{IsFree, AreFree, write-put, claimed-IsFree}

-- A claim that is granted leaves no row of its login with another token.
claim_password-AreFree_granted :
    (store : Store) (t : Clock) (tenant : TenantId) (digest source : Text) (token old : Uuid)
    (timeout : ℕ) (tables after : Tables) (claim : PasswordClaim)
    → Unique login_digest_of tables.passwords
    → claim_password store t tenant digest source token timeout tables ≡ ok (after, ok claim)
    → (token == old) ≡ false
    → AreFree digest old after
unfolding cleanup consume
claim_password-AreFree_granted store t tenant digest source token old timeout tables after claim u h
      other =
    elim (claim_password-cases store t tenant digest source token timeout tables after (ok claim)
      h) [
        | inl (refused, same) ↦ absurd (ground (arith, refused))
        | inr g ↦
            let micros = min timeout (seconds_to_micros 60) in
            let row = find login_digest_of digest (cleanup t 0 tables).passwords in
            let (at, by, ends) = claimed_digest t digest token micros row in
            subst (AreFree digest old)
              (write-put _
                (consume (t 8)
                  (attempt t 2 (cleanup t 0 tables) (source_key source) attempt_source_limit
                    attempt_source_seconds)
                  (cleanup t 0 tables))
                after g.written)
              (All-put_own login_digest_of (IsFree digest old) digest
                (λ y apart own. absurd (ground (arith, apart, own)))
                (claimed t 9 digest token micros row) (cleanup t 0 tables).passwords at
                (claimed-IsFree digest old t digest token micros row other)
                (purge-Unique login_digest_of (password_due (t 1)) password_before _
                  tables.passwords u))
      ]

-- A claim whose token no row of its login has is not owned.
AreFree-owned :
    (now : ℕ) (claim : PasswordClaim) (tables : Tables)
    → AreFree claim.login claim.token tables
    → owned now claim.token (find login_digest_of claim.login tables.passwords) ≡ false
AreFree-owned now claim tables a =
    elim (Option-cases (find login_digest_of claim.login tables.passwords)) [
      | inl e ↦ ground (arith, e)
      | inr (r, e) ↦
          let at : text_eq r.login_digest claim.login ≡ true =
            (text_eq_iff r.login_digest claim.login).1
              (key-find login_digest_of claim.login tables.passwords r e) in
          let free =
            All-find login_digest_of (IsFree claim.login claim.token) claim.login tables.passwords r
              a e at in
          ground (arith, e, free)
    ]

-- The rows of the table are those of different logins, as its primary key demands, and a claim of a
-- login is granted, with another token than an earlier claim of the login. From then on, after any
-- further transactions, of which no claim draws the token of the earlier one again, what the earlier
-- claim reports is rejected and changes nothing, whether its check succeeded or failed, in a tenant
-- that still has its guard row.
pub settle_password_stale :
    (store later : Store) (t now : Clock) (instant : ℕ) (source : Text) (token : Uuid) (timeout : ℕ)
    (tables after : Tables) (old new : PasswordClaim)
    (outcome : Result AuthenticationCandidate AuthorityError) (os : List Operation)
    → Unique login_digest_of tables.passwords
    → claim_password store t old.tenant old.login source token timeout tables ≡ ok (after, ok new)
    → (token == old.token) ≡ false
    → All (IsFresh old.token) os
    → lock_guard later old.tenant ≡ ok tt
    → settle_password later now instant old outcome (perform_all os after)
      ≡ ok (perform_all os after, err rejected)
unfolding settle_password
settle_password_stale store later t now instant source token timeout tables after old new outcome os
      u h other fresh guarded =
    let last = perform_all os after in
    let a = perform_all-AreFree old.login old.token os after fresh (
      claim_password-AreFree_granted store t old.tenant old.login source token old.token timeout
        tables after new u h other) in
    ground (arith, guarded, AreFree-owned (now 0) old last a)
