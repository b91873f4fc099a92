-- ===== src/Attempts/Steps.antt =====
-- The tables of attempts in use: reservations, claims, settlements and clears, in any order.
use rss_identity.Common.{ℕ, ◌≤◌, ◌≡◌, subst, inl, inr, List, [], arith, Result, ok, Result-cases}
use rss_identity.Common.Text.{Text}
use rss_identity.Common.Ids.{Uuid, TenantId}
use rss_identity.Storage.{AuthorityError, Store, AuthenticationCandidate, lock_guard}
use rss_identity.Attempts.{
  Clock, Tables, total, max_attempt_rows, cleanup, attempt, consume, attempt_source_limit,
  attempt_source_seconds, attempt_scope_limit, attempt_scope_seconds,
}
use rss_identity.Attempts.Reserve.{reserve, source_key}
use rss_identity.Attempts.Reserve.Decisions.{reserved-cases}
use rss_identity.Attempts.Total.{reserve-total}
use rss_identity.Attempts.Passwords.{PasswordClaim, claim_password, settle_password, clear}
use rss_identity.Attempts.Passwords.Total.{claim_password-total, settle_password-total, clear-total}
use rss_identity.Attempts.Passwords.Ledger.{
  IsLedger, Monotone, claim_password-IsLedger, cleanup-IsLedger,
}
use rss_identity.Attempts.Passwords.Settlement.{settle_password-IsLedger, clear-IsLedger}

-- A transaction that commits. What is stored elsewhere, the clock and the arguments are any.
pub data Step (tables : Tables) : Tables → Type 0 where
  reserves :
      (store : Store) (t : Clock) (tenant : Uuid) (scope source : Text) {after : Tables}
      {out : Result (Unit {0}) AuthorityError}
      → reserve store t tenant scope source tables ≡ ok (after, out)
      → Step tables after
  claims :
      (store : Store) (t : Clock) (tenant : TenantId) (digest source : Text) (token : Uuid)
      (timeout : ℕ) {after : Tables} {out : Result PasswordClaim AuthorityError}
      → Monotone t
      → claim_password store t tenant digest source token timeout tables ≡ ok (after, out)
      → Step tables after
  settles :
      (store : Store) (t : Clock) (instant : ℕ) (claim : PasswordClaim)
      (outcome : Result AuthenticationCandidate AuthorityError) {after : Tables}
      {out : Result AuthenticationCandidate AuthorityError}
      → settle_password store t instant claim outcome tables ≡ ok (after, out)
      → Step tables after
  clears : (digests : List Text) → Step tables (clear digests tables)

pub data Reach : Tables → Type 0 where
  start : Reach (record { attempts = []; passwords = [] })
  next : {s n : Tables} → Reach s → Step s n → Reach n

pub record IsBounded (tables : Tables) : Type 0 where
  pub few_rows : total tables ≤ max_attempt_rows
  pub ledger : IsLedger tables

reserve-IsLedger :
    (store : Store) (t : Clock) (tenant : Uuid) (scope source : Text) (tables after : Tables)
    (out : Result (Unit {0}) AuthorityError)
    → IsLedger tables
    → reserve store t tenant scope source tables ≡ ok (after, out)
    → IsLedger after
unfolding reserve consume
reserve-IsLedger store t tenant scope source tables after out a h =
    elim (Result-cases (lock_guard store tenant)) [
      | inr (x, l) ↦ absurd (ground (arith, h, l))
      | inl (u, l) ↦
          let cleaned = cleanup t 0 tables in
          let by_source =
            attempt t 2 cleaned (source_key source) attempt_source_limit attempt_source_seconds in
          let by_scope = attempt t 5 cleaned scope attempt_scope_limit attempt_scope_seconds in
          let a' = cleanup-IsLedger t 0 tables a in
          elim (reserved-cases t by_source by_scope cleaned after out (ground (arith, h, l))) [
            | inl (refused, same) ↦ subst IsLedger same a'
            | inr g ↦ subst IsLedger g.counts a'
          ]
    ]

Step-IsBounded : {s n : Tables} → Step s n → IsBounded s → IsBounded n
Step-IsBounded {s} {n} (reserves store t tenant scope source {out = out} h) v = record {
  few_rows = reserve-total store t tenant scope source s n out v.few_rows h;
  ledger = reserve-IsLedger store t tenant scope source s n out v.ledger h;
}
Step-IsBounded {s} {n} (claims store t tenant digest source token timeout {out = out} m h) v =
    record {
      few_rows =
          claim_password-total store t tenant digest source token timeout s n out v.few_rows h;
      ledger =
          claim_password-IsLedger store t tenant digest source token timeout s n out m v.ledger h;
    }
Step-IsBounded {s} {n} (settles store t instant claim outcome {out = out} h) v = record {
  few_rows =
      omega (arith, v.few_rows, settle_password-total store t instant claim outcome s n out h);
  ledger = settle_password-IsLedger store t instant claim outcome s n out v.ledger h;
}
Step-IsBounded {s} (clears digests) v = record {
  few_rows = omega (arith, v.few_rows, clear-total digests s);
  ledger = clear-IsLedger digests s v.ledger;
}

-- In every state that the transactions reach, in any order and with any clocks, the two tables hold at
-- most 10,000 rows together, every row of a password is within the CHECKs of its table, with at most
-- five failures, and a login with a claim has at most four. The clock of a transaction that claims
-- does not go back in it.
pub Reach-IsBounded : {s : Tables} → Reach s → IsBounded s
unfolding total
Reach-IsBounded start = record { few_rows = omega arith; ledger = tt }
Reach-IsBounded (next r s) = Step-IsBounded s (Reach-IsBounded r)
