-- ===== src/Attempts/Passwords/Guesses.antt =====
-- A wrong password in turn after turn: the claim, the check that rejects it, the settlement.
use rss_identity.Common.{
  ℕ, ◌+◌, ◌≤◌, ◌<◌, min, ◌≡◌, refl, sym, subst, ◌∙◌, inl, inr, true, false, some, List, [], ◌∷◌,
  arith, ltb, All, Result, ok, err, is_ok, Result-cases,
}
use rss_identity.Common.Text.{Text}
use rss_identity.Common.Ids.{Uuid, TenantId}
use rss_identity.Storage.{AuthorityError, Store, PgError, rejected}
use rss_identity.Attempts.{
  Clock, Tables, PasswordRow, Attempt, consume, login_digest_of, seconds_to_micros,
}
use rss_identity.Attempts.Table.{find, put, find-put}
use rss_identity.Attempts.Reserve.Step.{Before}
use rss_identity.Attempts.Passwords.{
  password_retry, PasswordClaim, Committed, write, claimed, claim_password, password_failure_limit,
  failed, settle_password,
}
use rss_identity.Attempts.Passwords.Decisions.{Granted, claim_password-cases}
use rss_identity.Attempts.Passwords.Claims.{write-find, claimed_digest, claim_end}
use rss_identity.Attempts.Passwords.Lockout.{
  IsOpen, cleanup-IsOpen, claimed_open, unlocked_failures, failed_open, settle_open,
}

pub record WrongPassword : Type 0 where
  pub source : Text
  pub token : Uuid
  pub timeout : ℕ
  pub claims_at : Clock
  pub settles_at : Clock
  pub instant : ℕ

-- A transaction that rolls back changes nothing.
abbrev pub left_by {ℓ} : {A : Type ℓ} → Tables → Result (Tables × A) PgError → Tables
left_by tables (err x) = tables
left_by tables (ok (after, a)) = after

-- Whether the password was checked, and what is then stored
abbrev pub checked_of : Store → WrongPassword → Tables → Committed PasswordClaim → ℕ × Tables
checked_of store q tables (err x) = (0, tables)
checked_of store q tables (ok (after, err e)) = (0, after)
checked_of store q tables (ok (after, ok claim)) =
    (1, left_by after (settle_password store q.settles_at q.instant claim (err rejected) after))

unfoldable pub guess_all : Store → TenantId → Text → List WrongPassword → Tables → ℕ × Tables
guess_all store tenant digest [] tables = (0, tables)
guess_all store tenant digest (q ∷ qs) tables =
    let (n, after) =
      checked_of store q tables
        (claim_password store q.claims_at tenant digest q.source q.token q.timeout tables) in
    let (m, last) = guess_all store tenant digest qs after in (n + m, last)

-- Both transactions come before a time, and the settlement before the claim ends.
pub record IsTimely (until : ℕ) (q : WrongPassword) : Type 0 where
  pub claim_before : Before q.claims_at until
  pub settle_before : Before q.settles_at until
  pub in_claim : q.settles_at 0 < claim_end q.claims_at q.timeout

-- A step that checks n passwords counts n failures.
abbrev Counted : Text → ℕ → ℕ → ℕ × Tables → Type 0
Counted digest failures until step =
    IsOpen digest (failures + step.0) until step.1 × (failures + step.0 ≤ password_failure_limit)

failed_digest : (u : Clock) (r : PasswordRow) → (failed u 1 r).login_digest ≡ r.login_digest
unfolding failed
failed_digest u r = refl

-- The row that a settlement writes is found under its login.
settled_IsOpen :
    (u : Clock) (digest : Text) (failures until : ℕ) (r : PasswordRow) (tables : Tables)
    → Before u until
    → r.login_digest ≡ digest
    → r.window_until ≡ some until
    → r.failures ≡ failures
    → failures ≤ 4
    → IsOpen digest
        (failures + 1)
        until
        (record tables { passwords = put login_digest_of (failed u 1 r) tables.passwords })
settled_IsOpen u digest failures until r tables b at window same le =
    let (more, window', stored) = failed_open u until r b window (omega (arith, same, le)) in
    record {
      row = failed u 1 r;
      there =
          subst
            (λ d.
              find login_digest_of d (put login_digest_of (failed u 1 r) tables.passwords)
              ≡ some (failed u 1 r))
            (failed_digest u r ∙ at) (find-put login_digest_of (failed u 1 r) tables.passwords);
      counted = omega (arith, more, same);
      ends = window';
    }

-- A row that was claimed in its window, with its claim
record IsClaimed (t : Clock) (digest : Text) (token : Uuid) (timeout failures until : ℕ)
    (tables : Tables) : Type 0 where
  row : PasswordRow
  there : find login_digest_of digest tables.passwords ≡ some row
  at : row.login_digest ≡ digest
  by : row.claim_token ≡ some token
  ends : row.claim_until ≡ some (claim_end t timeout)
  window : row.window_until ≡ some until
  counted : row.failures ≡ failures
  few : failures ≤ 4

Granted-IsClaimed :
    (t : Clock) (tenant : TenantId) (digest : Text) (token : Uuid) (timeout failures until : ℕ)
    (source : Attempt) (tables after : Tables) (out : Result PasswordClaim AuthorityError)
    → Before t until
    → failures ≤ password_failure_limit
    → IsOpen digest failures until tables
    → Granted t tenant digest token timeout source
        (find login_digest_of digest tables.passwords)
        tables
        after
        out
    → IsClaimed t digest token timeout failures until after
Granted-IsClaimed t tenant digest token timeout failures until source tables after out b le k g =
    let micros = min timeout (seconds_to_micros 60) in
    let row = claimed t 9 digest token micros (some k.row) in
    let (at, by, ends) = claimed_digest t digest token micros (some k.row) in
    let (failures', window) = claimed_open t digest token micros until k.row b k.ends in
    let written : write row (consume (t 8) source tables) ≡ ok after =
      subst
        (λ o. write (claimed t 9 digest token micros o) (consume (t 8) source tables) ≡ ok after)
        k.there g.written in
    let unlocked =
      unlocked_failures t until k.row b k.ends
        (subst (λ o. ltb 0 (password_retry t 5 o) ≡ false) k.there g.unlocked) in
    record {
      row = row;
      there =
          subst (λ d. find login_digest_of d after.passwords ≡ some row) at
            (write-find row (consume (t 8) source tables) after written);
      at = at;
      by = by;
      ends = ends;
      window = window;
      counted = omega (arith, failures', k.counted);
      few = omega (arith, k.counted, le, unlocked);
    }

settled_step :
    (store : Store) (tenant : TenantId) (digest : Text) (q : WrongPassword) (failures until : ℕ)
    (tables : Tables)
    → store.guarded tenant ≡ true
    → IsTimely until q
    → IsClaimed q.claims_at digest q.token q.timeout failures until tables
    → Counted digest failures until (
      1,
      left_by tables (
          settle_password store q.settles_at q.instant
            (record { tenant = tenant; login = digest; token = q.token })
            (err rejected)
            tables),
    )
settled_step store tenant digest q failures until tables guarded timely k =
    let done =
      settle_open store q.settles_at q.instant
        (record { tenant = tenant; login = digest; token = q.token }) until
        (claim_end q.claims_at q.timeout) k.row tables guarded k.there k.by k.ends timely.in_claim
        timely.settle_before k.window (omega (arith, k.counted, k.few)) in
    subst (λ r. Counted digest failures until (1, left_by tables r)) (sym done)
      (
        settled_IsOpen q.settles_at digest failures until k.row tables timely.settle_before k.at
            k.window k.counted k.few,
        omega (arith, k.few),
      )

checked_step :
    (store : Store) (tenant : TenantId) (digest : Text) (q : WrongPassword) (failures until : ℕ)
    (tables : Tables)
    → store.guarded tenant ≡ true
    → failures ≤ password_failure_limit
    → IsTimely until q
    → IsOpen digest failures until tables
    → Counted digest failures until (
        checked_of store q tables
          (claim_password store q.claims_at tenant digest q.source q.token q.timeout tables))
checked_step store tenant digest q failures until tables guarded le timely k =
    elim (Result-cases
      (claim_password store q.claims_at tenant digest q.source q.token q.timeout tables)) [
        | inr (x, h) ↦ rw h (unchanged failures tables le k)
        | inl ((after, out), h) ↦
            let k' =
              cleanup-IsOpen q.claims_at digest failures until tables timely.claim_before k in
            rw h
              (elim (claim_password-cases store q.claims_at tenant digest q.source q.token q.timeout
                tables after out h) [
                  | inl (refused, same) ↦
                      refuses out after refused (subst (IsOpen digest failures until) (sym same) k')
                  | inr g ↦
                      subst
                        (λ o.
                          Counted digest failures until (checked_of store q tables (ok (after, o))))
                        (sym g.given)
                        (settled_step store tenant digest q failures until after guarded timely (
                          Granted-IsClaimed q.claims_at tenant digest q.token q.timeout failures
                            until _ _ after out timely.claim_before le k' g))
                ])
      ]
  where
    unchanged :
        (n : ℕ) (s : Tables)
        → n ≤ password_failure_limit
        → IsOpen digest n until s
        → Counted digest n until (0, s)
    unchanged n s l o = (subst (λ m. IsOpen digest m until s) (omega arith) o, omega (arith, l))

    refuses :
        (out : Result PasswordClaim AuthorityError) (after : Tables)
        → is_ok out ≡ false
        → IsOpen digest failures until after
        → Counted digest failures until (checked_of store q tables (ok (after, out)))
    refuses (ok c) after refused o = absurd (ground (arith, refused))
    refuses (err x) after refused o = unchanged failures after le o

-- While the window of a login's failures is open, the failures that its row counts and the wrong
-- passwords that are still checked are together at most five, if each is settled before its claim
-- ends, whatever sources they come from.
pub guess_all-le-password_failure_limit :
    (store : Store) (tenant : TenantId) (digest : Text) (qs : List WrongPassword)
    (failures until : ℕ) (tables : Tables)
    → store.guarded tenant ≡ true
    → failures ≤ password_failure_limit
    → All (IsTimely until) qs
    → IsOpen digest failures until tables
    → failures + (guess_all store tenant digest qs tables).0 ≤ password_failure_limit
unfolding guess_all
guess_all-le-password_failure_limit store tenant digest [] failures until tables guarded le b k =
    omega (arith, le)
guess_all-le-password_failure_limit store tenant digest (q ∷ qs) failures until tables guarded le
      (b, bs) k =
    let step =
      checked_of store q tables
        (claim_password store q.claims_at tenant digest q.source q.token q.timeout tables) in
    let (k', le') = checked_step store tenant digest q failures until tables guarded le b k in
    let rest : failures + step.0 + (guess_all store tenant digest qs step.1).0
        ≤ password_failure_limit =
      guess_all-le-password_failure_limit store tenant digest qs (failures + step.0) until step.1
        guarded le' bs k' in
    omega (arith, rest)
