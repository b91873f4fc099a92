-- ===== src/Attempts/Passwords/Decisions.antt =====
-- The two ways in which a claim ends: refused, with nothing changed but the cleanup, or granted.
use rss_identity.Common.{
  ℕ, ◌+◌, ◌≤◌, min, max, ◌≡◌, ◌⊎◌, inl, inr, false, not, Option, arith, ltb, Bool-cases, is_none,
  Result, ok, is_ok, Result-cases,
}
use rss_identity.Common.Text.{Text}
use rss_identity.Common.Ids.{Uuid, TenantId}
use rss_identity.Storage.{AuthorityError, Store, lock_guard}
use rss_identity.Attempts.{
  Clock, Tables, PasswordRow, Attempt, attempt, consume, rate_limited, total, cleanup,
  attempt_source_limit, attempt_source_seconds, max_attempt_rows, seconds_to_micros,
  login_digest_of,
}
use rss_identity.Attempts.Table.{find}
use rss_identity.Attempts.Reserve.{source_key, one_unless}
use rss_identity.Attempts.Passwords.{
  PasswordClaim, write, password_retry, is_busy, claimed, decided, claim_password,
}

-- What was found and done when a claim was granted
pub record Granted (t : Clock) (tenant : TenantId) (digest : Text) (token : Uuid) (timeout : ℕ)
    (source : Attempt) (row : Option PasswordRow) (tables after : Tables)
    (out : Result PasswordClaim AuthorityError) : Type 0 where
  pub unlocked : ltb 0 (password_retry t 5 row) ≡ false
  pub free : is_busy (t 7) row ≡ false
  pub room :
      total tables + one_unless source.is_stored + one_unless (not (is_none row)) ≤ max_attempt_rows
  pub written :
      write
        (claimed t 9 digest token (min timeout (seconds_to_micros 60)) row)
        (consume (t 8) source tables)
      ≡ ok after
  pub given : out ≡ ok (record { tenant = tenant; login = digest; token = token })

decided-cases :
    (t : Clock) (tenant : TenantId) (digest : Text) (token : Uuid) (timeout : ℕ) (source : Attempt)
    (row : Option PasswordRow) (tables after : Tables) (out : Result PasswordClaim AuthorityError)
    → decided t tenant digest token timeout source row tables ≡ ok (after, out)
    → ((is_ok out ≡ false) × (after ≡ tables))
      ⊎ Granted t tenant digest token timeout source row tables after out
unfolding decided
decided-cases t tenant digest token timeout source row tables after out h =
    let retry = max (password_retry t 5 row) source.retry in
    let needed = total tables + one_unless source.is_stored + one_unless (not (is_none row)) in
    let row' = claimed t 9 digest token (min timeout (seconds_to_micros 60)) row in
    elim (Bool-cases (ltb 0 retry)) [
      | inl late ↦ elim (Result-cases (rate_limited retry)) [
        | inr (x, l) ↦ absurd (ground (arith, h, late, l))
        | inl (x, l) ↦ inl (ground (arith, h, late, l), ground (arith, h, late, l))
      ]
      | inr in_time ↦ elim (Bool-cases (is_busy (t 7) row)) [
        | inl b ↦ inl (ground (arith, h, in_time, b), ground (arith, h, in_time, b))
        | inr free ↦ elim (Bool-cases (ltb max_attempt_rows needed)) [
          | inl full ↦
              inl (ground (arith, h, in_time, free, full), ground (arith, h, in_time, free, full))
          | inr room ↦ elim (Result-cases (write row' (consume (t 8) source tables))) [
            | inr (x, w) ↦ absurd (ground (arith, h, in_time, free, room, w))
            | inl (s, w) ↦ inr (record {
              unlocked = ground (arith, in_time);
              free = free;
              room = ground (arith, room);
              written = ground (arith, h, in_time, free, room, w);
              given = ground (arith, h, in_time, free, room, w);
            })
          ]
        ]
      ]
    ]

pub claim_password-cases :
    (store : Store) (t : Clock) (tenant : TenantId) (digest source : Text) (token : Uuid)
    (timeout : ℕ) (tables after : Tables) (out : Result PasswordClaim AuthorityError)
    → claim_password store t tenant digest source token timeout tables ≡ ok (after, out)
    → ((is_ok out ≡ false) × (after ≡ cleanup t 0 tables))
      ⊎ Granted t tenant digest token timeout
          (attempt t 2
            (cleanup t 0 tables)
            (source_key source)
            attempt_source_limit
            attempt_source_seconds)
          (find login_digest_of digest (cleanup t 0 tables).passwords)
          (cleanup t 0 tables)
          after
          out
unfolding claim_password
claim_password-cases store t tenant digest source token timeout tables after out h =
    elim (Result-cases (lock_guard store tenant)) [
      | inr (x, l) ↦ absurd (ground (arith, h, l))
      | inl (u, l) ↦
          decided-cases t tenant digest token timeout _ _ _ after out (ground (arith, h, l))
    ]
