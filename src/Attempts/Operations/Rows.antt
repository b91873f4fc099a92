-- ===== src/Attempts/Operations/Rows.antt =====
-- The row of a scope, kept by every transaction that does not reserve it.
use rss_identity.Common.{
  ℕ, ◌≡◌, refl, sym, subst, ◌∙◌, inl, inr, false, some, List, [], ◌∷◌, arith, if◌then◌else◌,
  Bool-cases, Option-cases, Result, ok, err, Result-cases,
}
use rss_identity.Common.Text.{Text, text_eq}
use rss_identity.Common.Ids.{Uuid, TenantId}
use rss_identity.Storage.{AuthorityError, Store, AuthenticationCandidate, lock_guard, current}
use rss_identity.Attempts.{
  Clock, Tables, AttemptRow, PasswordRow, attempt, attempt_key, login_digest_of, cleanup, consume,
  attempt_source_limit, attempt_source_seconds, attempt_scope_limit, attempt_scope_seconds,
}
use rss_identity.Attempts.Table.{find, remove}
use rss_identity.Attempts.Reserve.{source_key, reserve}
use rss_identity.Attempts.Reserve.Decisions.{reserved-cases}
use rss_identity.Attempts.Reserve.Step.{Before, cleanup_kept, attempt_key_is, find-consume_other}
use rss_identity.Attempts.Passwords.{
  PasswordClaim, write, holds, owned, failed, released, is_rejected, update_held, delete_held,
  settled, claim_password, settle_password, clear,
}
use rss_identity.Attempts.Passwords.Decisions.{claim_password-cases}

-- A text that is the key of no source
abbrev pub IsScope : Text → Type 0
IsScope scope = (source : Text) → text_eq (source_key source) scope ≡ false

-- A count under another key keeps the row.
counted_other :
    (now i : ℕ) (t : Clock) (tables base : Tables) (key scope : Text) (limit seconds : ℕ)
    (o : AttemptRow)
    → text_eq key scope ≡ false
    → find attempt_key scope tables.attempts ≡ some o
    → find attempt_key scope (consume now (attempt t i base key limit seconds) tables).attempts
      ≡ some o
counted_other now i t tables base key scope limit seconds o other e =
    find-consume_other now (attempt t i base key limit seconds) tables scope
      (rw (attempt_key_is t i base key limit seconds) other)
    ∙ e

pub reserve-kept :
    (store : Store) (t : Clock) (tenant : Uuid) (scope other source : Text) (tables after : Tables)
    (r : AttemptRow) (out : Result (Unit {0}) AuthorityError)
    → IsScope scope
    → text_eq other scope ≡ false
    → find attempt_key scope tables.attempts ≡ some r
    → Before t r.expires_at
    → reserve store t tenant other source tables ≡ ok (after, out)
    → find attempt_key scope after.attempts ≡ some r
unfolding reserve
reserve-kept store t tenant scope other source tables after r out s apart e b h =
    elim (Result-cases (lock_guard store tenant)) [
      | inr (x, l) ↦ absurd (ground (arith, h, l))
      | inl (u, l) ↦
          let cleaned = cleanup t 0 tables in
          let by_source =
            attempt t 2 cleaned (source_key source) attempt_source_limit attempt_source_seconds in
          let by_scope = attempt t 5 cleaned other attempt_scope_limit attempt_scope_seconds in
          let there = cleanup_kept t 0 tables scope r e (b 0) in
          elim (reserved-cases t by_source by_scope cleaned after out (ground (arith, h, l))) [
            | inl (refused, same) ↦
                subst (λ z. find attempt_key scope z.attempts ≡ some r) same there
            | inr g ↦
                subst (λ z. find attempt_key scope z.attempts ≡ some r) g.counts
                  (counted_other (t 9) 5 t (consume (t 8) by_source cleaned) cleaned other scope
                    attempt_scope_limit attempt_scope_seconds r apart
                    (counted_other (t 8) 2 t cleaned cleaned (source_key source) scope
                      attempt_source_limit attempt_source_seconds r (s source) there))
          ]
    ]

write-attempts :
    (r : PasswordRow) (tables after : Tables)
    → write r tables ≡ ok after
    → tables.attempts ≡ after.attempts
unfolding write
write-attempts r tables after h = ground (arith, h)

pub claim_password-kept :
    (store : Store) (t : Clock) (tenant : TenantId) (scope digest source : Text) (token : Uuid)
    (timeout : ℕ) (tables after : Tables) (r : AttemptRow)
    (out : Result PasswordClaim AuthorityError)
    → IsScope scope
    → find attempt_key scope tables.attempts ≡ some r
    → Before t r.expires_at
    → claim_password store t tenant digest source token timeout tables ≡ ok (after, out)
    → find attempt_key scope after.attempts ≡ some r
claim_password-kept store t tenant scope digest source token timeout tables after r out s e b h =
    let cleaned = cleanup t 0 tables in
    let there = cleanup_kept t 0 tables scope r e (b 0) in
    elim (claim_password-cases store t tenant digest source token timeout tables after out h) [
      | inl (refused, same) ↦
          subst (λ z. find attempt_key scope z.attempts ≡ some r) (sym same) there
      | inr g ↦
          let by_source =
            attempt t 2 cleaned (source_key source) attempt_source_limit attempt_source_seconds in
          subst (λ rows. find attempt_key scope rows ≡ some r)
            (write-attempts _ (consume (t 8) by_source cleaned) after g.written)
            (counted_other (t 8) 2 t cleaned cleaned (source_key source) scope attempt_source_limit
              attempt_source_seconds r (s source) there)
    ]

update_held-attempts :
    (digest : Text) (token : Uuid) (change : PasswordRow → PasswordRow) (tables after : Tables)
    → update_held digest token change tables ≡ ok after
    → tables.attempts ≡ after.attempts
unfolding update_held
update_held-attempts digest token change tables after h =
    elim (Option-cases (find login_digest_of digest tables.passwords)) [
      | inl e ↦ ground (arith, h, e)
      | inr (r, e) ↦ elim (Bool-cases (holds token r)) [
        | inl o ↦ write-attempts (change r) tables after (ground (arith, h, e, o))
        | inr o ↦ ground (arith, h, e, o)
      ]
    ]

delete_held-attempts :
    (digest : Text) (token : Uuid) (tables : Tables)
    → (delete_held digest token tables).attempts ≡ tables.attempts
unfolding delete_held
delete_held-attempts digest token tables =
    elim (Option-cases (find login_digest_of digest tables.passwords)) [
      | inl e ↦ ground (arith, e)
      | inr (r, e) ↦ ground (arith, e)
    ]

settled-attempts :
    (store : Store) (t : Clock) (instant : ℕ) (claim : PasswordClaim)
    (outcome : Result AuthenticationCandidate AuthorityError) (tables after : Tables)
    (out : Result AuthenticationCandidate AuthorityError)
    → settled store t instant claim outcome tables ≡ ok (after, out)
    → tables.attempts ≡ after.attempts
unfolding settled
settled-attempts store t instant claim (ok candidate) tables after out h =
    elim (Result-cases (current store instant candidate)) [
      | inr (x, c) ↦ absurd (ground (arith, h, c))
      | inl (state, c) ↦
          let same : delete_held claim.login claim.token tables ≡ after = ground (arith, h, c) in
          subst (λ z. tables.attempts ≡ z.attempts) same
            (sym (delete_held-attempts claim.login claim.token tables))
    ]
settled-attempts store t instant claim (err error) tables after out h =
    let change = if is_rejected error then failed t 1 else released in
    elim (Result-cases (update_held claim.login claim.token change tables)) [
      | inr (x, c) ↦ absurd (ground (arith, h, c))
      | inl (next, c) ↦
          let same : next ≡ after = ground (arith, h, c) in
          subst (λ z. tables.attempts ≡ z.attempts) same
            (update_held-attempts claim.login claim.token change tables next c)
    ]

pub settle_password-attempts :
    (store : Store) (t : Clock) (instant : ℕ) (claim : PasswordClaim)
    (outcome : Result AuthenticationCandidate AuthorityError) (tables after : Tables)
    (out : Result AuthenticationCandidate AuthorityError)
    → settle_password store t instant claim outcome tables ≡ ok (after, out)
    → tables.attempts ≡ after.attempts
unfolding settle_password
settle_password-attempts store t instant claim outcome tables after out h =
    elim (Result-cases (lock_guard store claim.tenant)) [
      | inr (x, l) ↦ absurd (ground (arith, h, l))
      | inl (u, l) ↦
          elim (Bool-cases
            (owned (t 0) claim.token (find login_digest_of claim.login tables.passwords))) [
              | inl o ↦
                  settled-attempts store t instant claim outcome tables after out
                    (ground (arith, h, l, o))
              | inr o ↦ ground (arith, h, l, o)
            ]
    ]

pub clear-attempts :
    (digests : List Text) (tables : Tables) → tables.attempts ≡ (clear digests tables).attempts
unfolding clear
clear-attempts [] tables = refl
clear-attempts (digest ∷ digests) tables =
    clear-attempts digests
      (record tables { passwords = remove login_digest_of digest tables.passwords })
