-- ===== src/Attempts/Passwords/Total.antt =====
-- The rows that password claims and settlements add: at most one where none was.
use rss_identity.Common.{
  ℕ, ◌+◌, ◌≤◌, min, ◌≡◌, refl, sym, subst, ◌∙◌, inl, inr, Bool, true, false, not, Option, none,
  some, List, [], ◌∷◌, arith, if◌then◌else◌, Bool-cases, Option-cases, is_none, length, Result, ok,
  err, Result-cases,
}
use rss_identity.Common.Text.{Text}
use rss_identity.Common.Ids.{Uuid, TenantId}
use rss_identity.Storage.{AuthorityError, Store, AuthenticationCandidate, lock_guard, current}
use rss_identity.Attempts.{
  Clock, Tables, PasswordRow, attempt, attempt_source_limit, attempt_source_seconds, cleanup,
  consume, total, max_attempt_rows, login_digest_of, seconds_to_micros,
}
use rss_identity.Attempts.Table.{find, put, remove, length-put, length-remove, key-find}
use rss_identity.Attempts.Reserve.{source_key, one_unless}
use rss_identity.Attempts.Passwords.{
  PasswordClaim, is_storable, write, claimed, claim_password, holds, owned, settle_password,
  settled, update_held, delete_held, clear, failed, released, is_rejected,
}
use rss_identity.Attempts.Passwords.Decisions.{claim_password-cases}
use rss_identity.Attempts.Total.{cleanup-total, consume-total, stored_by}

write-total :
    (r : PasswordRow) (tables after : Tables)
    → write r tables ≡ ok after
    → total after
      ≤ total tables
        + one_unless (not (is_none (find login_digest_of r.login_digest tables.passwords)))
unfolding write total
write-total r tables after h = elim (Bool-cases (is_storable r)) [
  | inr e ↦ absurd (ground (arith, e, h))
  | inl e ↦
      let next = record tables { passwords = put login_digest_of r tables.passwords } in
      let same : next ≡ after = ground (arith, e, h) in
      let l = length-put login_digest_of r tables.passwords in
      let o = find login_digest_of r.login_digest tables.passwords in
      subst
        (λ s.
          length s.attempts + length s.passwords
          ≤ length tables.attempts + length tables.passwords + one_unless (not (is_none o)))
        same (ground (arith, l))
]

claimed_digest :
    (t : Clock) (digest : Text) (token : Uuid) (micros : ℕ) (o : Option PasswordRow)
    → (claimed t 9 digest token micros o).login_digest ≡ digest
unfolding claimed
claimed_digest t digest token micros none = refl
claimed_digest t digest token micros (some r) = refl

pub claim_password-total :
    (store : Store) (t : Clock) (tenant : TenantId) (digest source : Text) (token : Uuid)
    (timeout : ℕ) (tables after : Tables) (out : Result PasswordClaim AuthorityError)
    → total tables ≤ max_attempt_rows
    → claim_password store t tenant digest source token timeout tables ≡ ok (after, out)
    → total after ≤ max_attempt_rows
unfolding consume
claim_password-total store t tenant digest source token timeout tables after out le h =
    let cleaned = cleanup t 0 tables in
    let fewer : total cleaned ≤ max_attempt_rows = omega (arith, cleanup-total t 0 tables, le) in
    let by_source =
      attempt t 2 cleaned (source_key source) attempt_source_limit attempt_source_seconds in
    let row = find login_digest_of digest cleaned.passwords in
    let row' = claimed t 9 digest token (min timeout (seconds_to_micros 60)) row in
    elim (claim_password-cases store t tenant digest source token timeout tables after out h) [
      | inl (refused, same) ↦ subst (λ s. total s ≤ max_attempt_rows) (sym same) fewer
      | inr g ↦
          let counted : total (consume (t 8) by_source cleaned)
              ≤ total cleaned + one_unless by_source.is_stored =
            rw
              (stored_by t 2 cleaned (source_key source) attempt_source_limit
                attempt_source_seconds)
              (consume-total (t 8) by_source cleaned) in
          let written : total after
              ≤ total (consume (t 8) by_source cleaned) + one_unless (not (is_none row)) =
            subst
              (λ d.
                total after
                ≤ total (consume (t 8) by_source cleaned)
                  + one_unless (not (is_none (find login_digest_of d cleaned.passwords))))
              (claimed_digest t digest token (min timeout (seconds_to_micros 60)) row)
              (write-total row' (consume (t 8) by_source cleaned) after g.written) in
          omega (arith, counted, written, g.room)
    ]

update_held-total :
    (digest : Text) (token : Uuid) (change : PasswordRow → PasswordRow) (tables after : Tables)
    → ((r : PasswordRow) → (change r).login_digest ≡ r.login_digest)
    → update_held digest token change tables ≡ ok after
    → total after ≤ total tables
unfolding update_held
update_held-total digest token change tables after keeps h =
    elim (Option-cases (find login_digest_of digest tables.passwords)) [
      | inl e ↦
          let same : tables ≡ after = ground (arith, e, h) in
          subst (λ s. total s ≤ total tables) same (omega arith)
      | inr (r, e) ↦ elim (Bool-cases (holds token r)) [
        | inr o ↦
            let same : tables ≡ after = ground (arith, e, h, o) in
            subst (λ s. total s ≤ total tables) same (omega arith)
        | inl o ↦
            let at : (change r).login_digest ≡ digest =
              keeps r ∙ key-find login_digest_of digest tables.passwords r e in
            let there : find login_digest_of (change r).login_digest tables.passwords ≡ some r =
              rw at e in
            ground (arith, there, write-total (change r) tables after (ground (arith, e, h, o)))
      ]
    ]

change_digest :
    (t : Clock) (rejection : Bool) (r : PasswordRow)
    → ((if rejection then failed t 1 else released) r).login_digest ≡ r.login_digest
unfolding failed
change_digest t true r = refl
change_digest t false r = refl

delete_held-total :
    (digest : Text) (token : Uuid) (tables : Tables)
    → total (delete_held digest token tables) ≤ total tables
unfolding delete_held total
delete_held-total digest token tables =
    let l = length-remove login_digest_of digest tables.passwords in
    elim (Option-cases (find login_digest_of digest tables.passwords)) [
      | inl e ↦ ground (arith, e)
      | inr (r, e) ↦ ground (arith, e, l)
    ]

settled-total :
    (store : Store) (t : Clock) (instant : ℕ) (claim : PasswordClaim)
    (outcome : Result AuthenticationCandidate AuthorityError) (tables after : Tables)
    (out : Result AuthenticationCandidate AuthorityError)
    → settled store t instant claim outcome tables ≡ ok (after, out)
    → total after ≤ total tables
unfolding settled
settled-total store t instant claim (ok candidate) tables after out h =
    elim (Result-cases (current store instant candidate)) [
      | inr (x, c) ↦ absurd (ground (arith, h, c))
      | inl (state, c) ↦
          let same : delete_held claim.login claim.token tables ≡ after = ground (arith, h, c) in
          subst (λ s. total s ≤ total tables) same
            (delete_held-total claim.login claim.token tables)
    ]
settled-total store t instant claim (err error) tables after out h =
    let change = if is_rejected error then failed t 1 else released in
    elim (Result-cases (update_held claim.login claim.token change tables)) [
      | inr (x, c) ↦ absurd (ground (arith, h, c))
      | inl (next, c) ↦
          let same : next ≡ after = ground (arith, h, c) in
          subst (λ s. total s ≤ total tables) same
            (update_held-total claim.login claim.token change tables next
              (change_digest t (is_rejected error)) c)
    ]

pub settle_password-total :
    (store : Store) (t : Clock) (instant : ℕ) (claim : PasswordClaim)
    (outcome : Result AuthenticationCandidate AuthorityError) (tables after : Tables)
    (out : Result AuthenticationCandidate AuthorityError)
    → settle_password store t instant claim outcome tables ≡ ok (after, out)
    → total after ≤ total tables
unfolding settle_password
settle_password-total store t instant claim outcome tables after out h =
    elim (Result-cases (lock_guard store claim.tenant)) [
      | inr (x, l) ↦ absurd (ground (arith, h, l))
      | inl (u, l) ↦
          elim (Bool-cases
            (owned (t 0) claim.token (find login_digest_of claim.login tables.passwords))) [
              | inl o ↦
                  settled-total store t instant claim outcome tables after out
                    (ground (arith, h, l, o))
              | inr o ↦
                  let same : tables ≡ after = ground (arith, h, l, o) in
                  subst (λ s. total s ≤ total tables) same (omega arith)
            ]
    ]

pub clear-total :
    (digests : List Text) (tables : Tables) → total (clear digests tables) ≤ total tables
unfolding clear total
clear-total [] tables = omega arith
clear-total (digest ∷ digests) tables = omega (
  arith,
  length-remove login_digest_of digest tables.passwords,
  clear-total digests
      (record tables { passwords = remove login_digest_of digest tables.passwords }),
)
