-- ===== src/Attempts/Operations/Tokens.antt =====
-- No transaction but the claim that draws a token gives it to a row of a login.
use rss_identity.Common.{
  ℕ, ◌+◌, ◌≡◌, sym, subst, inl, inr, true, false, Option, none, arith, ◌==◌, Bool-cases,
  Option-cases, All, Result, ok, Result-cases,
}
use rss_identity.Common.Text.{Text, text_eq}
use rss_identity.Common.Ids.{Uuid, TenantId}
use rss_identity.Storage.{AuthorityError, Store, lock_guard}
use rss_identity.Attempts.{
  Clock, Tables, PasswordRow, attempt, cleanup, consume, login_digest_of, password_due,
  password_before, attempt_source_limit, attempt_source_seconds, attempt_scope_limit,
  attempt_scope_seconds,
}
use rss_identity.Attempts.Table.{find, put, All-put, All-remove}
use rss_identity.Attempts.Reserve.{reserve, source_key}
use rss_identity.Attempts.Reserve.Decisions.{reserved-cases}
use rss_identity.Attempts.Passwords.{
  PasswordClaim, write, holds, is_storable, update_held, delete_held, claimed, claim_password,
}
use rss_identity.Attempts.Passwords.Decisions.{claim_password-cases}
use rss_identity.Attempts.Passwords.Ledger.{purge-All}
use rss_identity.Attempts.Passwords.Claims.{claimed_digest}

-- A row of the login is not claimed with the token.
abbrev pub IsFree : Text → Uuid → PasswordRow → Type 0
IsFree digest token r = text_eq r.login_digest digest ≡ true → holds token r ≡ false

abbrev pub AreFree : Text → Uuid → Tables → Type 0
AreFree digest token tables = All (IsFree digest token) tables.passwords

-- A row that is written takes the place of the row of its login.
pub write-put :
    (r : PasswordRow) (tables after : Tables)
    → write r tables ≡ ok after
    → record tables { passwords = put login_digest_of r tables.passwords } ≡ after
unfolding write
write-put r tables after h = elim (Bool-cases (is_storable r)) [
  | inr e ↦ absurd (ground (arith, e, h))
  | inl e ↦ ground (arith, e, h)
]

module _ (digest : Text) (token : Uuid) where
  cleanup-AreFree :
      (t : Clock) (i : ℕ) (tables : Tables)
      → AreFree digest token tables
      → AreFree digest token (cleanup t i tables)
  unfolding cleanup
  cleanup-AreFree t i tables a =
      purge-All (password_due (t (i + 1))) password_before login_digest_of (IsFree digest token) _
        tables.passwords a

  pub write-AreFree :
      (r : PasswordRow) (tables after : Tables)
      → IsFree digest token r
      → AreFree digest token tables
      → write r tables ≡ ok after
      → AreFree digest token after
  write-AreFree r tables after free a h =
      subst (AreFree digest token) (write-put r tables after h)
        (All-put login_digest_of (IsFree digest token) r tables.passwords free a)

  pub claimed-IsFree :
      (t : Clock) (login : Text) (drawn : Uuid) (micros : ℕ) (row : Option PasswordRow)
      → (drawn == token) ≡ false
      → IsFree digest token (claimed t 9 login drawn micros row)
  claimed-IsFree t login drawn micros row other h =
      let (at, by, ends) = claimed_digest t login drawn micros row in ground (arith, by, other)

  pub reserve-AreFree :
      (store : Store) (t : Clock) (tenant : Uuid) (scope source : Text) (tables after : Tables)
      (out : Result (Unit {0}) AuthorityError)
      → AreFree digest token tables
      → reserve store t tenant scope source tables ≡ ok (after, out)
      → AreFree digest token after
  unfolding reserve consume
  reserve-AreFree store t tenant scope source tables after out a h =
      elim (Result-cases (lock_guard store tenant)) [
        | inr (x, l) ↦ absurd (ground (arith, h, l))
        | inl (u, l) ↦
            let cleaned = cleanup t 0 tables in
            let by_source =
              attempt t 2 cleaned (source_key source) attempt_source_limit attempt_source_seconds in
            let by_scope = attempt t 5 cleaned scope attempt_scope_limit attempt_scope_seconds in
            let a' = cleanup-AreFree t 0 tables a in
            elim (reserved-cases t by_source by_scope cleaned after out (ground (arith, h, l))) [
              | inl (refused, same) ↦ subst (AreFree digest token) same a'
              | inr g ↦ subst (AreFree digest token) g.counts a'
            ]
      ]

  pub claim_password-AreFree :
      (store : Store) (t : Clock) (tenant : TenantId) (login source : Text) (drawn : Uuid)
      (timeout : ℕ) (tables after : Tables) (out : Result PasswordClaim AuthorityError)
      → (drawn == token) ≡ false
      → AreFree digest token tables
      → claim_password store t tenant login source drawn timeout tables ≡ ok (after, out)
      → AreFree digest token after
  unfolding consume
  claim_password-AreFree store t tenant login source drawn timeout tables after out other a h =
      let a' = cleanup-AreFree t 0 tables a in
      elim (claim_password-cases store t tenant login source drawn timeout tables after out h) [
        | inl (refused, same) ↦ subst (AreFree digest token) (sym same) a'
        | inr g ↦
            write-AreFree _ _ after
              (claimed-IsFree t login drawn _
                (find login_digest_of login (cleanup t 0 tables).passwords) other)
              a' g.written
      ]

  pub update_held-AreFree :
      (login : Text) (held : Uuid) (change : PasswordRow → PasswordRow) (tables after : Tables)
      → ((r : PasswordRow) → (change r).claim_token ≡ none)
      → AreFree digest token tables
      → update_held login held change tables ≡ ok after
      → AreFree digest token after
  unfolding update_held
  update_held-AreFree login held change tables after freed a h =
      elim (Option-cases (find login_digest_of login tables.passwords)) [
        | inl e ↦
            let same : tables ≡ after = ground (arith, h, e) in subst (AreFree digest token) same a
        | inr (r, e) ↦ elim (Bool-cases (holds held r)) [
          | inl o ↦
              write-AreFree (change r) tables after (λ k. ground (arith, freed r)) a
                (ground (arith, h, e, o))
          | inr o ↦
              let same : tables ≡ after = ground (arith, h, e, o) in
              subst (AreFree digest token) same a
        ]
      ]

  pub delete_held-AreFree :
      (login : Text) (held : Uuid) (tables : Tables)
      → AreFree digest token tables
      → AreFree digest token (delete_held login held tables)
  unfolding delete_held
  delete_held-AreFree login held tables a =
      elim (Option-cases (find login_digest_of login tables.passwords)) [
        | inl e ↦ rw (delete_held, e) a
        | inr (r, e) ↦ elim (Bool-cases (holds held r)) [
          | inl o ↦
              rw (delete_held, e, o)
                (All-remove login_digest_of (IsFree digest token) login tables.passwords a)
          | inr o ↦ rw (delete_held, e, o) a
        ]
      ]
