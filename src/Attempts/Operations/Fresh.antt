-- ===== src/Attempts/Operations/Fresh.antt =====
-- A token that no later claim draws again never comes back to a row of a login.
use rss_identity.Common.{
  ℕ, ◌≡◌, refl, subst, inl, inr, false, none, List, [], ◌∷◌, arith, ◌==◌, if◌then◌else◌, Bool-cases,
  All, Result, ok, err, Result-cases,
}
use rss_identity.Common.Text.{Text}
use rss_identity.Common.Ids.{Uuid}
use rss_identity.Storage.{
  AuthorityError, PgError, Store, AuthenticationCandidate, lock_guard, current,
}
use rss_identity.Attempts.{Clock, Tables, PasswordRow, login_digest_of}
use rss_identity.Attempts.Table.{find, remove, All-remove}
use rss_identity.Attempts.Passwords.{
  PasswordClaim, failed, released, is_rejected, update_held, delete_held, owned, settled,
  settle_password, clear,
}
use rss_identity.Attempts.Passwords.Guesses.{left_by}
use rss_identity.Attempts.Operations.{
  Operation, reserving, claiming, settling, clearing, perform, perform_all,
}
use rss_identity.Attempts.Operations.Tokens.{
  IsFree, AreFree, reserve-AreFree, claim_password-AreFree, update_held-AreFree,
  delete_held-AreFree,
}

-- A claim draws another token.
abbrev pub IsFresh : Uuid → Operation → Type 0
IsFresh token (claiming store t tenant digest source drawn timeout) = (drawn == token) ≡ false
IsFresh token _ = Unit {0}

module _ (digest : Text) (token : Uuid) where
  failed-claim_token :
      (t : Clock) (error : AuthorityError) (r : PasswordRow)
      → ((if is_rejected error then failed t 1 else released) r).claim_token ≡ none
  unfolding failed
  failed-claim_token t error r = elim (Bool-cases (is_rejected error)) [
    | inl e ↦ rw e refl
    | inr e ↦ rw e refl
  ]

  settled-AreFree :
      (store : Store) (t : Clock) (instant : ℕ) (claim : PasswordClaim)
      (outcome : Result AuthenticationCandidate AuthorityError) (tables after : Tables)
      (out : Result AuthenticationCandidate AuthorityError)
      → AreFree digest token tables
      → settled store t instant claim outcome tables ≡ ok (after, out)
      → AreFree digest token after
  unfolding settled
  settled-AreFree store t instant claim (ok candidate) tables after out a h =
      elim (Result-cases (current store instant candidate)) [
        | inr (x, c) ↦ absurd (ground (arith, h, c))
        | inl (state, c) ↦
            let same : delete_held claim.login claim.token tables ≡ after = ground (arith, h, c) in
            subst (AreFree digest token) same
              (delete_held-AreFree digest token claim.login claim.token tables a)
      ]
  settled-AreFree store t instant claim (err error) tables after out a h =
      let change = if is_rejected error then failed t 1 else released in
      elim (Result-cases (update_held claim.login claim.token change tables)) [
        | inr (x, c) ↦ absurd (ground (arith, h, c))
        | inl (next, c) ↦
            let same : next ≡ after = ground (arith, h, c) in
            subst (AreFree digest token) same (
              update_held-AreFree digest token claim.login claim.token change tables next
                (failed-claim_token t error) a c)
      ]

  settle_password-AreFree :
      (store : Store) (t : Clock) (instant : ℕ) (claim : PasswordClaim)
      (outcome : Result AuthenticationCandidate AuthorityError) (tables after : Tables)
      (out : Result AuthenticationCandidate AuthorityError)
      → AreFree digest token tables
      → settle_password store t instant claim outcome tables ≡ ok (after, out)
      → AreFree digest token after
  unfolding settle_password
  settle_password-AreFree store t instant claim outcome tables after out a h =
      elim (Result-cases (lock_guard store claim.tenant)) [
        | inr (x, l) ↦ absurd (ground (arith, h, l))
        | inl (u, l) ↦
            elim (Bool-cases
              (owned (t 0) claim.token (find login_digest_of claim.login tables.passwords))) [
                | inl o ↦
                    settled-AreFree store t instant claim outcome tables after out a
                      (ground (arith, h, l, o))
                | inr o ↦
                    let same : tables ≡ after = ground (arith, h, l, o) in
                    subst (AreFree digest token) same a
              ]
      ]

  clear-AreFree :
      (logins : List Text) (tables : Tables)
      → AreFree digest token tables
      → AreFree digest token (clear logins tables)
  unfolding clear
  clear-AreFree [] tables a = a
  clear-AreFree (login ∷ logins) tables a =
      clear-AreFree logins
        (record tables { passwords = remove login_digest_of login tables.passwords })
        (All-remove login_digest_of (IsFree digest token) login tables.passwords a)

  left_by-AreFree {ℓ} :
      {A : Type ℓ} (tables : Tables) (result : Result (Tables × A) PgError)
      → AreFree digest token tables
      → ((after : Tables) (out : A) → result ≡ ok (after, out) → AreFree digest token after)
      → AreFree digest token (left_by tables result)
  left_by-AreFree tables (err x) a next = a
  left_by-AreFree tables (ok (after, out)) a next = next after out refl

  perform-AreFree :
      (o : Operation) (tables : Tables)
      → IsFresh token o
      → AreFree digest token tables
      → AreFree digest token (perform o tables)
  perform-AreFree (reserving store t tenant scope source) tables fresh a =
      left_by-AreFree tables _ a
        (λ after out. reserve-AreFree digest token store t tenant scope source tables after out a)
  perform-AreFree (claiming store t tenant login source drawn timeout) tables fresh a =
      left_by-AreFree tables _ a (λ after out.
        claim_password-AreFree digest token store t tenant login source drawn timeout tables after
          out fresh a)
  perform-AreFree (settling store t instant claim outcome) tables fresh a =
      left_by-AreFree tables _ a
        (λ after out. settle_password-AreFree store t instant claim outcome tables after out a)
  perform-AreFree (clearing logins) tables fresh a = clear-AreFree logins tables a

  -- What no row of the login is claimed with, none is after any transactions that do not draw it.
  pub perform_all-AreFree :
      (os : List Operation) (tables : Tables)
      → All (IsFresh token) os
      → AreFree digest token tables
      → AreFree digest token (perform_all os tables)
  unfolding perform_all
  perform_all-AreFree [] tables fresh a = a
  perform_all-AreFree (o ∷ os) tables (now, later) a =
      perform_all-AreFree os (perform o tables) later (perform-AreFree o tables now a)
