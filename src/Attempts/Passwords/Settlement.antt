-- ===== src/Attempts/Passwords/Settlement.antt =====
-- The outcome of a check is settled within the constraints of the table.
use rss_identity.Common.{
  ℕ, ◌≡◌, subst, inl, inr, Bool, true, false, List, [], ◌∷◌, arith, if◌then◌else◌, Bool-cases,
  Option-cases, is_none, Result, ok, err, Result-cases,
}
use rss_identity.Common.Text.{Text}
use rss_identity.Storage.{
  AuthorityError, Store, AuthenticationCandidate, lock_guard, current, rejected,
}
use rss_identity.Common.Ids.{Uuid}
use rss_identity.Attempts.{Clock, Tables, PasswordRow, login_digest_of}
use rss_identity.Attempts.Table.{find, put, All-find, All-put, All-remove}
use rss_identity.Attempts.Passwords.{
  PasswordClaim, is_storable, write, holds, failed, released, update_held, delete_held, settled,
  settle_password, clear, owned, is_rejected,
}
use rss_identity.Attempts.Passwords.Ledger.{IsRow, IsLedger}

failed-IsRow :
    (t : Clock) (i : ℕ) (r : PasswordRow)
    → IsRow r
    → is_none r.claim_token ≡ false
    → IsRow (failed t i r)
unfolding failed is_storable
failed-IsRow t i r k held = elim (Option-cases r.window_until) [
  | inl e ↦ record { storable = ground (arith, e); claimable = λ x. absurd (ground (arith, x)) }
  | inr (until, e) ↦ record {
    storable = ground (arith, e, k.storable, k.claimable held);
    claimable = λ x. absurd (ground (arith, x));
  }
]

released-IsRow : (r : PasswordRow) → IsRow r → IsRow (released r)
unfolding is_storable
released-IsRow r k = record {
  storable = ground (arith, k.storable);
  claimable = λ x. absurd (ground (arith, x));
}

-- An update of a held row, of which the result is a row again, is written.
update_held-ok :
    (digest : Text) (token : Uuid) (change : PasswordRow → PasswordRow) (tables : Tables)
    → ((r : PasswordRow) → IsRow r → is_none r.claim_token ≡ false → IsRow (change r))
    → IsLedger tables
    → (after : Tables) × (update_held digest token change tables ≡ ok after) × IsLedger after
unfolding update_held write
update_held-ok digest token change tables keeps a =
    elim (Option-cases (find login_digest_of digest tables.passwords)) [
      | inl e ↦ (tables, ground (arith, e), a)
      | inr (r, e) ↦ elim (Bool-cases (holds token r)) [
        | inr h ↦ (tables, ground (arith, e, h), a)
        | inl h ↦
            let k =
              keeps r (All-find login_digest_of IsRow digest tables.passwords r a e)
                (ground (arith, h)) in
            (
              record tables { passwords = put login_digest_of (change r) tables.passwords },
              ground (arith, e, h, k.storable),
              All-put login_digest_of IsRow (change r) tables.passwords k a,
            )
      ]
    ]

change_kept :
    (t : Clock) (rejection : Bool) (r : PasswordRow)
    → IsRow r
    → is_none r.claim_token ≡ false
    → IsRow ((if rejection then failed t 1 else released) r)
change_kept t true r k held = failed-IsRow t 1 r k held
change_kept t false r k held = released-IsRow r k

delete_held-IsLedger :
    (digest : Text) (token : Uuid) (tables : Tables)
    → IsLedger tables
    → IsLedger (delete_held digest token tables)
unfolding delete_held
delete_held-IsLedger digest token tables a =
    elim (Option-cases (find login_digest_of digest tables.passwords)) [
      | inl e ↦ rw (delete_held, e) a
      | inr (r, e) ↦ elim (Bool-cases (holds token r)) [
        | inl h ↦
            rw (delete_held, e, h) (All-remove login_digest_of IsRow digest tables.passwords a)
        | inr h ↦ rw (delete_held, e, h) a
      ]
    ]

settled-IsLedger :
    (store : Store) (t : Clock) (instant : ℕ) (claim : PasswordClaim)
    (outcome : Result AuthenticationCandidate AuthorityError) (tables after : Tables)
    (out : Result AuthenticationCandidate AuthorityError)
    → IsLedger tables
    → settled store t instant claim outcome tables ≡ ok (after, out)
    → IsLedger after
unfolding settled
settled-IsLedger store t instant claim (ok candidate) tables after out a h =
    elim (Result-cases (current store instant candidate)) [
      | inr (x, c) ↦ absurd (ground (arith, h, c))
      | inl (state, c) ↦
          let same : delete_held claim.login claim.token tables ≡ after = ground (arith, h, c) in
          subst IsLedger same (delete_held-IsLedger claim.login claim.token tables a)
    ]
settled-IsLedger store t instant claim (err error) tables after out a h =
    let (next, e, k) =
      update_held-ok claim.login claim.token (if is_rejected error then failed t 1 else released)
        tables (change_kept t (is_rejected error)) a in
    let same : next ≡ after = ground (arith, h, e) in subst IsLedger same k

pub settle_password-IsLedger :
    (store : Store) (t : Clock) (instant : ℕ) (claim : PasswordClaim)
    (outcome : Result AuthenticationCandidate AuthorityError) (tables after : Tables)
    (out : Result AuthenticationCandidate AuthorityError)
    → IsLedger tables
    → settle_password store t instant claim outcome tables ≡ ok (after, out)
    → IsLedger after
unfolding settle_password
settle_password-IsLedger store t instant claim outcome tables after out a h =
    elim (Result-cases (lock_guard store claim.tenant)) [
      | inr (x, l) ↦ absurd (ground (arith, h, l))
      | inl (u, l) ↦
          elim (Bool-cases
            (owned (t 0) claim.token (find login_digest_of claim.login tables.passwords))) [
              | inl o ↦
                  settled-IsLedger store t instant claim outcome tables after out a
                    (ground (arith, h, l, o))
              | inr o ↦ let same : tables ≡ after = ground (arith, h, l, o) in subst IsLedger same a
            ]
    ]

-- The failure of a check is always settled: in a tenant with its guard row the transaction commits,
-- so that no CHECK of the table refuses the new count, and the rows are again within the constraints.
pub settle_password_err :
    (store : Store) (t : Clock) (instant : ℕ) (claim : PasswordClaim) (error : AuthorityError)
    (tables : Tables)
    → store.guarded claim.tenant ≡ true
    → IsLedger tables
    → (after : Tables) × (out : Result AuthenticationCandidate AuthorityError) × (settle_password
          store t instant claim
          (err error)
          tables
        ≡ ok (after, out))
      × IsLedger after
unfolding settle_password lock_guard
settle_password_err store t instant claim error tables guarded a =
    elim (Bool-cases
      (owned (t 0) claim.token (find login_digest_of claim.login tables.passwords))) [
        | inr o ↦ (tables, err rejected, ground (arith, guarded, o), a)
        | inl o ↦
            let (next, e, k) =
              update_held-ok claim.login claim.token
                (if is_rejected error then failed t 1 else released) tables
                (change_kept t (is_rejected error)) a in
            (next, err error, ground (arith, guarded, o, e), k)
      ]

pub clear-IsLedger :
    (digests : List Text) (tables : Tables) → IsLedger tables → IsLedger (clear digests tables)
unfolding clear
clear-IsLedger [] tables a = a
clear-IsLedger (digest ∷ digests) tables a =
    clear-IsLedger digests _ (All-remove login_digest_of IsRow digest tables.passwords a)
