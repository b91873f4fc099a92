-- ===== src/Attempts/Passwords/Ledger.antt =====
-- The rows of password attempts stay within the constraints of their table, and a claim is never held
-- on a login whose failures are used up.
use rss_identity.Common.{
  ℕ, zero, suc, ◌+◌, ◌≤◌, ◌≡◌, refl, sym, subst, inl, inr, Bool, true, false, ◌&&◌, Option, none,
  some, List, [], ◌∷◌, arith, ltb, Bool-cases, Option-cases, is_none, All, Result, ok,
}
use rss_identity.Common.Text.{Text}
use rss_identity.Common.Ids.{Uuid, TenantId}
use rss_identity.Storage.{AuthorityError, Store}
use rss_identity.Attempts.{
  Clock, Tables, PasswordRow, consume, cleanup, login_digest_of, password_due, password_before,
}
use rss_identity.Attempts.Table.{find, put, All-find, All-put}
use rss_identity.Attempts.Purge.{purge, extract}
use rss_identity.Attempts.Passwords.{
  PasswordClaim, is_storable, write, password_retry, claimed, claim_password,
}
use rss_identity.Attempts.Passwords.Decisions.{claim_password-cases}

pub record IsRow (r : PasswordRow) : Type 0 where
  pub storable : is_storable r ≡ true
  pub claimable : is_none r.claim_token ≡ false → r.failures ≤ 4

abbrev pub IsLedger : Tables → Type 0
IsLedger tables = All IsRow tables.passwords

-- The clock of a transaction does not go back.
abbrev pub Monotone : Clock → Type 0
Monotone t = (i j : ℕ) → i ≤ j → t i ≤ t j

module _ {A : Type 0} (due : A → Bool) (before : A → A → Bool) (key : A → Text)
    (P : A → Type 0) where
  extract-All :
      (xs : List A) (y : A) (ys : List A)
      → extract key due before xs ≡ some (y, ys)
      → All P xs
      → All P ys
  unfolding extract
  extract-All [] y ys h a = absurd (ground (arith, h))
  extract-All (x ∷ xs) y ys h (p, a) = elim (Option-cases (extract key due before xs)) [
    | inl e ↦ let same : xs ≡ ys = ground (arith, e, h) in subst (All P) same a
    | inr ((z, zs), e) ↦ elim (Bool-cases (due x && before x z)) [
      | inl d ↦ let same : xs ≡ ys = ground (arith, e, h, d) in subst (All P) same a
      | inr d ↦
          let same : x ∷ zs ≡ ys = ground (arith, e, h, d) in
          subst (All P) same (p, extract-All xs z zs e a)
    ]
  ]

  pub purge-All : (n : ℕ) (xs : List A) → All P xs → All P (purge key due before n xs).0
  unfolding purge
  purge-All zero xs a = a
  purge-All (suc n) xs a = elim (Option-cases (extract key due before xs)) [
    | inl e ↦ rw (purge, e) a
    | inr ((y, ys), e) ↦ rw (purge, e) (purge-All n ys (extract-All xs y ys e a))
  ]

pub cleanup-IsLedger :
    (t : Clock) (i : ℕ) (tables : Tables) → IsLedger tables → IsLedger (cleanup t i tables)
unfolding cleanup
cleanup-IsLedger t i tables a =
    purge-All (password_due (t (i + 1))) password_before login_digest_of IsRow _ tables.passwords a

-- Only a row that the constraints admit is written.
write-IsLedger :
    (r : PasswordRow) (tables after : Tables)
    → (is_none r.claim_token ≡ false → r.failures ≤ 4)
    → IsLedger tables
    → write r tables ≡ ok after
    → IsLedger after
unfolding write
write-IsLedger r tables after few a h = elim (Bool-cases (is_storable r)) [
  | inr e ↦ absurd (ground (arith, e, h))
  | inl e ↦
      let same : record tables { passwords = put login_digest_of r tables.passwords } ≡ after =
        ground (arith, e, h) in
      subst IsLedger same (
        All-put login_digest_of IsRow r tables.passwords (record { storable = e; claimable = few })
          a)
]

-- A claim that is granted leaves at most four failures.
claimed_failures :
    (t : Clock) (digest : Text) (token : Uuid) (micros : ℕ) (row : Option PasswordRow)
    → Monotone t
    → ((r : PasswordRow) → row ≡ some r → IsRow r)
    → ltb 0 (password_retry t 5 row) ≡ false
    → (claimed t 9 digest token micros row).failures ≤ 4
unfolding claimed password_retry is_storable
claimed_failures t digest token micros none m k h = omega arith
claimed_failures t digest token micros (some r) m k h = elim (Option-cases r.window_until) [
  | inl e ↦ ground (arith, e)
  | inr (until, e) ↦ ground (arith, e, h, (k r refl).storable, m 5 10 (omega arith))
]

pub claim_password-IsLedger :
    (store : Store) (t : Clock) (tenant : TenantId) (digest source : Text) (token : Uuid)
    (timeout : ℕ) (tables after : Tables) (out : Result PasswordClaim AuthorityError)
    → Monotone t
    → IsLedger tables
    → claim_password store t tenant digest source token timeout tables ≡ ok (after, out)
    → IsLedger after
unfolding consume
claim_password-IsLedger store t tenant digest source token timeout tables after out m a h =
    let cleaned = cleanup t 0 tables in
    let a' = cleanup-IsLedger t 0 tables a in
    elim (claim_password-cases store t tenant digest source token timeout tables after out h) [
      | inl (refused, same) ↦ subst IsLedger (sym same) a'
      | inr g ↦
          write-IsLedger _ _ after
            (λ c.
              claimed_failures t digest token _ (find login_digest_of digest cleaned.passwords) m
                (λ r e. All-find login_digest_of IsRow digest cleaned.passwords r a' e) g.unlocked)
            a' g.written
    ]
