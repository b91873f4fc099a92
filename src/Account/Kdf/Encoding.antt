-- ===== src/Account/Kdf/Encoding.antt =====
-- crates/identity-core/src/account.rs: the work inside `hash`, `verify` and `dummy`.
use rss_identity.Common.{
  ℕ, ◌≤◌, ◌≡◌, ◌↔◌, inl, inr, Bool, true, false, not, ◌||◌, Option, none, some, arith, ltb, ◌==◌,
  Bool-cases, Option-cases, Result, ok, ◌>>=◌, ◌>>◌, reject_if, ok_or,
}
use rss_identity.Common.Text.{Text, codes, len, text_eq, text_eq_iff}
use rss_identity.Account.Kdf.{PasswordError, unavailable}
use rss_identity.Account.Login.{from_storage}

-- What the code reads of a parsed PHC string.
pub record Phc : Type 0 where
  pub algorithm : Text
  pub version : Option ℕ
  pub params : Text
  pub hash_len : Option ℕ
  pub salt_len : Option ℕ

-- The argon2 crate: parsing a PHC string, hashing with a salt, checking a password against a
-- string. `none` is an error of the crate.
pub record Argon2 : Type 0 where
  pub parse_phc : Text → Option Phc
  pub hash_password : Text → Text → Option Text
  pub verify_password : Text → Text → Bool

-- `Option<usize> != Some(n)`
abbrev is_len : Option ℕ → ℕ → Bool
is_len none n = false
is_len (some m) n = m == n

unfoldable pub off_policy : Text → Phc → Bool
off_policy encoded hash =
    ltb 256 (len encoded)
    || not (text_eq hash.algorithm (codes "argon2id"))
    || not (is_len hash.version 19)
    || not (text_eq hash.params (codes "m=19456,t=2,p=1"))
    || not (is_len hash.hash_len 32)
    || not (is_len hash.salt_len 22)

abbrev pub dummy_encoding : Text
dummy_encoding =
    codes
      "$argon2id$v=19$m=19456,t=2,p=1$c2FsdHNhbHRzYWx0c2FsdA$AAAAAAAAAAAAAAAAAAAAAAAAAAAAAAAAAAAAAAAAAAA"

-- The one Argon2id setting that the deployment accepts.
pub record Pinned (encoded : Text) (hash : Phc) : Type 0 where
  pub bounded : len encoded ≤ 256
  pub algorithm : hash.algorithm ≡ codes "argon2id"
  pub version : hash.version ≡ some 19
  pub params : hash.params ≡ codes "m=19456,t=2,p=1"
  pub hash_len : hash.hash_len ≡ some 32
  pub salt_len : hash.salt_len ≡ some 22

is_len_iff : (o : Option ℕ) (n : ℕ) → is_len o n ≡ true → o ≡ some n
is_len_iff none n h = cc
is_len_iff (some m) n h = ground arith

on_policy-Pinned :
    (encoded : Text) (hash : Phc) → off_policy encoded hash ≡ false → Pinned encoded hash
unfolding off_policy
on_policy-Pinned encoded hash h = record {
  bounded = ground arith;
  algorithm = (text_eq_iff hash.algorithm (codes "argon2id")).0 (ground arith);
  version = is_len_iff hash.version 19 (ground arith);
  params = (text_eq_iff hash.params (codes "m=19456,t=2,p=1")).0 (ground arith);
  hash_len = is_len_iff hash.hash_len 32 (ground arith);
  salt_len = is_len_iff hash.salt_len 22 (ground arith);
}

Pinned-on_policy :
    (encoded : Text) (hash : Phc) → Pinned encoded hash → off_policy encoded hash ≡ false
unfolding off_policy
Pinned-on_policy encoded hash p =
    rw (p.algorithm, p.params, p.version, p.hash_len, p.salt_len) (ground (arith, p.bounded))

module _ (argon : Argon2) where
  unfoldable pub hash_work : Text → Text → Result Text PasswordError
  hash_work salt secret = ok_or (argon.hash_password secret salt) unavailable

  unfoldable pub verify_work : Text → Text → Result Bool PasswordError
  verify_work secret encoded = do
    hash ← ok_or (argon.parse_phc encoded) unavailable
    reject_if (off_policy encoded hash) unavailable
    ok (argon.verify_password secret encoded)

  unfoldable pub dummy_work : Text → Result (Unit {0}) PasswordError
  unfolding verify_work
  dummy_work secret = do
    encoded ← from_storage dummy_encoding
    _ ← verify_work secret encoded
    ok tt

  -- A stored encoding is used for a verdict exactly if it parses and carries the pinned Argon2id
  -- setting, and the verdict is then that of the argon2 crate: a wrong password is no error.
  verify_work-eq-ok_iff :
      (secret encoded : Text) (b : Bool)
      → (verify_work secret encoded ≡ ok b) ↔ (
          (hash : Phc) × (argon.parse_phc encoded ≡ some hash)
          × Pinned encoded hash
          × (argon.verify_password secret encoded ≡ b))
  unfolding verify_work
  verify_work-eq-ok_iff secret encoded b = elim (Option-cases (argon.parse_phc encoded)) [
    | inl e ↦ ((λ h. absurd (ground (arith, e, h))), (λ h. absurd (ground (arith, e, h.1))))
    | inr (p, e) ↦ elim (Bool-cases (off_policy encoded p)) [
      | inl off ↦ (
        (λ h. absurd (ground (arith, e, off, h))),
        (λ h. absurd (ground (arith, e, off, h.1, Pinned-on_policy encoded p))),
      )
      | inr good ↦ (
        (λ h. (p, e, on_policy-Pinned encoded p good, ground (arith, e, good, h))),
        (λ h. ground (arith, e, good, h.1, h.3)),
      )
    ]
  ]
