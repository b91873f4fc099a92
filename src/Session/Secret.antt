-- ===== src/Session/Secret.antt =====
-- crates/identity-core/src/session.rs: session secrets and what is derived from them.
pub mod Hex
use rss_identity.Common.{
  ℕ, ◌+◌, ◌-◌, ◌/◌, ◌%◌, Bool, not, ◌&&◌, ◌||◌, Option, none, some, List, [], ◌∷◌, ◌++◌, ltb, leb,
  ◌==◌, if◌then◌else◌, all,
}
use rss_identity.Common.Text.{Text, codes, bytes, len, is_ascii_digit}

pub data CredentialKind : Type 0 where
  cookie bearer : CredentialKind

pub kind_name : CredentialKind → Text
kind_name cookie = codes "cookie"
kind_name bearer = codes "bearer"

-- The lower-case digit of a half byte, `DIGITS[n]`.
unfoldable pub hex_digit : ℕ → ℕ
hex_digit n = if ltb n 10 then b'0' + n else b'a' + (n - 10)

unfoldable pub hex : List ℕ → Text
unfolding hex_digit
hex [] = []
hex (b ∷ bs) = hex_digit (b / 16) ∷ hex_digit (b % 16) ∷ hex bs

abbrev pub is_hex_byte : ℕ → Bool
is_hex_byte b = is_ascii_digit b || (leb b'a' b && leb b b'f')

-- `none` is the `SessionError` of these operations.
unfoldable pub parse : Text → Option Text
parse value =
    if not (len value == 64) || not (all is_hex_byte (bytes value)) then none else some value

-- What the operating system's generator fills the buffer with, if it does.
unfoldable pub generate : Option (List ℕ) → Option Text
unfolding hex
generate none = none
generate (some random) = some (hex random)

unfoldable pub bearer_parse : Text → Option Text
unfolding parse
bearer_parse value = parse value

-- SHA-256 of the sha2 crate, and the equality of the subtle crate.
module _ (sha256 : List ℕ → List ℕ) (ct_eq : List ℕ → List ℕ → Bool) where
  unfoldable pub digest : Text → List ℕ
  digest secret = sha256 (bytes secret)

  unfoldable pub csrf : Text → Text
  unfolding hex
  csrf secret = hex (sha256 (codes "rss-identity.session.csrf.v1" ++ 0 ∷ bytes secret))

  unfoldable pub check_csrf : Text → Text → Bool
  unfolding csrf
  check_csrf secret presented = ct_eq (bytes (csrf secret)) (bytes presented)
