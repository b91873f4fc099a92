-- ===== src/Session/Secret/Hex.antt =====
-- The hexadecimal form of a secret.
use mathlib.Core.Path.{ap₂}
use rss_identity.Common.{
  ℕ, ◌*◌, ◌/◌, ◌%◌, ◌<◌, ◌≡◌, refl, true, some, List, [], ◌∷◌, arith, length, all, All,
}
use rss_identity.Common.Text.{Text}
use rss_identity.Common.Text.Ascii.{bytes_ascii}
use rss_identity.Session.Secret.{hex_digit, hex, is_hex_byte, parse, generate}

abbrev pub AreBytes : List ℕ → Type 0
AreBytes = All (λ b. b < 256)

hex_digit-is_hex : (n : ℕ) → n < 16 → is_hex_byte (hex_digit n) ≡ true
unfolding hex_digit
hex_digit-is_hex n h = ground arith

hex_digit-injective : (m n : ℕ) → m < 16 → n < 16 → hex_digit m ≡ hex_digit n → m ≡ n
unfolding hex_digit
hex_digit-injective m n h k e = ground arith

hex_digit-lt : (n : ℕ) → n < 16 → hex_digit n < 128
unfolding hex_digit
hex_digit-lt n h = ground arith

length-hex : (bs : List ℕ) → length (hex bs) ≡ length bs * 2
unfolding hex
length-hex [] = omega arith
length-hex (b ∷ bs) = omega (arith, length-hex bs)

all-hex : (bs : List ℕ) → AreBytes bs → all is_hex_byte (hex bs) ≡ true
unfolding hex
all-hex [] h = refl
all-hex (b ∷ bs) (h, hs) =
    rw (hex_digit-is_hex (b / 16) (omega arith), hex_digit-is_hex (b % 16) (omega arith))
      (all-hex bs hs)

ascii-hex : (bs : List ℕ) → AreBytes bs → All (λ c. c < 128) (hex bs)
unfolding hex
ascii-hex [] h = tt
ascii-hex (b ∷ bs) (h, hs) =
    (hex_digit-lt (b / 16) (omega arith), (hex_digit-lt (b % 16) (omega arith), ascii-hex bs hs))

-- A secret that was generated is one that parses, so an issued credential is never refused for
-- its form.
pub parse-generate :
    (random : List ℕ)
    → AreBytes random
    → length random ≡ 32
    → (secret : Text) × (generate (some random) ≡ some secret) × (parse secret ≡ some secret)
unfolding generate parse
parse-generate random h l = (
  hex random,
  refl,
  rw (bytes_ascii (hex random) (ascii-hex random h), all-hex random h)
      (ground (arith, length-hex random)),
)

byte_of_digits :
    (x y : ℕ)
    → x < 256
    → y < 256
    → hex_digit (x / 16) ≡ hex_digit (y / 16)
    → hex_digit (x % 16) ≡ hex_digit (y % 16)
    → x ≡ y
byte_of_digits x y h k e f = omega (
  arith,
  hex_digit-injective (x / 16) (y / 16) (omega arith) (omega arith) e,
  hex_digit-injective (x % 16) (y % 16) (omega arith) (omega arith) f,
)

-- Different random bytes give different secrets.
pub hex-injective : (xs ys : List ℕ) → AreBytes xs → AreBytes ys → hex xs ≡ hex ys → xs ≡ ys
unfolding hex
hex-injective [] [] h k e = refl
hex-injective [] (y ∷ ys) h k e = cc
hex-injective (x ∷ xs) [] h k e = cc
hex-injective (x ∷ xs) (y ∷ ys) (h, hs) (k, ks) e =
    ap₂ ◌∷◌ (byte_of_digits x y h k (cc) (cc)) (hex-injective xs ys hs ks (cc))
