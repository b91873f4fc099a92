-- ===== src/Federation/State/Examples.antt =====
-- The theorems on states with a small codec: a number in base 256 for each list of bytes.
use rss_identity.Common.{
  ℕ, zero, suc, ◌+◌, ◌-◌, ◌*◌, ◌/◌, ◌%◌, ◌^◌, ◌<◌, ◌≡◌, refl, subst, ◌↔◌, true, ◌&&◌, Option, none,
  some, List, [], ◌∷◌, ◌++◌, arith, ltb, ◌==◌, if◌then◌else◌, length, all, ok,
}
use rss_identity.Common.Text.{Text, codes, bytes, len}
use rss_identity.Common.Ids.{Uuid}
use rss_identity.Federation.State.Wire.{Codec, IsCodec, IsBytes}
use rss_identity.Federation.State.{
  login, StateSigner, StateLocator, message, payload_of, mac, code, issue, verify,
}
use rss_identity.Federation.State.Framing.{message-injective}
use rss_identity.Federation.State.Signed.{verify_iff}

abbrev horner : List ℕ → ℕ
horner [] = 0
horner (b ∷ bs) = b + 256 * horner bs

abbrev digits : ℕ → ℕ → List ℕ
digits zero n = []
digits (suc count) n = (n % 256) ∷ digits count (n / 256)

digits-horner : (bs : List ℕ) → IsBytes bs → digits (length bs) (horner bs) ≡ bs
digits-horner [] h = refl
digits-horner (b ∷ bs) (h, hs) =
    let low : (b + 256 * horner bs) % 256 ≡ b = omega (arith, h) in
    let high : (b + 256 * horner bs) / 256 ≡ horner bs = omega (arith, h) in
    rw (low, high, digits-horner bs hs)

horner-digits : (count n : ℕ) → n < 256 ^ count → horner (digits count n) ≡ n
horner-digits zero n h = omega (arith, h)
horner-digits (suc count) n h =
    let fits : n / 256 < 256 ^ count = omega (arith, h) in
    omega (arith, horner-digits count (n / 256) fits)

horner-lt : (bs : List ℕ) (n : ℕ) → length bs ≡ n → IsBytes bs → horner bs < 256 ^ n
horner-lt [] zero e h = omega arith
horner-lt [] (suc n) e h = cc
horner-lt (b ∷ bs) zero e h = absurd (omega arith)
horner-lt (b ∷ bs) (suc n) e (h, hs) = omega (arith, h, horner-lt bs n (omega arith) hs)

digits-IsBytes : (count n : ℕ) → IsBytes (digits count n)
digits-IsBytes zero n = tt
digits-IsBytes (suc count) n = (omega arith, digits-IsBytes count (n / 256))

length-digits : (count n : ℕ) → length (digits count n) ≡ count
length-digits zero n = refl
length-digits (suc count) n = omega (arith, length-digits count (n / 256))

abbrev pad : ℕ → Text
pad zero = []
pad (suc n) = 0x41 ∷ pad n

length-pad : (n : ℕ) → length (pad n) ≡ n
length-pad zero = refl
length-pad (suc n) = omega (arith, length-pad n)

len-pad : (n : ℕ) → len (pad n) ≡ n
unfolding bytes
len-pad zero = refl
len-pad (suc n) = omega (arith, len-pad n)

-- One large character and one small one for each byte, and 24 more
abbrev encode : List ℕ → Text
encode bs = (0x10000 + horner bs) ∷ pad (length bs + 24)

abbrev decode : Text → Option (List ℕ)
decode [] = none
decode (c ∷ s) = some (digits (length s - 24) (c - 0x10000))

decode-encode : (bs : List ℕ) → IsBytes bs → decode (encode bs) ≡ some bs
decode-encode bs h =
    let count : length (pad (length bs + 24)) - 24 ≡ length bs =
      omega (arith, length-pad (length bs + 24)) in
    let number : 0x10000 + horner bs - 0x10000 ≡ horner bs = omega arith in
    rw (count, number, digits-horner bs h)

encoded_length : (bs : List ℕ) → IsBytes bs → length bs ≡ 82 → len (encode bs) ≡ 110
unfolding bytes
encoded_length bs h sized = ground (arith, len-pad (length bs + 24), sized)

abbrev from_slice : List ℕ → Option Uuid
from_slice bs = if length bs == 16 && all (λ b. ltb b 256) bs then some (horner bs) else none

all-IsBytes : (bs : List ℕ) → all (λ b. ltb b 256) bs ≡ true ↔ IsBytes bs
all-IsBytes [] = ground arith
all-IsBytes (b ∷ bs) = ground (arith, all-IsBytes bs)

slice-of : (u : Uuid) → u < 2 ^ 128 → from_slice (digits 16 u) ≡ some u
slice-of u h = ground (
  arith,
  horner-digits 16 u (omega (arith, h)),
  length-digits 16 u,
  (all-IsBytes (digits 16 u)).1 (digits-IsBytes 16 u),
)

slice-back : (bs : List ℕ) (u : Uuid) → from_slice bs ≡ some u → (digits 16 u ≡ bs) × (u < 2 ^ 128)
slice-back bs u h =
    let sized : length bs ≡ 16 = ground arith in
    let real = (all-IsBytes bs).0 (ground arith) in
    let whole : horner bs ≡ u = ground arith in
    let read = subst (λ x. digits (length bs) x ≡ bs) whole (digits-horner bs real) in
    (
      subst (λ n. digits n u ≡ bs) sized read,
      subst (λ x. x < 2 ^ 128) whole (horner-lt bs 16 sized real),
    )

abbrev tag : List ℕ → List ℕ → List ℕ
tag key m = digits 32 (horner m)

abbrev parse_uuid : Text → Option Uuid
parse_uuid [] = none
parse_uuid (c ∷ s) = if ltb c (2 ^ 128) then some c else none

parsed_fits : (s : Text) (u : Uuid) → parse_uuid s ≡ some u → u < 2 ^ 128
parsed_fits [] u e = cc
parsed_fits (c ∷ s) u e = ground (arith, e)

abbrev codec : Codec
codec = record {
  hmac = tag;
  encode = encode;
  decode = decode;
  uuid_bytes = digits 16;
  uuid_from_slice = from_slice;
  show_uuid = λ u. u ∷ [];
  parse_uuid = parse_uuid;
  show_tenant = λ t. t ∷ [];
  parse_tenant = parse_uuid;
}

codec-IsCodec : IsCodec codec
codec-IsCodec = record {
  tag_length = λ k m. length-digits 32 (horner m);
  tag_bytes = λ k m. digits-IsBytes 32 (horner m);
  decode-encode = decode-encode;
  encoded_length = encoded_length;
  uuid_length = length-digits 16;
  uuid_is_bytes = digits-IsBytes 16;
  slice-of = slice-of;
  slice-back = slice-back;
  parsed_fits = parsed_fits;
  tenant-of = λ t u e. ground (arith, e);
  tenant-back = λ t u h e. ground (arith, h, e);
}

abbrev signer : StateSigner
signer = record { key = digits 32 1; origin = codes "https://id.example" }

abbrev located : StateLocator
located = record { tenant = 0x41; id = digits 32 5; purpose = login }

-- The payload of the flow, and its state
abbrev framed : List ℕ
framed = 1 ∷ 0 ∷ (digits 16 0x41 ++ digits 32 5)

abbrev state : Text
state = encode (framed ++ tag signer.key (message signer.origin framed))

issued : issue codec signer located.tenant located.purpose (some located.id) ≡ ok state
unfolding issue payload_of mac code
issued = refl

verify_iff_example : verify codec signer state ≡ ok located
verify_iff_example =
    (verify_iff codec signer codec-IsCodec state located refl (digits-IsBytes 32 5)).1 issued

short : len signer.origin < 2 ^ 32
unfolding bytes
short = omega arith

message-injective_example : (bytes signer.origin ≡ bytes signer.origin) × (framed ≡ framed)
message-injective_example =
    message-injective signer.origin signer.origin framed framed short short refl
