-- ===== src/Common/Text/Ascii.antt =====
-- What lowering the ASCII letters of a text leaves as it was.
use mathlib.Core.Bool.{true, Bool, ◌&&◌}
use Prim.Native.Nat.{◌<◌, ℕ}
use mathlib.Core.List.{reverse, reverse-cons, map-append, List, [], ◌∷◌, ◌++◌, map}
use mathlib.Core.Path.{◌≡◌, refl}
use native.Mathlib.Omega.{arith}
use rss_identity.Common.Tests.{ltb}
use rss_identity.Common.Lists.{All, length, any, all, length-append}
use rss_identity.Common.Text.{
  Text, bytes, len, char_bytes, to_ascii_lower, is_control, is_whitespace, trim, trim_start,
}

map-reverse {ℓ κ} :
    {A : Type ℓ} {B : Type κ} (f : A → B) (xs : List A) → map f (reverse xs) ≡ reverse (map f xs)
map-reverse f [] = refl
map-reverse f (x ∷ xs) =
    rw (reverse-cons x xs, map-append, map-reverse f xs, reverse-cons (f x) (map f xs))

any-map {ℓ κ} :
    {A : Type ℓ} {B : Type κ} (p : B → Bool) (q : A → Bool) (f : A → B)
    → ((a : A) → p (f a) ≡ q a)
    → (xs : List A) → any p (map f xs) ≡ any q xs
any-map p q f h [] = refl
any-map p q f h (x ∷ xs) = rw (h x, any-map p q f h xs)

is_whitespace-lower : (c : ℕ) → is_whitespace (to_ascii_lower c) ≡ is_whitespace c
unfolding is_whitespace
is_whitespace-lower c = ground arith

is_control-lower : (c : ℕ) → is_control (to_ascii_lower c) ≡ is_control c
unfolding is_control
is_control-lower c = ground arith

trim_start-map_lower :
    (s : Text) → trim_start (map to_ascii_lower s) ≡ map to_ascii_lower (trim_start s)
unfolding trim_start
trim_start-map_lower [] = refl
trim_start-map_lower (c ∷ s) = rw (is_whitespace-lower c) (ground (arith, trim_start-map_lower s))

-- Trimming and lowering commute.
pub trim-map_lower : (s : Text) → trim (map to_ascii_lower s) ≡ map to_ascii_lower (trim s)
unfolding trim
trim-map_lower s = simp (trim_start-map_lower, ← map-reverse)

pub is_control-map_lower : (s : Text) → any is_control (map to_ascii_lower s) ≡ any is_control s
is_control-map_lower = any-map is_control is_control to_ascii_lower is_control-lower

char_bytes-lower : (c : ℕ) → length (char_bytes (to_ascii_lower c)) ≡ length (char_bytes c)
unfolding char_bytes
char_bytes-lower c = ground arith

pub len-map_lower : (s : Text) → len (map to_ascii_lower s) ≡ len s
unfolding bytes
len-map_lower [] = refl
len-map_lower (c ∷ s) = omega (
  arith,
  length-append (char_bytes (to_ascii_lower c)) (bytes (map to_ascii_lower s)),
  length-append (char_bytes c) (bytes s),
  char_bytes-lower c,
  len-map_lower s,
)

all-append {ℓ} :
    {A : Type ℓ} (p : A → Bool) (xs ys : List A) → all p (xs ++ ys) ≡ (all p xs && all p ys)
all-append p [] ys = refl
all-append p (x ∷ xs) ys = rw (all-append p xs ys) (ground arith)

ascii_bytes-lower :
    (c : ℕ)
    → all (λ b. ltb b 128) (char_bytes (to_ascii_lower c)) ≡ all (λ b. ltb b 128) (char_bytes c)
unfolding char_bytes
ascii_bytes-lower c = ground arith

pub is_ascii-map_lower :
    (s : Text)
    → all (λ b. ltb b 128) (bytes (map to_ascii_lower s)) ≡ all (λ b. ltb b 128) (bytes s)
unfolding bytes
is_ascii-map_lower [] = refl
is_ascii-map_lower (c ∷ s) = rw (all-append, all-append, ascii_bytes-lower c, is_ascii-map_lower s)

lower-lower : (c : ℕ) → to_ascii_lower (to_ascii_lower c) ≡ to_ascii_lower c
lower-lower c = ground arith

pub map_lower-map_lower :
    (s : Text) → map to_ascii_lower (map to_ascii_lower s) ≡ map to_ascii_lower s
map_lower-map_lower [] = refl
map_lower-map_lower (c ∷ s) = cc (lower-lower c, map_lower-map_lower s)

-- An ASCII text is its own encoding.
pub bytes_ascii : (s : Text) → All (λ c. c < 128) s → bytes s ≡ s
unfolding bytes
bytes_ascii [] h = refl
bytes_ascii (c ∷ s) (h, hs) = ground (arith, bytes_ascii s hs)

-- Bytes that all pass do so after the first character.
pub all-bytes_tail :
    (p : ℕ → Bool) (c : ℕ) (s : Text) → all p (bytes (c ∷ s)) ≡ true → all p (bytes s) ≡ true
unfolding bytes
all-bytes_tail p c s h = ground (arith, h, all-append p (char_bytes c) (bytes s))
