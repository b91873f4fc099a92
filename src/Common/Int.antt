-- ===== src/Common/Int.antt =====
-- Rust's `i64`: a signed integer, with the operations that refuse or clip what does not fit.
use Prim.Native.Nat.{ℕ, suc, ◌+◌, ◌-◌, ◌^◌, ◌≤◌, ◌<◌}
use mathlib.Core.Path.{◌≡◌}
use mathlib.Core.Logic.{◌↔◌}
use mathlib.Core.Bool.{Bool, true, ◌&&◌}
use mathlib.Core.Option.{Option, none, some}
use native.Mathlib.Omega.{arith}
use rss_identity.Common.Tests.{ltb, leb, ◌==◌, if◌then◌else◌}

-- `negsuc n` is -(n + 1).
pub data ℤ : Type 0 where
  pos : ℕ → ℤ
  negsuc : ℕ → ℤ

abbrev pub pos_part : ℤ → ℕ
pos_part (pos n) = n
pos_part (negsuc n) = 0

abbrev pub neg_part : ℤ → ℕ
neg_part (pos n) = 0
neg_part (negsuc n) = suc n

abbrev pub sub_ℕ : ℕ → ℕ → ℤ
sub_ℕ a b = if leb b a then pos (a - b) else negsuc (b - a - 1)

infixl 65 ◌+ℤ◌ ◌-ℤ◌
infix 50 ◌≤ℤ◌ ◌<ℤ◌ ◌==ℤ◌
unfoldable pub ◌+ℤ◌ : ℤ → ℤ → ℤ
a +ℤ b = sub_ℕ (pos_part a + pos_part b) (neg_part a + neg_part b)

unfoldable pub ◌-ℤ◌ : ℤ → ℤ → ℤ
a -ℤ b = sub_ℕ (pos_part a + neg_part b) (neg_part a + pos_part b)

abbrev pub ◌≤ℤ◌ : ℤ → ℤ → Type 0
a ≤ℤ b = pos_part a + neg_part b ≤ pos_part b + neg_part a

abbrev pub ◌<ℤ◌ : ℤ → ℤ → Type 0
a <ℤ b = pos_part a + neg_part b < pos_part b + neg_part a

abbrev pub ltb_ℤ : ℤ → ℤ → Bool
ltb_ℤ a b = ltb (pos_part a + neg_part b) (pos_part b + neg_part a)

abbrev pub leb_ℤ : ℤ → ℤ → Bool
leb_ℤ a b = leb (pos_part a + neg_part b) (pos_part b + neg_part a)

abbrev pub ◌==ℤ◌ : ℤ → ℤ → Bool
a ==ℤ b = (pos_part a + neg_part b) == (pos_part b + neg_part a)

pub +ℤ_parts :
    (a b : ℤ)
    → pos_part (a +ℤ b) + neg_part a + neg_part b ≡ neg_part (a +ℤ b) + pos_part a + pos_part b
unfolding ◌+ℤ◌
+ℤ_parts a b = ground arith

pub -ℤ_parts :
    (a b : ℤ)
    → pos_part (a -ℤ b) + neg_part a + pos_part b ≡ neg_part (a -ℤ b) + pos_part a + neg_part b
unfolding ◌-ℤ◌
-ℤ_parts a b = ground arith

pub eq_of_parts : (a b : ℤ) → pos_part a + neg_part b ≡ pos_part b + neg_part a → a ≡ b
eq_of_parts a b h = ground arith

pub ==ℤ_iff : (a b : ℤ) → ((a ==ℤ b) ≡ true) ↔ (a ≡ b)
==ℤ_iff a b = ground arith

pub ≤ℤ_antisymm : (a b : ℤ) → a ≤ℤ b → b ≤ℤ a → a ≡ b
≤ℤ_antisymm a b h k = eq_of_parts a b (omega arith)

-- The range of `i64`.
abbrev pub i64_max : ℤ
i64_max = pos (2 ^ 63 - 1)

abbrev pub i64_min : ℤ
i64_min = negsuc (2 ^ 63 - 1)

abbrev pub IsI64 : ℤ → Type 0
IsI64 a = (pos_part a < 2 ^ 63) × (neg_part a ≤ 2 ^ 63)

abbrev pub in_i64 : ℤ → Bool
in_i64 a = ltb (pos_part a) (2 ^ 63) && leb (neg_part a) (2 ^ 63)

-- `i64::checked_add` and `i64::checked_sub`: `none` on overflow.
unfoldable pub checked_add : ℤ → ℤ → Option ℤ
checked_add a b = if in_i64 (a +ℤ b) then some (a +ℤ b) else none

unfoldable pub checked_sub : ℤ → ℤ → Option ℤ
checked_sub a b = if in_i64 (a -ℤ b) then some (a -ℤ b) else none

-- `i64::saturating_add` and `i64::saturating_sub`: the nearest bound on overflow.
abbrev pub clip : ℤ → ℤ
clip a =
    if ltb (pos_part a) (2 ^ 63)
    then (if leb (neg_part a) (2 ^ 63) then a else i64_min)
    else i64_max

unfoldable pub saturating_add : ℤ → ℤ → ℤ
saturating_add a b = clip (a +ℤ b)

unfoldable pub saturating_sub : ℤ → ℤ → ℤ
saturating_sub a b = clip (a -ℤ b)

-- `i64::min` and `i64::max`
abbrev pub min_ℤ : ℤ → ℤ → ℤ
min_ℤ a b = if leb_ℤ a b then a else b

abbrev pub max_ℤ : ℤ → ℤ → ℤ
max_ℤ a b = if leb_ℤ a b then b else a

-- What a checked operation returns is the exact result, and it fits; it fails only on overflow.
pub checked_add-some : (a b c : ℤ) → checked_add a b ≡ some c → (c ≡ a +ℤ b) × IsI64 c
unfolding checked_add
checked_add-some a b c h = ground arith

pub checked_add-of_fits : (a b : ℤ) → IsI64 (a +ℤ b) → checked_add a b ≡ some (a +ℤ b)
unfolding checked_add
checked_add-of_fits a b h = ground arith

pub checked_add-none : (a b : ℤ) → checked_add a b ≡ none → ¬ IsI64 (a +ℤ b)
unfolding checked_add
checked_add-none a b h f = ground arith

pub checked_sub-some : (a b c : ℤ) → checked_sub a b ≡ some c → (c ≡ a -ℤ b) × IsI64 c
unfolding checked_sub
checked_sub-some a b c h = ground arith

pub checked_sub-of_fits : (a b : ℤ) → IsI64 (a -ℤ b) → checked_sub a b ≡ some (a -ℤ b)
unfolding checked_sub
checked_sub-of_fits a b h = ground arith

-- a + 1 is above a.
pub lt-add_one : (a : ℤ) → a <ℤ a +ℤ pos 1
lt-add_one a = omega (arith, +ℤ_parts a (pos 1))

pub fits_between : (a b : ℤ) → pos 0 ≤ℤ a → a ≤ℤ b → IsI64 b → IsI64 a
fits_between a b h k f = ground arith

pub add_sub_cancel : (a b : ℤ) → a +ℤ b -ℤ a ≡ b
add_sub_cancel a b = eq_of_parts (a +ℤ b -ℤ a) b (omega (arith, +ℤ_parts a b, -ℤ_parts (a +ℤ b) a))
