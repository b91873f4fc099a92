-- ===== src/Common/Text/Order.antt =====
-- The order of `str`: by bytes, which `std` documents to be the order of the code points.
use rss_identity.Common.{
  ℕ, ◌≡◌, refl, Bool, true, false, ◌&&◌, ◌||◌, List, [], ◌∷◌, arith, ltb, ◌==◌,
}
use rss_identity.Common.Text.{text_eq}

unfoldable pub str_lt : List ℕ → List ℕ → Bool
str_lt [] [] = false
str_lt [] (y ∷ ys) = true
str_lt (x ∷ xs) [] = false
str_lt (x ∷ xs) (y ∷ ys) = ltb x y || (x == y && str_lt xs ys)

pub str_lt_irrefl : (s : List ℕ) → str_lt s s ≡ false
unfolding str_lt
str_lt_irrefl [] = refl
str_lt_irrefl (x ∷ xs) = ground (arith, str_lt_irrefl xs)

pub str_lt_trans : (s t u : List ℕ) → str_lt s t ≡ true → str_lt t u ≡ true → str_lt s u ≡ true
unfolding str_lt
str_lt_trans [] [] u h k = cc
str_lt_trans [] (y ∷ t) [] h k = cc
str_lt_trans [] (y ∷ t) (z ∷ u) h k = refl
str_lt_trans (x ∷ s) [] u h k = cc
str_lt_trans (x ∷ s) (y ∷ t) [] h k = cc
str_lt_trans (x ∷ s) (y ∷ t) (z ∷ u) h k = ground (arith, str_lt_trans s t u)

pub str_lt_asymm : (s t : List ℕ) → str_lt s t ≡ true → str_lt t s ≡ false
str_lt_asymm s t h = ground (arith, str_lt_trans s t s h, str_lt_irrefl s)

-- Two texts that are not in order either way are equal.
pub str_lt_connected : (s t : List ℕ) → str_lt s t ≡ false → str_lt t s ≡ false → text_eq s t ≡ true
unfolding str_lt
str_lt_connected [] [] h k = refl
str_lt_connected [] (y ∷ t) h k = cc
str_lt_connected (x ∷ s) [] h k = cc
str_lt_connected (x ∷ s) (y ∷ t) h k = ground (arith, str_lt_connected s t)
