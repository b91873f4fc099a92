-- ===== src/Federation/State/Slices.antt =====
-- Slices of the bytes of a state.
use rss_identity.Common.{
  ℕ, zero, suc, ◌+◌, ◌≡◌, refl, sym, ap, ◌∙◌, List, [], ◌∷◌, ◌++◌, arith, length, take, drop,
}
use rss_identity.Federation.State.{at, slice}

-- The parts of bytes that start like a state.
pub take-drop : (bs : List ℕ) (n : ℕ) → take n bs ++ drop n bs ≡ bs
take-drop bs zero = refl
take-drop [] (suc n) = refl
take-drop (b ∷ bs) (suc n) = ap (◌∷◌ b) (take-drop bs n)

-- The first n elements of a list without elements are none.
take-nil : (n : ℕ) → ◌≡◌ {A = List ℕ} (take n []) []
take-nil zero = refl
take-nil (suc n) = refl

take-add : (bs : List ℕ) (m n : ℕ) → take (m + n) bs ≡ take m bs ++ take n (drop m bs)
take-add bs zero n = let e : 0 + n ≡ n = omega arith in ap (λ k. take k bs) e
take-add [] (suc m) n = take-nil (suc m + n) ∙ sym (take-nil n)
take-add (b ∷ bs) (suc m) n =
    let e : suc m + n ≡ suc (m + n) = omega arith in
    ap (λ k. take k (b ∷ bs)) e ∙ ap (◌∷◌ b) (take-add bs m n)

pub state_parts :
    (bs : List ℕ)
    → length bs ≡ 82
    → take 50 bs ≡ at bs 0 ∷ at bs 1 ∷ (slice bs 2 16 ++ slice bs 18 32)
state_parts [] h = absurd (omega arith)
state_parts (a ∷ []) h = absurd (omega arith)
state_parts (a ∷ b ∷ bs) h = ap (λ x. a ∷ b ∷ x) (take-add bs 16 32)
