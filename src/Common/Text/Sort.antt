-- ===== src/Common/Text/Sort.antt =====
-- `sort` and `dedup` of a vector of strings, and the sets that they stand for. Equal strings cannot be
-- told apart, so every sorting algorithm gives the list of this one.
use rss_identity.Common.{
  ◌≤◌, suc, length, all, ℕ, ◌≡◌, refl, sym, ap, subst, ◌∙◌, inl, inr, Bool, true, false, not, ◌&&◌,
  ◌||◌, List, [], ◌∷◌, arith, if◌then◌else◌, Bool-cases,
}
use mathlib.Core.Path.{ap₂}
use rss_identity.Common.Text.{Text, text_eq, contains_text, text_eq_iff, text_eq_refl}
use rss_identity.Common.Text.Order.{
  str_lt, str_lt_irrefl, str_lt_trans, str_lt_asymm, str_lt_connected,
}

text_eq_comm : (s t : List ℕ) → text_eq s t ≡ text_eq t s
text_eq_comm [] [] = refl
text_eq_comm [] (y ∷ t) = refl
text_eq_comm (x ∷ s) [] = refl
text_eq_comm (x ∷ s) (y ∷ t) = ground (arith, text_eq_comm s t)

insert_text : Text → List Text → List Text
insert_text x [] = x ∷ []
insert_text x (y ∷ ys) = if str_lt y x then y ∷ insert_text x ys else x ∷ y ∷ ys

unfoldable pub sort : List Text → List Text
unfolding insert_text
sort [] = []
sort (x ∷ xs) = insert_text x (sort xs)

dedup_after : Text → List Text → List Text
dedup_after p [] = []
dedup_after p (y ∷ ys) =
    let kept = y ∷ dedup_after y ys in
    let dropped = dedup_after p ys in if text_eq y p then dropped else kept

unfoldable pub dedup : List Text → List Text
unfolding dedup_after
dedup [] = []
dedup (x ∷ xs) = x ∷ dedup_after x xs

-- `windows(2).all(|v| v[0] < v[1])`
unfoldable pub strictly_sorted : List Text → Bool
strictly_sorted [] = true
strictly_sorted (x ∷ []) = true
strictly_sorted (x ∷ y ∷ ys) = str_lt x y && strictly_sorted (y ∷ ys)

-- Sorted with repetitions.
below : Text → List Text → Bool
below x [] = true
below x (y ∷ ys) = not (str_lt y x)

ordered : List Text → Bool
ordered [] = true
ordered (x ∷ xs) = below x xs && ordered xs

below-insert :
    (z x : Text) (ys : List Text)
    → below z ys ≡ true
    → str_lt x z ≡ false
    → below z (insert_text x ys) ≡ true
unfolding below insert_text
below-insert z x [] h k = ground (arith, k)
below-insert z x (y ∷ ys) h k = ground (arith, k)

ordered-insert : (x : Text) (ys : List Text) → ordered ys ≡ true → ordered (insert_text x ys) ≡ true
unfolding ordered below insert_text
ordered-insert x [] h = refl
ordered-insert x (y ∷ ys) h = elim (Bool-cases (str_lt y x)) [
  | inl lt ↦ ground (arith, lt, ordered-insert x ys, below-insert y x ys, str_lt_asymm y x lt)
  | inr ge ↦ ground (arith, ge)
]

ordered-sort : (xs : List Text) → ordered (sort xs) ≡ true
unfolding sort ordered
ordered-sort [] = refl
ordered-sort (x ∷ xs) = ordered-insert x (sort xs) (ordered-sort xs)

strict-dedup_after :
    (p : Text) (ys : List Text)
    → ordered (p ∷ ys) ≡ true
    → strictly_sorted (p ∷ dedup_after p ys) ≡ true
unfolding strictly_sorted ordered below dedup_after
strict-dedup_after p [] h = refl
strict-dedup_after p (y ∷ ys) h = elim (Bool-cases (text_eq y p)) [
  | inl e ↦
      let tail : ordered (y ∷ ys) ≡ true = ground arith in
      rw e (
        strict-dedup_after p ys
          (subst (λ (t : Text). ordered (t ∷ ys) ≡ true) ((text_eq_iff y p).0 e) tail))
  | inr e ↦ rw e (ground (arith, strict-dedup_after y ys, str_lt_connected p y, text_eq_comm p y))
]

strict-dedup : (xs : List Text) → ordered xs ≡ true → strictly_sorted (dedup xs) ≡ true
unfolding dedup strictly_sorted
strict-dedup [] h = refl
strict-dedup (x ∷ xs) h = strict-dedup_after x xs h

pub strictly_sorted-dedup-sort : (xs : List Text) → strictly_sorted (dedup (sort xs)) ≡ true
strictly_sorted-dedup-sort xs = strict-dedup (sort xs) (ordered-sort xs)

contains_text-insert :
    (x s : Text) (ys : List Text)
    → contains_text (insert_text x ys) s ≡ (text_eq x s || contains_text ys s)
unfolding insert_text
contains_text-insert x s [] = refl
contains_text-insert x s (y ∷ ys) = ground (arith, contains_text-insert x s ys)

contains_text-sort : (s : Text) (xs : List Text) → contains_text (sort xs) s ≡ contains_text xs s
unfolding sort
contains_text-sort s [] = refl
contains_text-sort s (x ∷ xs) = rw (contains_text-insert x s (sort xs), contains_text-sort s xs)

contains_text-dedup_after :
    (s p : Text) (ys : List Text)
    → contains_text (p ∷ dedup_after p ys) s ≡ contains_text (p ∷ ys) s
unfolding dedup_after
contains_text-dedup_after s p [] = refl
contains_text-dedup_after s p (y ∷ ys) = elim (Bool-cases (text_eq y p)) [
  | inl e ↦ rw e (
      contains_text-dedup_after s p ys
      ∙ subst
          (λ (t : Text).
            (text_eq p s || contains_text ys s)
            ≡ (text_eq p s || (text_eq t s || contains_text ys s)))
          (sym ((text_eq_iff y p).0 e)) (ground arith))
  | inr e ↦ rw e (ap (λ (b : Bool). text_eq p s || b) (contains_text-dedup_after s y ys))
]

contains_text-dedup : (s : Text) (xs : List Text) → contains_text (dedup xs) s ≡ contains_text xs s
unfolding dedup
contains_text-dedup s [] = refl
contains_text-dedup s (x ∷ xs) = contains_text-dedup_after s x xs

-- Sorting and removing repetitions keeps the set of strings.
pub contains_text-dedup-sort :
    (s : Text) (xs : List Text) → contains_text (dedup (sort xs)) s ≡ contains_text xs s
contains_text-dedup-sort s xs = contains_text-dedup s (sort xs) ∙ contains_text-sort s xs

above_head :
    (y s : Text) (ys : List Text)
    → strictly_sorted (y ∷ ys) ≡ true
    → contains_text ys s ≡ true
    → str_lt y s ≡ true
unfolding strictly_sorted
above_head y s [] h k = cc
above_head y s (z ∷ ys) h k = elim (Bool-cases (text_eq z s)) [
  | inl e ↦ subst (λ (t : Text). str_lt y t ≡ true) ((text_eq_iff z s).0 e) (ground arith)
  | inr e ↦ str_lt_trans y z s (ground arith) (above_head z s ys (ground arith) (ground (arith, e)))
]

strict-tail :
    (x : Text) (xs : List Text) → strictly_sorted (x ∷ xs) ≡ true → strictly_sorted xs ≡ true
unfolding strictly_sorted
strict-tail x [] h = refl
strict-tail x (y ∷ xs) h = ground arith

not_below :
    (x y : Text) (ys : List Text)
    → strictly_sorted (y ∷ ys) ≡ true
    → str_lt x y ≡ true
    → contains_text (y ∷ ys) x ≡ false
not_below x y ys k lt = elim (Bool-cases (text_eq y x)) [
  | inl e ↦ absurd (
      ground (
        arith,
        subst (λ (t : Text). str_lt x t ≡ true) ((text_eq_iff y x).0 e) lt,
        str_lt_irrefl x,
      ))
  | inr e ↦ elim (Bool-cases (contains_text ys x)) [
    | inl c ↦ absurd (ground (arith, above_head y x ys k c, str_lt_asymm x y lt))
    | inr c ↦ ground (arith, e, c)
  ]
]

contains_text-tail :
    (x s : Text) (xs : List Text)
    → strictly_sorted (x ∷ xs) ≡ true
    → contains_text xs s ≡ (contains_text (x ∷ xs) s && not (text_eq x s))
contains_text-tail x s xs h = elim (Bool-cases (text_eq x s)) [
  | inl e ↦ elim (Bool-cases (contains_text xs s)) [
    | inl c ↦ absurd (
        ground (
          arith,
          subst (λ (t : Text). str_lt x t ≡ true) (sym ((text_eq_iff x s).0 e))
              (above_head x s xs h c),
          str_lt_irrefl x,
        ))
    | inr c ↦ ground (arith, e, c)
  ]
  | inr e ↦ ground (arith, e)
]

same_head :
    (x y : Text) (xs ys : List Text)
    → strictly_sorted (x ∷ xs) ≡ true
    → strictly_sorted (y ∷ ys) ≡ true
    → ((s : Text) → contains_text (x ∷ xs) s ≡ contains_text (y ∷ ys) s)
    → text_eq x y ≡ true
same_head x y xs ys h k same = elim (Bool-cases (str_lt x y)) [
  | inl lt ↦ absurd (ground (arith, not_below x y ys k lt, same x, text_eq_refl x))
  | inr ge ↦ elim (Bool-cases (str_lt y x)) [
    | inl gt ↦ absurd (ground (arith, not_below y x xs h gt, same y, text_eq_refl y))
    | inr le ↦ str_lt_connected x y ge le
  ]
]

-- A strictly sorted list is determined by the set of its strings.
pub strictly_sorted-ext :
    (xs ys : List Text)
    → strictly_sorted xs ≡ true
    → strictly_sorted ys ≡ true
    → ((s : Text) → contains_text xs s ≡ contains_text ys s)
    → xs ≡ ys
strictly_sorted-ext [] [] h k same = refl
strictly_sorted-ext [] (y ∷ ys) h k same = absurd (ground (arith, same y, text_eq_refl y))
strictly_sorted-ext (x ∷ xs) [] h k same = absurd (ground (arith, same x, text_eq_refl x))
strictly_sorted-ext (x ∷ xs) (y ∷ ys) h k same =
    let heads : x ≡ y = (text_eq_iff x y).0 (same_head x y xs ys h k same) in
    ap₂ ◌∷◌ heads (
      strictly_sorted-ext xs ys (strict-tail x xs h) (strict-tail y ys k)
        (λ s. same_tail s heads (same s)))
  where
    same_tail :
        (s : Text)
        → x ≡ y
        → contains_text (x ∷ xs) s ≡ contains_text (y ∷ ys) s
        → contains_text xs s ≡ contains_text ys s
    same_tail s e c =
        contains_text-tail x s xs h
        ∙ ap₂ (λ (a b : Bool). a && not b) c (ap (λ (t : Text). text_eq t s) e)
        ∙ sym (contains_text-tail y s ys k)

length-insert : (x : Text) (ys : List Text) → length (insert_text x ys) ≡ suc (length ys)
unfolding insert_text
length-insert x [] = refl
length-insert x (y ∷ ys) = ground (arith, length-insert x ys)

length-sort : (xs : List Text) → length (sort xs) ≡ length xs
unfolding sort
length-sort [] = refl
length-sort (x ∷ xs) = omega (arith, length-insert x (sort xs), length-sort xs)

length-dedup_after : (p : Text) (ys : List Text) → length (dedup_after p ys) ≤ length ys
unfolding dedup_after
length-dedup_after p [] = omega arith
length-dedup_after p (y ∷ ys) = ground (arith, length-dedup_after p ys, length-dedup_after y ys)

length-dedup : (xs : List Text) → length (dedup xs) ≤ length xs
unfolding dedup
length-dedup [] = omega arith
length-dedup (x ∷ xs) = omega (arith, length-dedup_after x xs)

pub length-dedup-sort : (xs : List Text) → length (dedup (sort xs)) ≤ length xs
length-dedup-sort xs = omega (arith, length-dedup (sort xs), length-sort xs)

module _ (p : Text → Bool) where
  all-insert : (x : Text) (ys : List Text) → all p (insert_text x ys) ≡ (p x && all p ys)
  unfolding insert_text
  all-insert x [] = refl
  all-insert x (y ∷ ys) = ground (arith, all-insert x ys)

  all-sort : (xs : List Text) → all p (sort xs) ≡ all p xs
  unfolding sort
  all-sort [] = refl
  all-sort (x ∷ xs) = rw (all-insert x (sort xs), all-sort xs)

  all-dedup_after : (q : Text) (ys : List Text) → all p ys ≡ true → all p (dedup_after q ys) ≡ true
  unfolding dedup_after
  all-dedup_after q [] h = refl
  all-dedup_after q (y ∷ ys) h = ground (arith, all-dedup_after q ys, all-dedup_after y ys)

  all-dedup : (xs : List Text) → all p xs ≡ true → all p (dedup xs) ≡ true
  unfolding dedup
  all-dedup [] h = refl
  all-dedup (x ∷ xs) h = ground (arith, all-dedup_after x xs)

  pub all-dedup-sort : (xs : List Text) → all p xs ≡ true → all p (dedup (sort xs)) ≡ true
  all-dedup-sort xs h = all-dedup (sort xs) (rw (all-sort xs) h)
