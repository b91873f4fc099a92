-- ===== src/Attempts/Table.antt =====
-- A tenant's rows of one table, by their primary key, as the statements of
-- crates/identity-postgres/src/attempts.rs and password_attempts.rs read and change them.
use rss_identity.Common.{
  ◌+◌, ◌≤◌, ◌≡◌, refl, ap, subst, ◌∙◌, inl, inr, true, false, Option, none, some, List, [], ◌∷◌,
  arith, if◌then◌else◌, Bool-cases, is_none, length, All,
}
use rss_identity.Common.Text.{Text, text_eq, text_eq_iff, text_eq_refl}

module _ {A : Type 0} (key : A → Text) where
  -- The row with a key, if any
  unfoldable pub find : Text → List A → Option A
  find k [] = none
  find k (x ∷ xs) = elim (text_eq (key x) k) [ true ↦ some x | false ↦ find k xs ]

  -- The row takes the place of the one with its key, or is added.
  unfoldable pub put : A → List A → List A
  put x [] = x ∷ []
  put x (y ∷ ys) = elim (text_eq (key y) (key x)) [ true ↦ x ∷ ys | false ↦ y ∷ put x ys ]

  -- The row with a key is deleted.
  unfoldable pub remove : Text → List A → List A
  remove k [] = []
  remove k (x ∷ xs) = elim (text_eq (key x) k) [ true ↦ remove k xs | false ↦ x ∷ remove k xs ]

  key_is : (x : A) (k : Text) → text_eq (key x) k ≡ true → key x ≡ k
  key_is x k h = (text_eq_iff (key x) k).0 h

  -- A row is stored under its key.
  pub key-find : (k : Text) (xs : List A) (x : A) → find k xs ≡ some x → key x ≡ k
  unfolding find
  key-find k [] x h = absurd (ground (arith, h))
  key-find k (y ∷ ys) x h = elim (Bool-cases (text_eq (key y) k)) [
    | inl e ↦ let same : y ≡ x = ground (arith, e, h) in subst (λ z. key z ≡ k) same (key_is y k e)
    | inr e ↦ key-find k ys x (ground (arith, e, h))
  ]

  pub find-put : (x : A) (xs : List A) → find (key x) (put x xs) ≡ some x
  unfolding find put
  find-put x [] = ground (arith, text_eq_refl (key x))
  find-put x (y ∷ ys) = ground (arith, text_eq_refl (key x), find-put x ys)

  pub find-put_other :
      (x : A) (xs : List A) (k : Text) → text_eq (key x) k ≡ false → find k (put x xs) ≡ find k xs
  unfolding find put
  find-put_other x [] k h = ground (arith, h)
  find-put_other x (y ∷ ys) k h = elim (Bool-cases (text_eq (key y) (key x))) [
    | inl e ↦
        let same : text_eq (key y) k ≡ text_eq (key x) k =
          ap (λ t. text_eq t k) (key_is y (key x) e) in
        ground (arith, h, e, same)
    | inr e ↦ ground (arith, h, e, find-put_other x ys k h)
  ]

  pub length-put :
      (x : A) (xs : List A)
      → length (put x xs) ≤ length xs + (if is_none (find (key x) xs) then 1 else 0)
  unfolding find put
  length-put x [] = ground arith
  length-put x (y ∷ ys) = ground (arith, length-put x ys)

  pub length-remove : (k : Text) (xs : List A) → length (remove k xs) ≤ length xs
  unfolding remove
  length-remove k [] = omega arith
  length-remove k (x ∷ xs) = ground (arith, length-remove k xs)

  pub find-remove : (k : Text) (xs : List A) → find k (remove k xs) ≡ none
  unfolding find remove
  find-remove k [] = refl
  find-remove k (x ∷ xs) = ground (arith, find-remove k xs)

  module _ (P : A → Type 0) where
    pub All-find : (k : Text) (xs : List A) (x : A) → All P xs → find k xs ≡ some x → P x
    unfolding find
    All-find k [] x a h = absurd (ground (arith, h))
    All-find k (y ∷ ys) x (p, a) h = elim (Bool-cases (text_eq (key y) k)) [
      | inl e ↦ let same : y ≡ x = ground (arith, e, h) in subst P same p
      | inr e ↦ All-find k ys x a (ground (arith, e, h))
    ]

    pub All-put : (x : A) (xs : List A) → P x → All P xs → All P (put x xs)
    unfolding put
    All-put x [] p a = (p, tt)
    All-put x (y ∷ ys) p (q, a) = elim (Bool-cases (text_eq (key y) (key x))) [
      | inl e ↦ rw (All, e) (p, a)
      | inr e ↦ rw (All, e) (q, All-put x ys p a)
    ]

    pub All-remove : (k : Text) (xs : List A) → All P xs → All P (remove k xs)
    unfolding remove
    All-remove k [] a = tt
    All-remove k (x ∷ xs) (p, a) = elim (Bool-cases (text_eq (key x) k)) [
      | inl e ↦ rw (All, e) (All-remove k xs a)
      | inr e ↦ rw (All, e) (p, All-remove k xs a)
    ]

  -- No two rows have the same key.
  unfoldable pub Unique : List A → Type 0
  Unique [] = Unit {0}
  Unique (x ∷ xs) = (find (key x) xs ≡ none) × Unique xs

  module _ (P : A → Type 0) (k : Text) (other : (y : A) → text_eq (key y) k ≡ false → P y) where
    absent-All : (xs : List A) → find k xs ≡ none → All P xs
    unfolding find
    absent-All [] h = tt
    absent-All (y ∷ ys) h = elim (Bool-cases (text_eq (key y) k)) [
      | inl e ↦ absurd (ground (arith, e, h))
      | inr e ↦ (other y e, absent-All ys (ground (arith, e, h)))
    ]

    -- What every row under another key satisfies, all rows do once the row of the key does.
    pub All-put_own : (x : A) (xs : List A) → key x ≡ k → P x → Unique xs → All P (put x xs)
    unfolding put Unique
    All-put_own x [] same p u = (p, tt)
    All-put_own x (y ∷ ys) same p (new, u) = elim (Bool-cases (text_eq (key y) (key x))) [
      | inl e ↦
          rw (All, e)
            (p, absent-All ys (subst (λ t. find t ys ≡ none) (key_is y (key x) e ∙ same) new))
      | inr e ↦
          rw (All, e)
            (other y (subst (λ t. text_eq (key y) t ≡ false) same e), All-put_own x ys same p u)
    ]
