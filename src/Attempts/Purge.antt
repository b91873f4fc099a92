-- ===== src/Attempts/Purge.antt =====
-- `DELETE … WHERE … ORDER BY … LIMIT n`: the first rows in the order of those that are due.
use rss_identity.Common.{
  ℕ, zero, suc, ◌+◌, ◌≤◌, ◌≡◌, refl, subst, inl, inr, Bool, true, false, ◌&&◌, Option, none, some,
  List, [], ◌∷◌, arith, if◌then◌else◌, Bool-cases, Option-cases, length,
}
use rss_identity.Common.Text.{Text, text_eq}
use rss_identity.Attempts.Table.{find, Unique}

module _ {A : Type 0} (key : A → Text) (due : A → Bool) (before : A → A → Bool) where
  -- The first row in the order, of those that are due, and the other rows
  unfoldable pub extract : List A → Option (A × List A)
  extract [] = none
  extract (x ∷ xs) = elim (extract xs) [
    | none ↦ if due x then some (x, xs) else none
    | some (y, ys) ↦ if due x && before x y then some (x, xs) else some (y, x ∷ ys)
  ]

  -- The rows that stay, and how many were deleted
  unfoldable pub purge : ℕ → List A → List A × ℕ
  unfolding extract
  purge zero rows = (rows, 0)
  purge (suc n) rows = elim (extract rows) [
    | none ↦ (rows, 0)
    | some (x, rest) ↦ let (kept, removed) = purge n rest in (kept, suc removed)
  ]

  record IsExtract (xs : List A) (y : A) (ys : List A) : Type 0 where
    was_due : due y ≡ true
    shorter : length xs ≡ suc (length ys)
    kept : (k : Text) (x : A) → find key k xs ≡ some x → due x ≡ false → find key k ys ≡ some x
    absent : (k : Text) → find key k xs ≡ none → find key k ys ≡ none

  head-IsExtract : (x : A) (xs : List A) → due x ≡ true → IsExtract (x ∷ xs) x xs
  unfolding find
  head-IsExtract x xs d = record {
    was_due = d;
    shorter = refl;
    kept = λ k z h l. elim (Bool-cases (text_eq (key x) k)) [
      | inl e ↦ let same : x ≡ z = ground (arith, e, h) in absurd (ground (arith, l, d, same))
      | inr e ↦ ground (arith, e, h)
    ];
    absent = λ k h. ground (arith, h);
  }

  tail-IsExtract :
      (x : A) (xs : List A) (y : A) (ys : List A)
      → IsExtract xs y ys
      → IsExtract (x ∷ xs) y (x ∷ ys)
  unfolding find
  tail-IsExtract x xs y ys t = record {
    was_due = t.was_due;
    shorter = omega (arith, t.shorter);
    kept = λ k z h l. elim (Bool-cases (text_eq (key x) k)) [
      | inl e ↦ ground (arith, e, h)
      | inr e ↦ ground (arith, e, t.kept k z (ground (arith, e, h)) l)
    ];
    absent = λ k h. elim (Bool-cases (text_eq (key x) k)) [
      | inl e ↦ absurd (ground (arith, e, h))
      | inr e ↦ ground (arith, e, t.absent k (ground (arith, e, h)))
    ];
  }

  extract-IsExtract :
      (xs : List A) (y : A) (ys : List A) → extract xs ≡ some (y, ys) → IsExtract xs y ys
  unfolding extract
  extract-IsExtract [] y ys h = absurd (ground (arith, h))
  extract-IsExtract (x ∷ xs) y ys h = elim (Option-cases (extract xs)) [
    | inl e ↦
        let parts : (x ≡ y) × (xs ≡ ys) = (ground (arith, e, h), ground (arith, e, h)) in
        subst (IsExtract (x ∷ xs) y) parts.1 (
          subst (λ z. IsExtract (x ∷ xs) z xs) parts.0 (head-IsExtract x xs (ground (arith, e, h))))
    | inr ((z, zs), e) ↦ elim (Bool-cases (due x && before x z)) [
      | inl d ↦
          let parts : (x ≡ y) × (xs ≡ ys) = (ground (arith, e, h, d), ground (arith, e, h, d)) in
          subst (IsExtract (x ∷ xs) y) parts.1
            (subst (λ z. IsExtract (x ∷ xs) z xs) parts.0 (head-IsExtract x xs (ground (arith, d))))
      | inr d ↦
          let parts : (z ≡ y) × (x ∷ zs ≡ ys) =
            (ground (arith, e, h, d), ground (arith, e, h, d)) in
          subst (IsExtract (x ∷ xs) y) parts.1 (
            subst (λ w. IsExtract (x ∷ xs) w (x ∷ zs)) parts.0
              (tail-IsExtract x xs z zs (extract-IsExtract xs z zs e)))
    ]
  ]

  -- Rows that are not due stay, no row appears, and all that are gone are counted.
  pub record IsPurge (n : ℕ) (xs : List A) (r : List A × ℕ) : Type 0 where
    pub few : r.1 ≤ n
    pub counted : length r.0 + r.1 ≡ length xs
    pub kept : (k : Text) (x : A) → find key k xs ≡ some x → due x ≡ false → find key k r.0 ≡ some x
    pub absent : (k : Text) → find key k xs ≡ none → find key k r.0 ≡ none

  none-IsPurge : (n : ℕ) (xs : List A) → IsPurge n xs (xs, 0)
  none-IsPurge n xs = record {
    few = omega arith;
    counted = omega arith;
    kept = λ k x h d. h;
    absent = λ k h. h;
  }

  pub purge-IsPurge : (n : ℕ) (xs : List A) → IsPurge n xs (purge n xs)
  unfolding purge
  purge-IsPurge zero xs = none-IsPurge zero xs
  purge-IsPurge (suc n) xs = elim (Option-cases (extract xs)) [
    | inl e ↦ rw (purge, e) (none-IsPurge (suc n) xs)
    | inr ((y, ys), e) ↦
        let t = extract-IsExtract xs y ys e in
        let p = purge-IsPurge n ys in
        rw (purge, e)
          (record {
            few = omega (arith, p.few);
            counted = omega (arith, p.counted, t.shorter);
            kept = λ k x h d. p.kept k x (t.kept k x h d) d;
            absent = λ k h. p.absent k (t.absent k h);
          })
  ]

  extract-Unique :
      (xs : List A) (y : A) (ys : List A)
      → extract xs ≡ some (y, ys)
      → Unique key xs
      → Unique key ys
  unfolding extract Unique
  extract-Unique [] y ys h u = absurd (ground (arith, h))
  extract-Unique (x ∷ xs) y ys h (new, u) = elim (Option-cases (extract xs)) [
    | inl e ↦ let same : xs ≡ ys = ground (arith, e, h) in subst (Unique key) same u
    | inr ((z, zs), e) ↦ elim (Bool-cases (due x && before x z)) [
      | inl d ↦ let same : xs ≡ ys = ground (arith, e, h, d) in subst (Unique key) same u
      | inr d ↦
          let same : x ∷ zs ≡ ys = ground (arith, e, h, d) in
          subst (Unique key) same
            ((extract-IsExtract xs z zs e).absent (key x) new, extract-Unique xs z zs e u)
    ]
  ]

  pub purge-Unique : (n : ℕ) (xs : List A) → Unique key xs → Unique key (purge n xs).0
  unfolding purge
  purge-Unique zero xs u = u
  purge-Unique (suc n) xs u = elim (Option-cases (extract xs)) [
    | inl e ↦ rw (purge, e) u
    | inr ((y, ys), e) ↦ rw (purge, e) (purge-Unique n ys (extract-Unique xs y ys e u))
  ]
