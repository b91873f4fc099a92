-- ===== src/Profile/Budget.antt =====
-- The walk with its running count agrees with a description of the whole value.
use rss_identity.Common.{
  ℕ, ◌+◌, ◌^◌, ◌≤◌, ◌<◌, ◌≡◌, ◌↔◌, inl, inr, Bool, true, false, not, ◌&&◌, Option, none, some,
  arith, ltb, leb, if◌then◌else◌, Bool-cases,
}
use rss_identity.Common.Text.{contains}
use rss_identity.Profile.Json.{
  Value, Items, Members, null, bool, number, string, array, object, nil, cons, end, member,
  count_items, count_members, ProfileLimits, refused_key, refused_number, enter, and_then,
  check_value, check_items, check_entries, check_object,
}

-- All members of all objects below a value.
unfoldable mutual
  pub total_value : Value → ℕ
  total_value (array xs) = total_items xs
  total_value (object o) = count_members o + total_entries o
  total_value null = 0
  total_value (bool b) = 0
  total_value (number n) = 0
  total_value (string s) = 0

  pub total_items : Items → ℕ
  total_items nil = 0
  total_items (cons v vs) = total_value v + total_items vs

  pub total_entries : Members → ℕ
  total_entries end = 0
  total_entries (member k v rest) = total_value v + total_entries rest

-- Depth, array sizes, keys, strings and numbers are within the limits.
unfoldable mutual
  pub fits_value : ProfileLimits → Value → ℕ → Bool
  fits_value limits null depth = true
  fits_value limits (bool b) depth = true
  fits_value limits (number n) depth = not (refused_number n)
  fits_value limits (string s) depth = not (contains s 0)
  fits_value limits (array xs) depth =
      ltb depth limits.depth
      && leb (count_items xs) limits.array
      && fits_items limits xs (depth + 1)
  fits_value limits (object o) depth =
      leb (depth + 1) limits.depth && fits_entries limits o (depth + 1)

  pub fits_items : ProfileLimits → Items → ℕ → Bool
  fits_items limits nil depth = true
  fits_items limits (cons v vs) depth = fits_value limits v depth && fits_items limits vs depth

  pub fits_entries : ProfileLimits → Members → ℕ → Bool
  fits_entries limits end depth = true
  fits_entries limits (member k v rest) depth =
      not (refused_key k) && (fits_value limits v depth && fits_entries limits rest depth)

abbrev verdict : ProfileLimits → Bool → ℕ → Option ℕ
verdict limits fits total = if fits && leb total limits.members then some total else none

-- A step that fails or runs over the budget fails the whole, also if the rest would fit.
chain_verdict :
    (limits : ProfileLimits) (f g : Bool) (m a b : ℕ) (first : Option ℕ) (rest : ℕ → Option ℕ)
    → first ≡ verdict limits f (m + a)
    → ((n : ℕ) → n ≤ limits.members → rest n ≡ verdict limits g (n + b))
    → and_then first rest ≡ verdict limits (f && g) (m + (a + b))
chain_verdict limits f g m a b first rest e h =
    elim (Bool-cases (f && leb (m + a) limits.members)) [
      | inl good ↦ rw e (ground (arith, good, h (m + a)))
      | inr bad ↦ rw e (ground (arith, bad))
    ]

guard_verdict :
    (limits : ProfileLimits) (refused f : Bool) (total : ℕ) (inner : Option ℕ)
    → inner ≡ verdict limits f total
    → elim refused [ true ↦ none | false ↦ inner ] ≡ verdict limits (not refused && f) total
guard_verdict limits true f total inner e = ground arith
guard_verdict limits false f total inner e = e

module _ (limits : ProfileLimits) (small : limits.members < 2 ^ 64) where
  object_verdict :
      (o : Members) (d m : ℕ)
      → (m + count_members o ≤ limits.members
          → check_entries limits o d (m + count_members o)
            ≡ verdict limits (fits_entries limits o d) (m + count_members o + total_entries o))
      → and_then (enter limits d m (count_members o)) (λ n. check_entries limits o d n)
        ≡ verdict limits
            (leb d limits.depth && fits_entries limits o d)
            (m + (count_members o + total_entries o))
  unfolding enter
  object_verdict o d m h =
      elim (Bool-cases (leb d limits.depth && leb (m + count_members o) limits.members)) [
        | inl good ↦ ground (arith, good, small, h)
        | inr bad ↦ ground (arith, bad, small)
      ]

  mutual
    unfolding check_value total_value fits_value enter

    value_verdict :
        (v : Value) (d m : ℕ)
        → m ≤ limits.members
        → check_value limits v d m ≡ verdict limits (fits_value limits v d) (m + total_value v)
    value_verdict null d m h = ground arith
    value_verdict (bool b) d m h = ground arith
    value_verdict (number n) d m h = ground arith
    value_verdict (string s) d m h = ground arith
    value_verdict (array xs) d m h = ground (arith, items_verdict xs (d + 1) m)
    value_verdict (object o) d m h =
        object_verdict o (d + 1) m (λ le. entries_verdict o (d + 1) (m + count_members o) le)

    items_verdict :
        (vs : Items) (d m : ℕ)
        → m ≤ limits.members
        → check_items limits vs d m ≡ verdict limits (fits_items limits vs d) (m + total_items vs)
    items_verdict nil d m h = ground arith
    items_verdict (cons v vs) d m h =
        chain_verdict limits _ _ m (total_value v) (total_items vs) _ _ (value_verdict v d m h)
          (λ n le. items_verdict vs d n le)

    entries_verdict :
        (o : Members) (d m : ℕ)
        → m ≤ limits.members
        → check_entries limits o d m
          ≡ verdict limits (fits_entries limits o d) (m + total_entries o)
    entries_verdict end d m h = ground arith
    entries_verdict (member k v rest) d m h = guard_verdict limits (refused_key k) _ _ _ (
        chain_verdict limits _ _ m (total_value v) (total_entries rest) _ _ (value_verdict v d m h)
          (λ n le. entries_verdict rest d n le))

unfoldable pub total_members : Members → ℕ
total_members o = count_members o + total_entries o

unfoldable pub fits : ProfileLimits → Members → Bool
fits limits o = leb 1 limits.depth && fits_entries limits o 1

-- With a limit that a 64-bit count holds, the walk from the root with its running count succeeds
-- exactly when every value is within the limits and all members of all objects together are, and it
-- then returns their number.
pub check_object_iff :
    (limits : ProfileLimits) (o : Members) (n : ℕ)
    → limits.members < 2 ^ 64
    → check_object limits o 1 0 ≡ some n
      ↔ (fits limits o ≡ true) × (total_members o ≤ limits.members) × (n ≡ total_members o)
unfolding check_object fits total_members
check_object_iff limits o n small =
    ground (arith, object_verdict limits small o 1 0 (λ le. entries_verdict limits small o 1 _ le))
