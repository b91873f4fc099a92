-- ===== src/Directory/Filter/Rules.antt =====
-- The rules that a condition has passed when the parser returns it.
use rss_identity.Common.{
  ◌≤◌, ◌<◌, ◌≡◌, refl, sym, subst, ◌∙◌, ◌⊎◌, inl, inr, true, false, not, List, [], ◌∷◌, arith,
  Bool-cases, length, any, All, ok, err, Result-cases,
}
use rss_identity.Common.Text.{Text, codes, text_eq, contains_text, text_eq_iff}
use rss_identity.Common.Ids.{Uuid, is_nil}
use rss_identity.Common.Url.{Parsers}
use rss_identity.Identity.{parse_id}
use rss_identity.Directory.Fields.{Field, boolean, sortable, principal_id}
use rss_identity.Directory.Filter.{
  out_of_fuel, operators, refused, is_key, is_placed, canonical, canonical_ids,
}
use rss_identity.Directory.Filter.Spec.{is_set_operator, IsKey, IsFlag, IsCondition}

parse_id-real :
    (parsers : Parsers) (v : Text) (id : Uuid) → parse_id parsers v ≡ ok id → is_nil id ≡ false
unfolding parse_id
parse_id-real parsers v id e = ground (arith, e)

-- Canonical identifiers: as many, each of a UUID that is not nil.
abbrev AreKeys : Parsers → List Text → List Text → Type 0
AreKeys parsers values vs = (length vs ≡ length values) × All (IsKey parsers) vs

canonical_ids-AreKeys :
    (parsers : Parsers) (values vs : List Text)
    → canonical_ids parsers values ≡ ok vs
    → AreKeys parsers values vs
unfolding canonical_ids
canonical_ids-AreKeys parsers [] vs e =
    let same : [] ≡ vs = ground (arith, e) in subst (AreKeys parsers []) same (refl, tt)
canonical_ids-AreKeys parsers (v ∷ values) vs e = elim (Result-cases (parse_id parsers v)) [
  | inr (x, n) ↦ absurd (ground (arith, e, n))
  | inl (id, p) ↦ elim (Result-cases (canonical_ids parsers values)) [
    | inr (x, n) ↦ absurd (ground (arith, e, p, n))
    | inl (ids, q) ↦
        let same : parsers.show_uuid id ∷ ids ≡ vs = ground (arith, e, p, q) in
        let (l, keys) = canonical_ids-AreKeys parsers values ids q in
        subst (AreKeys parsers (v ∷ values)) same
          (omega (arith, l), ((id, parse_id-real parsers v id p, refl), keys))
  ]
]

canonical_ids_ne_out :
    (parsers : Parsers) (values : List Text) → ¬ canonical_ids parsers values ≡ err out_of_fuel
unfolding canonical_ids
canonical_ids_ne_out parsers [] e = cc
canonical_ids_ne_out parsers (v ∷ values) e = ground (arith, e, canonical_ids_ne_out parsers values)

pub canonical_ne_out :
    (parsers : Parsers) (field : Field) (values : List Text)
    → ¬ canonical parsers field values ≡ err out_of_fuel
unfolding canonical
canonical_ne_out parsers field values e = ground (arith, e, canonical_ids_ne_out parsers values)

one_of_two : (a b v : Text) → contains_text (a ∷ b ∷ []) v ≡ true → (v ≡ a) ⊎ (v ≡ b)
one_of_two a b v h = elim (Bool-cases (text_eq a v)) [
  | inl first ↦ inl (sym ((text_eq_iff a v).0 first))
  | inr other ↦ inr (sym ((text_eq_iff b v).0 (ground (arith, h, other))))
]

key_not_boolean : (field : Field) → is_key field ≡ true → boolean field ≡ false
unfolding is_key boolean
key_not_boolean principal_id h = refl
key_not_boolean _ h = ground (arith, h)

-- What the tests on a condition leave of it
module _ (parsers : Parsers) (field : Field) (operator : Text) where
  refused_placed :
      (values : List Text)
      → refused field operator values ≡ false
      → sortable field ≡ false
      → (is_placed field ≡ true) × (operator ≡ codes "==")
  unfolding refused
  refused_placed values r h = ground (arith, r, h, text_eq_iff operator (codes "=="))

  flags-All :
      (values : List Text)
      → any (λ v. not (contains_text (codes "true" ∷ codes "false" ∷ []) v)) values ≡ false
      → All IsFlag values
  flags-All [] h = tt
  flags-All (v ∷ vs) h = (
    one_of_two (codes "true") (codes "false") v (ground (arith, h)),
    flags-All vs (ground (arith, h)),
  )

  refused_flags :
      (values : List Text)
      → refused field operator values ≡ false
      → boolean field ≡ true
      → ((operator ≡ codes "==") ⊎ (operator ≡ codes "!=")) × All IsFlag values
  unfolding refused
  refused_flags values r h = (
    one_of_two (codes "==") (codes "!=") operator (ground (arith, r, h)),
    flags-All values (ground (arith, r, h)),
  )

  pub canonical-IsCondition :
      (values vs : List Text)
      → contains_text operators operator ≡ true
      → 0 < length values
      → length values ≤ 64
      → (is_set_operator operator ≡ false → length values ≡ 1)
      → refused field operator values ≡ false
      → canonical parsers field values ≡ ok vs
      → IsCondition parsers field operator vs × (length vs ≡ length values)
  unfolding canonical
  canonical-IsCondition values vs k any_value few one r e = elim (Bool-cases (is_key field)) [
    | inl key ↦
        let (l, keys) = canonical_ids-AreKeys parsers values vs (ground (arith, e, key)) in
        (
          record {
            known = k;
            some_value = omega (arith, l, any_value);
            few_values = omega (arith, l, few);
            one_value = λ h. l ∙ one h;
            placed = refused_placed values r;
            flags = λ h. absurd (ground (arith, h, key_not_boolean field key));
            keys = λ _. keys;
          },
          l,
        )
    | inr other ↦
        let same : values ≡ vs = ground (arith, e, other) in
        subst (λ vs. IsCondition parsers field operator vs × (length vs ≡ length values)) same
          (
            record {
              known = k;
              some_value = any_value;
              few_values = few;
              one_value = one;
              placed = refused_placed values r;
              flags = refused_flags values r;
              keys = λ h. absurd (ground (arith, h, other));
            },
            refl,
          )
  ]
