-- ===== src/Directory/Filter/Spec.antt =====
-- What a filter expression may be, said of the expression alone.
use rss_identity.Common.{
  ℕ, ◌+◌, ◌≤◌, ◌<◌, max, ◌≡◌, ◌⊎◌, Bool, true, false, List, [], ◌∷◌, if◌then◌else◌, length, All,
}
use rss_identity.Common.Text.{Text, codes, contains_text}
use rss_identity.Common.Ids.{Uuid, is_nil}
use rss_identity.Common.Url.{Parsers}
use rss_identity.Directory.Fields.{Field, boolean, sortable}
use rss_identity.Directory.Filter.{
  Expression, Expressions, compare_field, and_all, or_any, nil, cons, operators, is_key, is_placed,
}

abbrev pub is_set_operator : Text → Bool
is_set_operator operator = contains_text (codes "=in=" ∷ codes "=out=" ∷ []) operator

-- A key is compared with UUIDs that are not nil, each as the uuid crate writes it.
abbrev pub IsKey : Parsers → Text → Type 0
IsKey parsers v = (id : Uuid) × (is_nil id ≡ false) × (v ≡ parsers.show_uuid id)

abbrev pub IsFlag : Text → Type 0
IsFlag v = (v ≡ codes "true") ⊎ (v ≡ codes "false")

pub record IsCondition (parsers : Parsers) (field : Field) (operator : Text) (values : List Text)
    : Type 0 where
  pub known : contains_text operators operator ≡ true
  pub some_value : 0 < length values
  pub few_values : length values ≤ 64
  pub one_value : is_set_operator operator ≡ false → length values ≡ 1
  pub placed : sortable field ≡ false → (is_placed field ≡ true) × (operator ≡ codes "==")
  pub flags :
      boolean field ≡ true → ((operator ≡ codes "==") ⊎ (operator ≡ codes "!=")) × All IsFlag values
  pub keys : is_key field ≡ true → All (IsKey parsers) values

unfoldable mutual
  -- Conditions and connectives together
  pub size : Expression → ℕ
  size (compare_field field operator values) = 1
  size (and_all es) = 1 + size_all es
  size (or_any es) = 1 + size_all es

  pub size_all : Expressions → ℕ
  size_all nil = 0
  size_all (cons e es) = size e + size_all es

unfoldable mutual
  -- The values of all sets together
  pub set_values : Expression → ℕ
  set_values (compare_field field operator values) =
      if is_set_operator operator then length values else 0
  set_values (and_all es) = set_values_all es
  set_values (or_any es) = set_values_all es

  pub set_values_all : Expressions → ℕ
  set_values_all nil = 0
  set_values_all (cons e es) = set_values e + set_values_all es

unfoldable mutual
  pub height : Expression → ℕ
  height (compare_field field operator values) = 1
  height (and_all es) = 1 + height_all es
  height (or_any es) = 1 + height_all es

  pub height_all : Expressions → ℕ
  height_all nil = 0
  height_all (cons e es) = max (height e) (height_all es)

-- Every condition of the expression is one that the fields allow.
unfoldable mutual
  pub Conditions : Parsers → Expression → Type 0
  Conditions parsers (compare_field field operator values) =
      IsCondition parsers field operator values
  Conditions parsers (and_all es) = ConditionsAll parsers es
  Conditions parsers (or_any es) = ConditionsAll parsers es

  pub ConditionsAll : Parsers → Expressions → Type 0
  ConditionsAll parsers nil = Unit
  ConditionsAll parsers (cons e es) = Conditions parsers e × ConditionsAll parsers es
