-- ===== src/Directory/Query.antt =====
-- crates/identity-core/src/directory.rs: `AccountQuery::parse` and what a query uses.
pub mod Accepted
mod Examples
use rss_identity.Common.{
  ℕ, Bool, false, not, ◌&&◌, ◌||◌, Option, none, some, List, [], ◌∷◌, ◌++◌, map, leb, ◌==◌,
  if◌then◌else◌, is_some_and, is_none, any, Result, ok, ◌>>=◌, ◌>>◌, reject_if, map_err,
}
use rss_identity.Common.Text.{Text, codes, text_eq}
use rss_identity.Common.Url.{Parsers}
use rss_identity.Federation.Settings.{parse_provider}
use rss_identity.Directory.Fields
use rss_identity.Directory.Fields.{
  Field, principal_id, login, enabled, member_active, has_local_password, profile, in_department,
  sortable, output,
}
use rss_identity.Directory.Names.{names}
use rss_identity.Directory.Filter.{
  Expression, Expressions, compare_field, and_all, or_any, nil, cons, Stop, invalid, parse_filter,
  is_key,
}

pub record Sort : Type 0 where
  pub field : Field
  pub descending : Bool

pub record AccountQuery : Type 0 where
  pub filter : Option Expression
  pub sort : List Sort
  pub fields : List Field
  pub source : Option Text
  pub limit : ℕ

-- `Expression::fields`
unfoldable mutual
  pub fields_of : Expression → List Field
  fields_of (compare_field field operator values) = field ∷ []
  fields_of (and_all es) = fields_of_all es
  fields_of (or_any es) = fields_of_all es

  pub fields_of_all : Expressions → List Field
  fields_of_all nil = []
  fields_of_all (cons e es) = fields_of e ++ fields_of_all es

abbrev pub sorted_fields : List Sort → List Field
sorted_fields = map (λ (s : Sort). s.field)

unfoldable pub used_fields : AccountQuery → List Field
unfolding fields_of
used_fields q =
    q.fields ++ (sorted_fields q.sort ++ elim q.filter [ none ↦ [] | some e ↦ fields_of e ])

unfoldable pub needs_profiles : AccountQuery → Bool
unfolding used_fields
needs_profiles q = any profile (used_fields q)

unfoldable pub needs_departments : AccountQuery → Bool
unfolding used_fields
needs_departments q = any in_department (used_fields q)

abbrev pub lift {ℓ ι} : {A : Type ℓ} {E : Type ι} → Result A E → Result A Stop
lift r = map_err r (λ _. invalid)

-- `==` of fields, by their names
abbrev pub same_field : Field → Field → Bool
same_field a b = text_eq (Fields.name a) (Fields.name b)

abbrev default_fields : List Field
default_fields = principal_id ∷ login ∷ enabled ∷ member_active ∷ has_local_password ∷ []

unfoldable pub parse_fields : List Text → Result (List Field) Stop
parse_fields [] = ok []
parse_fields (n ∷ ns) = do
  field ← lift (Fields.parse n)
  fields ← parse_fields ns
  ok (field ∷ fields)

-- `strip_prefix('-')` and `starts_with('-')`
abbrev without_dash : Text → Text
without_dash [] = []
without_dash (c ∷ s) = if c == 0x2d then s else c ∷ s

abbrev has_dash : Text → Bool
has_dash [] = false
has_dash (c ∷ s) = c == 0x2d

abbrev pub sorts_by : List Sort → Field → Bool
sorts_by ordering field = any (λ (s : Sort). same_field s.field field) ordering

-- The loop over the names to sort by, with the ordering so far.
unfoldable pub parse_sort : List Sort → List Text → Result (List Sort) Stop
parse_sort ordering [] = ok ordering
parse_sort ordering (name ∷ rest) = do
  field ← lift (Fields.parse (without_dash name))
  reject_if (not (sortable field) || sorts_by ordering field) invalid
  parse_sort (ordering ++ (record { field = field; descending = has_dash name } ∷ [])) rest

unfoldable pub with_key : List Sort → List Sort
with_key ordering =
    if any (λ (s : Sort). is_key s.field) ordering
    then ordering
    else ordering ++ (record { field = principal_id; descending = false } ∷ [])

-- `Option::map(…).transpose()`
abbrev pub each {ℓ} : {A B : Type ℓ} → (A → Result B Stop) → Option A → Result (Option B) Stop
each f none = ok none
each f (some a) = f a >>= λ b. ok (some b)

unfoldable pub parse_source : Parsers → Text → Result Text Stop
parse_source parsers s =
    if text_eq s (codes "local")
    then ok s
    else (lift (parse_provider parsers s) >>= λ id. ok (parsers.show_uuid id))

unfoldable pub parse_ordering : Option Text → Result (List Sort) Stop
unfolding parse_sort
parse_ordering none = ok []
parse_ordering (some raw) = lift (names raw) >>= parse_sort []

unfoldable pub parse_output : Option Text → Result (List Field) Stop
unfolding parse_fields
parse_output none = ok default_fields
parse_output (some raw) = lift (names raw) >>= parse_fields

unfoldable pub parse :
    Parsers → Option Text → Option Text → Option Text → Option Text → ℕ → Result AccountQuery Stop
unfolding parse_source parse_ordering parse_output with_key needs_profiles needs_departments
parse parsers filter sort fields source limit = do
  reject_if (not (leb 1 limit && leb limit 100)) invalid
  source' ← each (parse_source parsers) source
  fields' ← parse_output fields
  reject_if (any (λ field. not (output field)) fields') invalid
  ordering ← parse_ordering sort
  filter' ← each (parse_filter parsers) filter
  let q : AccountQuery = record {
    filter = filter';
    sort = with_key ordering;
    fields = fields';
    source = source';
    limit = limit;
  }
  reject_if ((needs_profiles q || needs_departments q) && is_none q.source) invalid
  reject_if (needs_departments q && is_some_and q.source (λ s. text_eq s (codes "local"))) invalid
  ok q
