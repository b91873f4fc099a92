-- ===== src/Directory/Query/Accepted.antt =====
-- What an accepted query of the directory guarantees to the code that turns it into SQL.
use rss_identity.Directory.Query.{
  names, Sort, AccountQuery, used_fields, needs_profiles, needs_departments, same_field, sorts_by,
  parse_sort, with_key, each, without_dash, has_dash, parse_source, parse_ordering, parse_output,
  parse,
}
use rss_identity.Common.{
  ℕ, ◌≤◌, ◌≡◌, refl, sym, subst, ◌≢◌, inl, inr, true, false, not, ◌&&◌, ◌||◌, Option, none, some,
  List, [], ◌∷◌, ◌++◌, arith, leb, leb→le, Bool-cases, Bool-eq_of_iff, is_some_and, is_none, any,
  all, Result, ok, ◌>>◌, reject_if, Result-cases,
}
use rss_identity.Common.Text.{Text, codes, text_eq, text_eq_iff, text_eq_refl}
use rss_identity.Common.Url.{Parsers}
use rss_identity.Directory.Fields
use rss_identity.Directory.Fields.{Field, principal_id, profile, in_department, sortable, output}
use rss_identity.Directory.Filter.{Expression, Stop, invalid, parse_filter, is_key}
use rss_identity.Directory.Filter.Bounds.{IsFilter, parse_filter-IsFilter}

-- No two entries sort by the same field.
abbrev pub Distinct : List Sort → Type 0
Distinct [] = Unit {0}
Distinct (s ∷ ss) = (sorts_by ss s.field ≡ false) × Distinct ss

record IsOrdering (ss : List Sort) : Type 0 where
  allowed : all (λ (s : Sort). sortable s.field) ss ≡ true
  distinct : Distinct ss

same_field_comm : (a b : Field) → same_field a b ≡ same_field b a
same_field_comm a b = Bool-eq_of_iff (same_field a b) (same_field b a) (turn a b, turn b a)
  where
    turn : (a b : Field) → same_field a b ≡ true → same_field b a ≡ true
    turn a b h =
        (text_eq_iff (Fields.name b) (Fields.name a)).1
          (sym ((text_eq_iff (Fields.name a) (Fields.name b)).0 h))

sorts_by-append :
    (ss : List Sort) (t : Sort) (f : Field)
    → sorts_by (ss ++ (t ∷ [])) f ≡ (sorts_by ss f || same_field t.field f)
sorts_by-append [] t f = ground arith
sorts_by-append (s ∷ ss) t f = ground (arith, sorts_by-append ss t f)

Distinct-append :
    (ss : List Sort) (t : Sort)
    → Distinct ss
    → sorts_by ss t.field ≡ false
    → Distinct (ss ++ (t ∷ []))
Distinct-append [] t d h = (refl, tt)
Distinct-append (s ∷ ss) t (new, d) h = (
  ground (arith, new, h, sorts_by-append ss t s.field, same_field_comm s.field t.field),
  Distinct-append ss t d (ground (arith, h)),
)

all-sortable-append :
    (ss : List Sort) (t : Sort)
    → all (λ (s : Sort). sortable s.field) ss ≡ true
    → sortable t.field ≡ true
    → all (λ (s : Sort). sortable s.field) (ss ++ (t ∷ [])) ≡ true
all-sortable-append [] t h k = ground (arith, k)
all-sortable-append (s ∷ ss) t h k = ground (arith, h, k, all-sortable-append ss t)

IsOrdering-append :
    (ss : List Sort) (t : Sort)
    → IsOrdering ss
    → sortable t.field ≡ true
    → sorts_by ss t.field ≡ false
    → IsOrdering (ss ++ (t ∷ []))
IsOrdering-append ss t o k h = record {
  allowed = all-sortable-append ss t o.allowed k;
  distinct = Distinct-append ss t o.distinct h;
}

parse_sort-IsOrdering :
    (ss : List Sort) (ns : List Text) (r : List Sort)
    → IsOrdering ss
    → parse_sort ss ns ≡ ok r
    → IsOrdering r
unfolding parse_sort
parse_sort-IsOrdering ss [] r o e = subst IsOrdering (ground (arith, e)) o
parse_sort-IsOrdering ss (n ∷ ns) r o e = elim (Result-cases (Fields.parse (without_dash n))) [
  | inr (x, p) ↦ absurd (ground (arith, e, p))
  | inl (field, p) ↦ elim (Bool-cases (not (sortable field) || sorts_by ss field)) [
    | inl refused ↦ absurd (ground (arith, e, p, refused))
    | inr fits ↦
        let t : Sort = record { field = field; descending = has_dash n } in
        parse_sort-IsOrdering (ss ++ (t ∷ [])) ns r
          (IsOrdering-append ss t o (ground (arith, fits)) (ground (arith, fits)))
          (ground (arith, e, p, fits))
  ]
]

is_key-eq-same_field : (f : Field) → is_key f ≡ same_field f principal_id
unfolding is_key Fields.name
is_key-eq-same_field principal_id = refl
is_key-eq-same_field Field.login = refl
is_key-eq-same_field Field.enabled = refl
is_key-eq-same_field Field.member_active = refl
is_key-eq-same_field Field.has_local_password = refl
is_key-eq-same_field Field.display_name = refl
is_key-eq-same_field Field.email = refl
is_key-eq-same_field Field.profile_status = refl
is_key-eq-same_field Field.department_status = refl
is_key-eq-same_field Field.department_snapshot = refl
is_key-eq-same_field Field.department = refl
is_key-eq-same_field Field.department_subtree = refl

any_key-eq-sorts_by :
    (ss : List Sort) → any (λ (s : Sort). is_key s.field) ss ≡ sorts_by ss principal_id
any_key-eq-sorts_by [] = refl
any_key-eq-sorts_by (s ∷ ss) = rw (is_key-eq-same_field s.field, any_key-eq-sorts_by ss)

principal_sortable : sortable principal_id ≡ true
unfolding sortable
principal_sortable = refl

with_key-IsOrdering :
    (ss : List Sort)
    → IsOrdering ss
    → IsOrdering (with_key ss) × (sorts_by (with_key ss) principal_id ≡ true)
unfolding with_key
with_key-IsOrdering ss o = elim (Bool-cases (sorts_by ss principal_id)) [
  | inl there ↦ rw (any_key-eq-sorts_by ss, there) (o, there)
  | inr new ↦
      let t : Sort = record { field = principal_id; descending = false } in
      rw (any_key-eq-sorts_by ss, new)
        (
          IsOrdering-append ss t o principal_sortable new,
          ground (
            arith,
            new,
            sorts_by-append ss t principal_id,
            text_eq_refl (Fields.name principal_id),
          ),
        )
]

parse_ordering-IsOrdering :
    (sort : Option Text) (ss : List Sort) → parse_ordering sort ≡ ok ss → IsOrdering ss
unfolding parse_ordering
parse_ordering-IsOrdering none ss e =
    let same : [] ≡ ss = ground (arith, e) in
    subst IsOrdering same (record { allowed = refl; distinct = tt })
parse_ordering-IsOrdering (some raw) ss e = elim (Result-cases (names raw)) [
  | inr (x, p) ↦ absurd (ground (arith, e, p))
  | inl (ns, p) ↦
      parse_sort-IsOrdering [] ns ss (record { allowed = refl; distinct = tt })
        (ground (arith, e, p))
]

each-IsFilter :
    (parsers : Parsers) (raw : Option Text) (f : Option Expression)
    → each (parse_filter parsers) raw ≡ ok f
    → (e : Expression) → f ≡ some e
    → IsFilter parsers e
each-IsFilter parsers none f h e k = absurd (ground (arith, h, k))
each-IsFilter parsers (some raw) f h e k = elim (Result-cases (parse_filter parsers raw)) [
  | inr (x, p) ↦ absurd (ground (arith, h, p))
  | inl (x, p) ↦ parse_filter-IsFilter parsers raw e (ground (arith, h, p, k))
]

-- A page of accounts: the fields shown, the total order and the sources that it needs
pub record IsQuery (parsers : Parsers) (q : AccountQuery) : Type 0 where
  pub some_rows : 1 ≤ q.limit
  pub few_rows : q.limit ≤ 100
  pub shown : any (λ field. not (output field)) q.fields ≡ false
  pub sorted : all (λ (s : Sort). sortable s.field) q.sort ≡ true
  pub distinct : Distinct q.sort
  pub by_key : sorts_by q.sort principal_id ≡ true
  pub filtered : (e : Expression) → q.filter ≡ some e → IsFilter parsers e
  pub profiles_sourced : any profile (used_fields q) ≡ true → is_none q.source ≡ false
  pub departments_sourced : any in_department (used_fields q) ≡ true → is_none q.source ≡ false
  pub departments_remote :
      any in_department (used_fields q) ≡ true → q.source ≢ some (codes "local")

abbrev built : Option Expression → List Sort → List Field → Option Text → ℕ → AccountQuery
built f ss shown source limit = record {
  filter = f;
  sort = with_key ss;
  fields = shown;
  source = source;
  limit = limit;
}

-- The checks that the whole query must pass
abbrev finish : AccountQuery → Result AccountQuery Stop
finish q = do
  reject_if ((needs_profiles q || needs_departments q) && is_none q.source) invalid
  reject_if (needs_departments q && is_some_and q.source (λ s. text_eq s (codes "local"))) invalid
  ok q

finish-same : (q r : AccountQuery) → finish q ≡ ok r → q ≡ r
finish-same q r h = ground (arith, h)

local_is :
    (source : Option Text)
    → source ≡ some (codes "local")
    → is_some_and source (λ s. text_eq s (codes "local")) ≡ true
local_is source h =
    subst (λ t. is_some_and t (λ s. text_eq s (codes "local")) ≡ true) (sym h)
      (text_eq_refl (codes "local"))

built-IsQuery :
    (parsers : Parsers) (f : Option Expression) (ss : List Sort) (shown : List Field)
    (source : Option Text) (limit : ℕ) (r : AccountQuery)
    → (leb 1 limit && leb limit 100) ≡ true
    → any (λ field. not (output field)) shown ≡ false
    → IsOrdering ss
    → ((e : Expression) → f ≡ some e → IsFilter parsers e)
    → finish (built f ss shown source limit) ≡ ok r
    → IsQuery parsers (built f ss shown source limit)
unfolding needs_profiles needs_departments
built-IsQuery parsers f ss shown source limit r rows fits o filtered h =
    let q = built f ss shown source limit in
    let (o', keyed) = with_key-IsOrdering ss o in
    record {
      some_rows = leb→le 1 limit (ground (arith, rows));
      few_rows = leb→le limit 100 (ground (arith, rows));
      shown = fits;
      sorted = o'.allowed;
      distinct = o'.distinct;
      by_key = keyed;
      filtered = filtered;
      profiles_sourced = λ k. ground (arith, h, k);
      departments_sourced = λ k. ground (arith, h, k);
      departments_remote = λ k l. ground (arith, h, k, local_is source l);
    }

-- An accepted query asks for 1 to 100 rows, shows and sorts by fields that may be shown and sorted by,
-- sorts by no field twice and by the unique principal key, has a filter within the budgets and rules
-- if any, and names a source if its fields, its order or its filter use a profile or a department,
-- which for departments is not the local one.
pub parse-IsQuery :
    (parsers : Parsers) (filter sort fields source : Option Text) (limit : ℕ) (q : AccountQuery)
    → parse parsers filter sort fields source limit ≡ ok q
    → IsQuery parsers q
unfolding parse
parse-IsQuery parsers filter sort fields source limit q e =
    elim (Result-cases (each (parse_source parsers) source)) [
      | inr (x, p) ↦ absurd (ground (arith, e, p))
      | inl (source', p) ↦ elim (Result-cases (parse_output fields)) [
        | inr (x, p1) ↦ absurd (ground (arith, e, p, p1))
        | inl (fields', p1) ↦ elim (Result-cases (parse_ordering sort)) [
          | inr (x, p2) ↦ absurd (ground (arith, e, p, p1, p2))
          | inl (ss, p2) ↦ elim (Result-cases (each (parse_filter parsers) filter)) [
            | inr (x, p3) ↦ absurd (ground (arith, e, p, p1, p2, p3))
            | inl (f, p3) ↦
                let done : finish (built f ss fields' source' limit) ≡ ok q =
                  ground (arith, e, p, p1, p2, p3) in
                subst (IsQuery parsers) (finish-same _ q done) (
                  built-IsQuery parsers f ss fields' source' limit q (ground (arith, e))
                    (ground (arith, e, p, p1)) (parse_ordering-IsOrdering sort ss p2)
                    (each-IsFilter parsers filter f p3) done)
          ]
        ]
      ]
    ]
