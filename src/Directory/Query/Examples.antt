-- ===== src/Directory/Query/Examples.antt =====
-- A filter with a conjunction, a nested alternative and a set, and a query with it.
use rss_identity.Common.{◌≡◌, refl, ◌⊎◌, true, false, none, some, [], ◌∷◌, if◌then◌else◌, ok, err}
use rss_identity.Common.Text.{Text, codes, bytes, text_eq, is_control, is_whitespace}
use rss_identity.Common.Url.{Parsers}
use rss_identity.Directory.Fields
use rss_identity.Directory.Value
use rss_identity.Identity.{parse_id}
use rss_identity.Directory.Names
use rss_identity.Directory.Fields.{Field}
use rss_identity.Directory.Filter.{
  Expression, invalid, parse_filter, compare_field, and_all, or_any, nil, cons,
}
use rss_identity.Directory.Filter.Bounds.{IsFilter, parse_filter-IsFilter, parse_filter_total}
use rss_identity.Directory.Query.{AccountQuery, parse}
use rss_identity.Directory.Query.Accepted.{IsQuery, parse-IsQuery}

abbrev parsers : Parsers
parsers = record {
  parse_url = λ s. none;
  parse_uuid = λ s. if text_eq s (codes "5b8c") then some 0x5b8c else none;
  show_uuid = λ u. codes "5b8c";
}

abbrev raw : Text
raw = codes "enabled==true;(login=icontains='al',login=in=('bob','eve'))"

abbrev expected : Expression
expected = and_all (
    cons (compare_field Field.enabled (codes "==") (codes "true" ∷ [])) (
      cons
        (or_any (
          cons (compare_field Field.login (codes "=icontains=") (codes "al" ∷ []))
            (cons (compare_field Field.login (codes "=in=") (codes "bob" ∷ codes "eve" ∷ [])) nil)))
        nil))

reads_nested : parse_filter parsers raw ≡ ok expected
unfolding parse_filter bytes Fields.parse Value.value is_whitespace is_control Fields.sortable
    Fields.boolean
reads_nested = refl

parse_filter-IsFilter_example : IsFilter parsers expected
parse_filter-IsFilter_example = parse_filter-IsFilter parsers raw expected reads_nested

parse_filter_total_example :
    ((e : Expression) × (parse_filter parsers raw ≡ ok e))
    ⊎ (parse_filter parsers raw ≡ err invalid)
parse_filter_total_example = parse_filter_total parsers raw

abbrev asked : AccountQuery
asked = record {
  filter = some expected;
  sort =
      record { field = Field.login; descending = true }
      ∷ record { field = Field.principal_id; descending = false }
      ∷ [];
  fields = Field.login ∷ Field.enabled ∷ [];
  source = none;
  limit = 20;
}

reads_query :
    parse parsers (some raw) (some (codes "-login")) (some (codes "login,enabled")) none 20
    ≡ ok asked
unfolding parse Names.names bytes Fields.parse Fields.output Fields.sortable parse_filter
    Value.value is_whitespace is_control Fields.boolean Fields.profile Fields.in_department
reads_query = refl

parse-IsQuery_example : IsQuery parsers asked
parse-IsQuery_example =
    parse-IsQuery parsers (some raw) (some (codes "-login")) (some (codes "login,enabled")) none 20
      asked reads_query

-- A set with an identifier that is not one, an unknown field, a trailing separator
refuses :
    (parse_filter parsers (codes "principalId==x") ≡ err invalid)
    × (parse_filter parsers (codes "secret==x") ≡ err invalid)
    × (parse_filter parsers (codes "enabled==true;") ≡ err invalid)
    × (parse_filter parsers (codes "enabled=icontains='true'") ≡ err invalid)
unfolding parse_filter bytes Fields.parse Value.value is_whitespace is_control Fields.sortable
    Fields.boolean parse_id
refuses = (refl, refl, refl, refl)

-- `AccountQuery::default`, which expects that the parse succeeds
default_query :
    parse parsers none none none none 50
    ≡ ok (record {
      filter = none;
      sort = record { field = Field.principal_id; descending = false } ∷ [];
      fields =
          Field.principal_id ∷ Field.login ∷ Field.enabled ∷ Field.member_active
          ∷ Field.has_local_password ∷ [];
      source = none;
      limit = 50;
    })
unfolding parse Fields.output Fields.sortable Fields.profile Fields.in_department
default_query = refl
