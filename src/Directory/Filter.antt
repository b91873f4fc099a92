-- ===== src/Directory/Filter.antt =====
-- crates/identity-core/src/directory.rs: `Expression` and the filter parser. The state keeps the text
-- after the offset. `expression` is called with precedences 0, 1 and 2 and with a depth: here one
-- function each, `expression`, `conjunction` and `term`, and the depths that are left of 17.
pub mod Ensures
pub mod Spec
mod Moves
mod Rules
pub mod Conditions
pub mod Bounds
use rss_identity.Common.{
  ℕ, zero, suc, ◌+◌, Bool, true, false, not, ◌&&◌, ◌||◌, Option, none, some, List, [], ◌∷◌, map,
  ltb, ◌==◌, if◌then◌else◌, length, any, is_empty, Result, ok, err, ◌>>=◌, ◌>>◌, reject_if, map_err,
}
use rss_identity.Common.Text.{Text, codes, len, text_eq, is_ascii_alphanumeric, contains_text}
use rss_identity.Common.Url.{Parsers}
use rss_identity.Identity.{parse_id}
use rss_identity.Directory.Value.{value}
use rss_identity.Directory.Fields.{
  Field, parse, boolean, sortable, principal_id, department, department_subtree,
}

mutual
  pub data Expression : Type 0 where
    compare_field : Field → Text → List Text → Expression
    and_all : Expressions → Expression
    or_any : Expressions → Expression

  pub data Expressions : Type 0 where
    nil : Expressions
    cons : Expression → Expressions → Expressions

-- `InvalidQuery`, or the end of the fuel of a loop, which the code does not have.
pub data Stop : Type 0 where
  invalid out_of_fuel : Stop

pub record State : Type 0 where
  pub rest : Text
  pub nodes : ℕ
  pub set_items : ℕ

abbrev pub Read : Type 0 → Type 0
Read A = Result (A × State) Stop

-- `eat`: the state after the text, if it stands next
unfoldable pub strip : Text → Text → Option Text
strip [] rest = some rest
strip (c ∷ cs) [] = none
strip (c ∷ cs) (d ∷ rest) = elim (c == d) [ true ↦ strip cs rest | false ↦ none ]

unfoldable pub eat : Text → State → Option State
unfolding strip
eat text s = elim (strip text s.rest) [ none ↦ none | some rest ↦ some (record s { rest = rest }) ]

-- `node`
unfoldable pub node : State → Result State Stop
node s = if ltb 128 (s.nodes + 1) then err invalid else ok (record s { nodes = s.nodes + 1 })

abbrev lift {ℓ ι} : {A : Type ℓ} {E : Type ι} → Result A E → Result A Stop
lift r = map_err r (λ _. invalid)

-- `value` from the state
unfoldable pub read_value : State → Read Text
read_value s = lift (value s.rest) >>= λ (v, rest). ok (v, record s { rest = rest })

-- The loop over alphanumeric bytes: those read, and what is left.
unfoldable pub span_name : Text → Text × Text
span_name [] = ([], [])
span_name (c ∷ s) =
    let (name, rest) = span_name s in
    if is_ascii_alphanumeric c then (c ∷ name, rest) else ([], c ∷ s)

abbrev pub operators : List Text
operators = map codes (
    "==" ∷ "!=" ∷ "=lt=" ∷ "=le=" ∷ "=gt=" ∷ "=ge=" ∷ "=icontains=" ∷ "=in=" ∷ "=out=" ∷ "=isnull="
    ∷ "=isnotnull=" ∷ [])

-- `find(|op| self.eat(op))`
unfoldable pub find_operator : List Text → State → Read Text
unfolding eat
find_operator [] s = err invalid
find_operator (op ∷ ops) s = elim (eat op s) [ none ↦ find_operator ops s | some s' ↦ ok (op, s') ]

-- The loop over a set, with the values that may still come.
unfoldable pub read_set : ℕ → State → Read (List Text)
unfolding eat read_value
read_set zero s = err invalid
read_set (suc left) s =
    if ltb 256 (s.set_items + 1)
    then err invalid
    else (read_value (record s { set_items = s.set_items + 1 }) >>= λ (v, s1).
        elim (eat (codes ")") s1) [
          | some s2 ↦ ok (v ∷ [], s2)
          | none ↦ elim (eat (codes ",") s1) [
            | none ↦ err invalid
            | some s2 ↦ read_set left s2 >>= λ (vs, s3). ok (v ∷ vs, s3)
          ]
        ])

unfoldable pub read_operand : Text → State → Read (List Text)
unfolding read_set
read_operand operator s =
    if contains_text (codes "=in=" ∷ codes "=out=" ∷ []) operator
    then elim (eat (codes "(") s) [ none ↦ err invalid | some s1 ↦ read_set 64 s1 ]
    else (read_value s >>= λ (v, s1). ok (v ∷ [], s1))

unfoldable pub is_placed : Field → Bool
is_placed department = true
is_placed department_subtree = true
is_placed _ = false

unfoldable pub is_key : Field → Bool
is_key principal_id = true
is_key _ = false

abbrev pub is_true : List Text → Bool
is_true (v ∷ []) = text_eq v (codes "true")
is_true _ = false

-- The three tests on a condition, each an error
unfoldable pub refused : Field → Text → List Text → Bool
unfolding is_placed
refused field operator values =
    (not (sortable field) && (not (is_placed field) || not (text_eq operator (codes "=="))))
    || (boolean field
        && (not (contains_text (codes "==" ∷ codes "!=" ∷ []) operator)
            || any (λ v. not (contains_text (codes "true" ∷ codes "false" ∷ []) v)) values))
    || (contains_text (codes "=isnull=" ∷ codes "=isnotnull=" ∷ []) operator
        && not (is_true values))

unfoldable pub canonical_ids : Parsers → List Text → Result (List Text) Stop
canonical_ids parsers [] = ok []
canonical_ids parsers (v ∷ vs) = do
  id ← lift (parse_id parsers v)
  ids ← canonical_ids parsers vs
  ok (parsers.show_uuid id ∷ ids)

unfoldable pub canonical : Parsers → Field → List Text → Result (List Text) Stop
unfolding is_key canonical_ids
canonical parsers field values = elim (is_key field) [
  | true ↦ canonical_ids parsers values
  | false ↦ ok values
]

-- A condition after its node is counted, and with it.
unfoldable pub condition_body : Parsers → State → Read Expression
unfolding span_name find_operator read_operand refused canonical
condition_body parsers s =
    let (name, rest) = span_name s.rest in
    lift (parse name) >>= λ field.
    find_operator operators (record s { rest = rest }) >>= λ (operator, s1).
    read_operand operator s1 >>= λ (values, s2).
    reject_if (refused field operator values) invalid >>= λ _.
    canonical parsers field values >>= λ vs. ok (compare_field field operator vs, s2)

unfoldable pub condition : Parsers → State → Read Expression
unfolding node condition_body
condition parsers s = node s >>= condition_body parsers

-- Precedence 2, with `expression` one level deeper
unfoldable pub term : Parsers → (State → Read Expression) → State → Read Expression
unfolding eat condition
term parsers inner s = elim (eat (codes "(") s) [
  | none ↦ condition parsers s
  | some s1 ↦ inner s1 >>= λ (e, s2). elim (eat (codes ")") s2) [
    | none ↦ err invalid
    | some s3 ↦ ok (e, s3)
  ]
]

-- The loop over the items after the first. Each pass reads a separator, so the length of the text
-- bounds the passes.
unfoldable pub more : ℕ → Text → (State → Read Expression) → State → Read Expressions
unfolding eat
more zero separator item s = err out_of_fuel
more (suc fuel) separator item s = item s >>= λ (e, s1). elim (eat separator s1) [
  | none ↦ ok (cons e nil, s1)
  | some s2 ↦ more fuel separator item s2 >>= λ (es, s3). ok (cons e es, s3)
]

unfoldable pub chain :
    Text → (Expressions → Expression) → (State → Read Expression) → State → Read Expression
unfolding eat node more
chain separator build item s = item s >>= λ (first, s1). elim (eat separator s1) [
  | none ↦ ok (first, s1)
  | some s2 ↦ node s2 >>= λ s3.
      more (suc (length s3.rest)) separator item s3 >>= λ (es, s4). ok (build (cons first es), s4)
]

-- Precedence 1 and 0
unfoldable pub conjunction : Parsers → (State → Read Expression) → State → Read Expression
unfolding chain term
conjunction parsers inner = chain (codes ";") and_all (term parsers inner)

unfoldable pub expression : Parsers → ℕ → State → Read Expression
unfolding chain conjunction
expression parsers zero s = err invalid
expression parsers (suc levels) s =
    chain (codes ",") or_any (conjunction parsers (expression parsers levels)) s

unfoldable pub parse_filter : Parsers → Text → Result Expression Stop
unfolding expression
parse_filter parsers raw = do
  reject_if (is_empty raw || ltb 8192 (len raw)) invalid
  (e, s) ← expression parsers 17 (record { rest = raw; nodes = 0; set_items = 0 })
  reject_if (not (is_empty s.rest)) invalid
  ok e
