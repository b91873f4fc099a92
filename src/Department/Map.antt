-- ===== src/Department/Map.antt =====
-- The map that the first loop builds holds the nodes, each once.
use rss_identity.Department.{
  max_depth, tree_ok, DepartmentNode, Parents, lookup, insert_all, roots, climb, members_ok,
}
use rss_identity.Common.{
  ℕ, zero, suc, ◌+◌, ◌≡◌, refl, ap, subst, ◌∙◌, inl, inr, Bool, true, false, not, ◌&&◌, Option,
  none, some, List, [], ◌∷◌, map, arith, if◌then◌else◌, Bool-cases, Option-cases, is_none, length,
  all,
}
use rss_identity.Common.Text.{Text, text_eq, contains_text, text_eq_iff, text_eq_refl}

-- The nodes as they stand in the assertion.
abbrev pub entries : List DepartmentNode → Parents
entries = map (λ (n : DepartmentNode). (n.id, n.parent_id))

abbrev pub ids : List DepartmentNode → List Text
ids = map (λ (n : DepartmentNode). n.id)

abbrev pub Distinct : List Text → Type 0
Distinct [] = Unit {0}
Distinct (x ∷ xs) = (contains_text xs x ≡ false) × Distinct xs

push_all : List DepartmentNode → Parents → Parents
push_all [] acc = acc
push_all (n ∷ ns) acc = push_all ns ((n.id, n.parent_id) ∷ acc)

fresh_all : List DepartmentNode → Parents → Bool
fresh_all [] acc = true
fresh_all (n ∷ ns) acc = is_none (lookup n.id acc) && fresh_all ns ((n.id, n.parent_id) ∷ acc)

insert_all-eq :
    (ns : List DepartmentNode) (acc : Parents)
    → insert_all ns acc ≡ (if fresh_all ns acc then some (push_all ns acc) else none)
unfolding insert_all fresh_all push_all
insert_all-eq [] acc = refl
insert_all-eq (n ∷ ns) acc = ground (arith, insert_all-eq ns ((n.id, n.parent_id) ∷ acc))

or_else {ℓ} : {A : Type ℓ} → Option A → Option A → Option A
or_else none b = b
or_else (some a) b = some a

pub is_none-lookup :
    (id : Text) (ns : List DepartmentNode)
    → is_none (lookup id (entries ns)) ≡ not (contains_text (ids ns) id)
unfolding lookup
is_none-lookup id [] = refl
is_none-lookup id (n ∷ ns) = ground (arith, is_none-lookup id ns)

lookup-text_eq : (a b : Text) (ps : Parents) → text_eq a b ≡ true → lookup a ps ≡ lookup b ps
lookup-text_eq a b ps e = ap (λ (t : Text). lookup t ps) ((text_eq_iff a b).0 e)

-- What is in the map already is no node that follows.
fresh_all-skips :
    (id : Text) (ns : List DepartmentNode) (acc : Parents)
    → fresh_all ns acc ≡ true
    → is_none (lookup id acc) ≡ false
    → contains_text (ids ns) id ≡ false
unfolding fresh_all lookup
fresh_all-skips id [] acc f h = refl
fresh_all-skips id (n ∷ ns) acc f h =
    ground (arith, lookup-text_eq n.id id acc, fresh_all-skips id ns ((n.id, n.parent_id) ∷ acc))

lookup-push_all :
    (id : Text) (ns : List DepartmentNode) (acc : Parents)
    → fresh_all ns acc ≡ true
    → lookup id (push_all ns acc) ≡ or_else (lookup id (entries ns)) (lookup id acc)
unfolding fresh_all push_all lookup or_else
lookup-push_all id [] acc f = refl
lookup-push_all id (n ∷ ns) acc f = ground (
  arith,
  lookup-push_all id ns ((n.id, n.parent_id) ∷ acc),
  fresh_all-skips id ns ((n.id, n.parent_id) ∷ acc),
  is_none-lookup id ns,
)

roots-push_all :
    (ns : List DepartmentNode) (acc : Parents)
    → length (roots (push_all ns acc)) ≡ length (roots (entries ns)) + length (roots acc)
unfolding push_all roots
roots-push_all [] acc = omega arith
roots-push_all (n ∷ ns) acc = ground (arith, roots-push_all ns ((n.id, n.parent_id) ∷ acc))

all-push_all :
    (q : Text × Option Text → Bool) (ns : List DepartmentNode) (acc : Parents)
    → all q (push_all ns acc) ≡ (all q (entries ns) && all q acc)
unfolding push_all
all-push_all q [] acc = refl
all-push_all q (n ∷ ns) acc = ground (arith, all-push_all q ns ((n.id, n.parent_id) ∷ acc))

fresh_all-Distinct :
    (ns : List DepartmentNode) (acc : Parents) → fresh_all ns acc ≡ true → Distinct (ids ns)
unfolding fresh_all lookup
fresh_all-Distinct [] acc f = tt
fresh_all-Distinct (n ∷ ns) acc f =
    let rest : fresh_all ns ((n.id, n.parent_id) ∷ acc) ≡ true = ground arith in
    (
      fresh_all-skips n.id ns ((n.id, n.parent_id) ∷ acc) rest (rw (text_eq_refl n.id)),
      fresh_all-Distinct ns ((n.id, n.parent_id) ∷ acc) rest,
    )

Distinct-fresh_all :
    (ns : List DepartmentNode) (acc : Parents)
    → Distinct (ids ns)
    → ((id : Text) → contains_text (ids ns) id ≡ true → is_none (lookup id acc) ≡ true)
    → fresh_all ns acc ≡ true
unfolding fresh_all lookup
Distinct-fresh_all [] acc d h = refl
Distinct-fresh_all (n ∷ ns) acc (new, d) h = ground (
  arith,
  h n.id (rw (text_eq_refl n.id)),
  Distinct-fresh_all ns ((n.id, n.parent_id) ∷ acc) d later,
)
  where
    later :
        (id : Text)
        → contains_text (ids ns) id ≡ true
        → is_none (lookup id ((n.id, n.parent_id) ∷ acc)) ≡ true
    later id c = elim (Bool-cases (text_eq n.id id)) [
      | inl e ↦ absurd (
          ground (
            arith,
            subst (λ (t : Text). contains_text (ids ns) t ≡ false) ((text_eq_iff n.id id).0 e) new,
            c,
          ))
      | inr e ↦ rw e (h id (rw (e, c)))
    ]

-- Climbing and the membership checks see the map through `lookup` alone.
climb-ext :
    (ps qs : Parents)
    → ((id : Text) → lookup id ps ≡ lookup id qs)
    → (left : ℕ) (c : Option Text) → climb left ps c ≡ climb left qs c
unfolding climb
climb-ext ps qs h zero none = refl
climb-ext ps qs h zero (some id) = refl
climb-ext ps qs h (suc left) none = refl
climb-ext ps qs h (suc left) (some id) = elim (Option-cases (lookup id qs)) [
  | inl e ↦ ground (arith, e, h id)
  | inr (p, e) ↦ ground (arith, e, h id, climb-ext ps qs h left p)
]

members_ok-ext :
    (ps qs : Parents)
    → ((id : Text) → lookup id ps ≡ lookup id qs)
    → (seen ms : List Text) → members_ok ps seen ms ≡ members_ok qs seen ms
unfolding members_ok
members_ok-ext ps qs h seen [] = refl
members_ok-ext ps qs h seen (id ∷ ms) = rw (h id, members_ok-ext ps qs h (id ∷ seen) ms)

all-climb-ext :
    (ps qs : Parents)
    → ((id : Text) → lookup id ps ≡ lookup id qs)
    → (left : ℕ) (es : Parents)
    → all (λ e. climb left ps (some e.0)) es ≡ all (λ e. climb left qs (some e.0)) es
all-climb-ext ps qs h left [] = refl
all-climb-ext ps qs h left (e ∷ es) =
    rw (climb-ext ps qs h left (some e.0), all-climb-ext ps qs h left es)

or_else-none {ℓ} : {A : Type ℓ} (o : Option A) → or_else o none ≡ o
unfolding or_else
or_else-none none = refl
or_else-none (some a) = refl

lookup-push_all_nil :
    (ns : List DepartmentNode)
    → fresh_all ns [] ≡ true
    → (id : Text) → lookup id (push_all ns []) ≡ lookup id (entries ns)
lookup-push_all_nil ns f id =
    lookup-push_all id ns [] f ∙ unfold lookup in or_else-none (lookup id (entries ns))

roots_count-push_all :
    (ns : List DepartmentNode) → length (roots (push_all ns [])) ≡ length (roots (entries ns))
unfolding roots
roots_count-push_all ns = omega (arith, roots-push_all ns [])

tree_ok-push_all :
    (ns : List DepartmentNode) (ms : List Text)
    → fresh_all ns [] ≡ true
    → tree_ok (push_all ns []) ms ≡ tree_ok (entries ns) ms
unfolding tree_ok
tree_ok-push_all ns ms f =
    let same = lookup-push_all_nil ns f in
    ground (
      arith,
      roots_count-push_all ns,
      all-climb-ext (push_all ns []) (entries ns) same max_depth (push_all ns []),
      all-push_all (λ e. climb max_depth (entries ns) (some e.0)) ns [],
      members_ok-ext (push_all ns []) (entries ns) same [] ms,
    )

-- The map is built exactly if no node is given twice, and the checks on it are then those on the
-- nodes as they were given.
pub insert_all-tree_ok :
    (ns : List DepartmentNode) (ps : Parents) (ms : List Text)
    → insert_all ns [] ≡ some ps
    → Distinct (ids ns) × (tree_ok ps ms ≡ tree_ok (entries ns) ms)
insert_all-tree_ok ns ps ms h = elim (Bool-cases (fresh_all ns [])) [
  | inl f ↦ (
    fresh_all-Distinct ns [] f,
    subst (λ (qs : Parents). tree_ok qs ms ≡ tree_ok (entries ns) ms)
        (ground (arith, insert_all-eq ns [], f, h)) (tree_ok-push_all ns ms f),
  )
  | inr f ↦ absurd (ground (arith, insert_all-eq ns [], f, h))
]

pub insert_all-total :
    (ns : List DepartmentNode) → Distinct (ids ns) → (ps : Parents) × (insert_all ns [] ≡ some ps)
unfolding lookup
insert_all-total ns d =
    (push_all ns [], rw (insert_all-eq ns [], Distinct-fresh_all ns [] d (λ id _. refl)))
