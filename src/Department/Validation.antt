-- ===== src/Department/Validation.antt =====
-- A snapshot is accepted exactly if it is one bounded tree with distinct, known memberships.
use rss_identity.Common.{
  ℕ, ◌≤◌, ◌≡◌, refl, sym, subst, ◌∙◌, ◌↔◌, inl, inr, true, false, some, List, [], ◌∷◌, arith,
  Option-cases, length, all, is_empty, All, ok, is_ok,
}
use rss_identity.Common.Text.{Text, contains_text}
use rss_identity.Department.{
  DepartmentNode, DepartmentSnapshot, Parents, insert_all, roots, climb, max_depth, tree_ok, new_id,
  new_snapshot,
}
use rss_identity.Department.Map.{entries, ids, Distinct, insert_all-tree_ok, insert_all-total}
use rss_identity.Department.Members.{members_ok-All, members_ok-Distinct, All-members_ok}
use rss_identity.Department.Tree.{
  Reaches, Chain, Ancestor, climb-Reaches, Chain-climb, not-Ancestor_self, Chain-same_root,
}

-- What the documents ask of a snapshot.
pub record IsTree (nodes : List DepartmentNode) (memberships : List Text) : Type 0 where
  pub some_node : is_empty nodes ≡ false
  pub few_nodes : length nodes ≤ 256
  pub few_memberships : length memberships ≤ 16
  pub distinct : Distinct (ids nodes)
  pub one_root : length (roots (entries nodes)) ≡ 1
  pub shallow : All (λ n. Reaches (entries nodes) max_depth n) (ids nodes)
  pub known : All (λ m. contains_text (ids nodes) m ≡ true) memberships
  pub distinct_memberships : Distinct memberships

all-climb-All :
    (ps : Parents) (left : ℕ) (ns : List DepartmentNode)
    → all (λ e. climb left ps (some e.0)) (entries ns) ≡ true
    → All (λ n. Reaches ps left n) (ids ns)
all-climb-All ps left [] h = tt
all-climb-All ps left (n ∷ ns) h =
    (climb-Reaches left ps n.id (ground arith), all-climb-All ps left ns (ground arith))

All-all-climb :
    (ps : Parents) (left : ℕ) (ns : List DepartmentNode)
    → All (λ n. Reaches ps left n) (ids ns)
    → all (λ e. climb left ps (some e.0)) (entries ns) ≡ true
All-all-climb ps left [] h = refl
All-all-climb ps left (n ∷ ns) ((root, d, c, le), hs) =
    rw (Chain-climb left d ps root n.id c le) (All-all-climb ps left ns hs)

tree_ok_iff :
    (nodes : List DepartmentNode) (ms : List Text)
    → (tree_ok (entries nodes) ms ≡ true) ↔ (
        (length (roots (entries nodes)) ≡ 1)
        × All (λ n. Reaches (entries nodes) max_depth n) (ids nodes)
        × All (λ m. contains_text (ids nodes) m ≡ true) ms
        × Distinct ms)
unfolding tree_ok
tree_ok_iff nodes ms = (
  (λ h. (
    ground arith,
    all-climb-All (entries nodes) max_depth nodes (ground arith),
    members_ok-All nodes [] ms (ground arith),
    members_ok-Distinct (entries nodes) [] ms (ground arith),
  )),
  (λ t. ground (
    arith,
    t.0,
    All-all-climb (entries nodes) max_depth nodes t.1,
    All-members_ok nodes [] ms t.2 t.3 (λ s _. refl),
  )),
)

id_ok : (v : Text) → is_ok (new_id v) ≡ true → new_id v ≡ ok v
unfolding new_id
id_ok v h = ground arith

abbrev snapshot : Text → List DepartmentNode → List Text → DepartmentSnapshot
snapshot revision nodes ms = record {
  version = 1;
  source_revision = revision;
  nodes = nodes;
  memberships = ms;
}

new_snapshot-parts :
    (revision : Text) (nodes : List DepartmentNode) (ms : List Text) (s : DepartmentSnapshot)
    → new_snapshot revision nodes ms ≡ ok s
    → (is_empty nodes ≡ false)
      × (length nodes ≤ 256)
      × (length ms ≤ 16)
      × (is_ok (new_id revision) ≡ true)
      × ((ps : Parents) × (insert_all nodes [] ≡ some ps) × (tree_ok ps ms ≡ true))
unfolding new_snapshot
new_snapshot-parts revision nodes ms s h = elim (Option-cases (insert_all nodes [])) [
  | inl e ↦ absurd (ground (arith, e, h))
  | inr (ps, e) ↦
      (ground arith, ground arith, ground arith, ground arith, (ps, e, ground (arith, e, h)))
]

accepted-IsTree :
    (revision : Text) (nodes : List DepartmentNode) (ms : List Text) {s : DepartmentSnapshot}
    → new_snapshot revision nodes ms ≡ ok s
    → (new_id revision ≡ ok revision) × IsTree nodes ms
accepted-IsTree revision nodes ms {s} h =
    let (some_node, few, few_ms, rev, (ps, e, t)) = new_snapshot-parts revision nodes ms s h in
    let (d, same) = insert_all-tree_ok nodes ps ms e in
    let (one, deep, known, distinct) = (tree_ok_iff nodes ms).0 (sym same ∙ t) in
    (
      id_ok revision rev,
      record {
        some_node = some_node;
        few_nodes = few;
        few_memberships = few_ms;
        distinct = d;
        one_root = one;
        shallow = deep;
        known = known;
        distinct_memberships = distinct;
      },
    )

IsTree-accepted :
    (revision : Text) (nodes : List DepartmentNode) (ms : List Text)
    → (new_id revision ≡ ok revision) × IsTree nodes ms
    → new_snapshot revision nodes ms ≡ ok (snapshot revision nodes ms)
unfolding new_snapshot
IsTree-accepted revision nodes ms (rev, t) =
    let (ps, e) = insert_all-total nodes t.distinct in
    let good : tree_ok (entries nodes) ms ≡ true =
      (tree_ok_iff nodes ms).1 (t.one_root, t.shallow, t.known, t.distinct_memberships) in
    ground (
      arith,
      e,
      rev,
      t.some_node,
      t.few_nodes,
      t.few_memberships,
      good,
      (insert_all-tree_ok nodes ps ms e).1,
    )

-- A snapshot is accepted, as it was given and under version 1, exactly if its revision is a valid
-- identifier and its nodes form one bounded tree: 1 to 256 nodes with distinct identifiers, exactly
-- one root, every node at most sixteen levels deep, and at most 16 memberships that are distinct
-- nodes of the tree.
pub new_snapshot_iff :
    (revision : Text) (nodes : List DepartmentNode) (ms : List Text)
    → (new_snapshot revision nodes ms
        ≡ ok (record { version = 1; source_revision = revision; nodes = nodes; memberships = ms }))
      ↔ ((new_id revision ≡ ok revision) × IsTree nodes ms)
new_snapshot_iff revision nodes ms =
    (accepted-IsTree revision nodes ms, IsTree-accepted revision nodes ms)

-- A place in the tree of the given root.
abbrev pub IsPlaced : Parents → Text → Text → Type 0
IsPlaced ps root id = ((n : ℕ) × Chain ps root n id × (n ≤ max_depth)) × ¬ Ancestor ps id id

rooted :
    (ps : Parents) (root a : Text) (m : ℕ) (l : List Text)
    → length (roots ps) ≡ 1
    → Chain ps root m a
    → All (λ n. Reaches ps max_depth n) l
    → All (IsPlaced ps root) l
rooted ps root a m [] one c h = tt
rooted ps root a m (id ∷ l) one c ((r, n, d, le), hs) =
    let here : Chain ps root n id =
      subst (λ (t : Text). Chain ps t n id) (Chain-same_root one d c) d in
    (((n, here, le), not-Ancestor_self here), rooted ps root a m l one c hs)

one_tree :
    (ps : Parents) (nodes : List DepartmentNode)
    → is_empty nodes ≡ false
    → length (roots ps) ≡ 1
    → All (λ n. Reaches ps max_depth n) (ids nodes)
    → (root : Text) × All (IsPlaced ps root) (ids nodes)
one_tree ps [] e one h = cc
one_tree ps (node ∷ nodes) e one h =
    let (root, m, c, le) = h.0 in (root, rooted ps root node.id m (node.id ∷ ids nodes) one c h)

-- In an accepted snapshot all nodes hang under one root, at most sixteen levels deep, and no node is
-- its own ancestor.
pub new_snapshot-one_tree :
    (revision : Text) (nodes : List DepartmentNode) (ms : List Text) (s : DepartmentSnapshot)
    → new_snapshot revision nodes ms ≡ ok s
    → (root : Text) × All (IsPlaced (entries nodes) root) (ids nodes)
new_snapshot-one_tree revision nodes ms s h =
    let t = (accepted-IsTree revision nodes ms h).1 in
    one_tree (entries nodes) nodes t.some_node t.one_root t.shallow
