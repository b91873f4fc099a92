-- ===== src/Department/Tree.antt =====
-- What climbing the parents of every node establishes.
use rss_identity.Common.{
  ℕ, zero, suc, ◌≤◌, ◌<◌, ◌≡◌, refl, sym, subst, ◌∙◌, inl, inr, true, none, some, List, [], ◌∷◌,
  arith, Option-cases, length,
}
use rss_identity.Common.Text.{Text, contains_text, text_eq_iff}
use rss_identity.Department.{Parents, lookup, roots, climb}

-- The node is `n - 1` parents below the root.
pub data Chain (parents : Parents) (root : Text) : ℕ → Text → Type 0 where
  at_root :
      {n : ℕ} {id : Text}
      → n ≡ 1
      → id ≡ root
      → lookup id parents ≡ some none
      → Chain parents root n id
  above :
      {n : ℕ} {id parent : Text}
      → lookup id parents ≡ some (some parent)
      → Chain parents root n parent
      → Chain parents root (suc n) id

-- A node and one of its ancestors.
pub data Ancestor (parents : Parents) : Text → Text → Type 0 where
  direct : {id parent : Text} → lookup id parents ≡ some (some parent) → Ancestor parents id parent
  further :
      {id parent top : Text}
      → lookup id parents ≡ some (some parent)
      → Ancestor parents parent top
      → Ancestor parents id top

abbrev pub Reaches : Parents → ℕ → Text → Type 0
Reaches parents left id = (root : Text) × (n : ℕ) × Chain parents root n id × (n ≤ left)

pub climb-Reaches :
    (left : ℕ) (parents : Parents) (id : Text)
    → climb left parents (some id) ≡ true
    → Reaches parents left id
unfolding climb
climb-Reaches zero parents id h = cc
climb-Reaches (suc left) parents id h = elim (Option-cases (lookup id parents)) [
  | inl e ↦ absurd (ground (arith, e, h))
  | inr (none, e) ↦ (id, 1, at_root refl refl e, omega arith)
  | inr (some parent, e) ↦
      let (root, n, c, le) = climb-Reaches left parents parent (ground (arith, e, h)) in
      (root, suc n, above e c, omega arith)
]

pub Chain-climb :
    (left n : ℕ) (parents : Parents) (root id : Text)
    → Chain parents root n id
    → n ≤ left
    → climb left parents (some id) ≡ true
unfolding climb
Chain-climb zero n parents root id (at_root m _ e) h = absurd (omega arith)
Chain-climb zero n parents root id (above {n = m} e c) h = absurd (omega arith)
Chain-climb (suc zero) n parents root id (at_root m _ e) h = rw (e, climb)
Chain-climb (suc (suc left)) n parents root id (at_root m _ e) h = rw (e, climb)
Chain-climb (suc left) n parents root id (above {n = m} {parent = p} e c) h =
    rw (e, climb) (Chain-climb left m parents root p c (omega arith))

-- Depth and root are functions of the node.
Chain-unique :
    {parents : Parents} {r s : Text} {m n : ℕ} {id : Text}
    → Chain parents r m id
    → Chain parents s n id
    → (m ≡ n) × (r ≡ s)
Chain-unique (at_root m e f) (at_root n g h) = (cc, cc)
Chain-unique (at_root m e f) (above g d) = absurd (ground (arith, f, g))
Chain-unique (above f c) (at_root n g h) = absurd (ground (arith, f, h))
Chain-unique {parents = ps} {s = s} (above {parent = p} f c) (above {n = n} {parent = q} g d) =
    let e : q ≡ p = ground (arith, f, g) in
    let (same_depth, same_root) = Chain-unique c (subst (Chain ps s n) e d) in
    (omega (arith, same_depth), same_root)

-- An ancestor is nearer to the root.
Ancestor-lt :
    {parents : Parents} {r s : Text} {m n : ℕ} {id top : Text}
    → Ancestor parents id top
    → Chain parents r m id
    → Chain parents s n top
    → n < m
Ancestor-lt (direct e) (at_root _ _ f) d = absurd (ground (arith, e, f))
Ancestor-lt {parents = ps} {r = r} (direct {parent = p} e) (above {n = k} {parent = q} f c) d =
    let same : q ≡ p = ground (arith, e, f) in
    omega (arith, (Chain-unique (subst (Chain ps r k) same c) d).0)
Ancestor-lt (further e a) (at_root _ _ f) d = absurd (ground (arith, e, f))
Ancestor-lt {parents = ps} {r = r} (further {parent = p} e a) (above {n = k} {parent = q} f c) d =
    let same : q ≡ p = ground (arith, e, f) in
    omega (arith, Ancestor-lt a (subst (Chain ps r k) same c) d)

pub not-Ancestor_self :
    {n : ℕ} {parents : Parents} {root id : Text}
    → Chain parents root n id
    → ¬ Ancestor parents id id
not-Ancestor_self c a = absurd (omega (arith, Ancestor-lt a c c))

pub contains_text-roots :
    (parents : Parents) (id : Text)
    → lookup id parents ≡ some none
    → contains_text (roots parents) id ≡ true
unfolding lookup roots
contains_text-roots [] id h = cc
contains_text-roots ((key, none) ∷ rest) id h = ground (arith, contains_text-roots rest id)
contains_text-roots ((key, some p) ∷ rest) id h = ground (arith, contains_text-roots rest id)

Chain-root :
    {parents : Parents} {root : Text} {n : ℕ} {id : Text}
    → Chain parents root n id
    → lookup root parents ≡ some none
Chain-root (at_root _ same e) = rw (← same) e
Chain-root (above _ c) = Chain-root c

eq_of_single :
    (rs : List Text) (a b : Text)
    → length rs ≡ 1
    → contains_text rs a ≡ true
    → contains_text rs b ≡ true
    → a ≡ b
eq_of_single [] a b l h k = cc
eq_of_single (r ∷ []) a b l h k =
    sym ((text_eq_iff r a).0 (ground (arith, h))) ∙ (text_eq_iff r b).0 (ground (arith, k))
eq_of_single (r ∷ s ∷ rs) a b l h k = absurd (omega arith)

-- With one root, all chains end there.
pub Chain-same_root :
    {m n : ℕ} {parents : Parents} {r s a b : Text}
    → length (roots parents) ≡ 1
    → Chain parents r m a
    → Chain parents s n b
    → r ≡ s
Chain-same_root {parents = ps} {r = r} {s = s} l c d =
    eq_of_single (roots ps) r s l (contains_text-roots ps r (Chain-root c))
      (contains_text-roots ps s (Chain-root d))
