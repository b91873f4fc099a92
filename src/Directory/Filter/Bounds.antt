-- ===== src/Directory/Filter/Bounds.antt =====
-- The filter parser ends on every text, and what it returns is within the budgets of the parser and
-- within the rules of the fields.
use rss_identity.Directory.Filter.{
  node, conjunction, parse_filter, expression, chain, and_all, or_any, invalid, out_of_fuel,
  Expression, Expressions, nil, cons, State, Read, eat, term, more,
}
use rss_identity.Common.{
  ℕ, zero, suc, ◌+◌, ◌*◌, ◌≤◌, ◌<◌, ◌≡◌, refl, subst, ◌⊎◌, inl, inr, ◌||◌, arith, ltb, Bool-cases,
  length, is_empty, ok, err, Result-cases,
}
use rss_identity.Common.Text.{Text, codes, len}
use rss_identity.Directory.Filter.Conditions.{node-Moves, node-ne_out, Reads, condition-Reads}
use rss_identity.Directory.Filter.Spec.{
  height, set_values, size, size_all, set_values_all, height_all, Conditions, ConditionsAll,
}
use rss_identity.Directory.Filter.Ensures.{
  Ensures-after, Ensures, Ensures-option, Ensures-bind, eat-IsEaten,
}
use rss_identity.Common.Url.{Parsers}
use rss_identity.Directory.Filter.Moves.{Moves, Moves-trans, Moves-eq, eat-Moves}

module _ (parsers : Parsers) where
  Reads-eaten :
      (levels : ℕ) (s t u : State) (e : Expression)
      → Moves s t 0 0
      → Reads parsers levels t e u
      → Reads parsers levels s e u
  Reads-eaten levels s t u e m r = record {
    moves = Moves-eq (Moves-trans m r.moves) (omega arith) (omega arith);
    nodes_within = λ h. r.nodes_within (omega (arith, m.more_nodes, h));
    items_within = λ h. r.items_within (omega (arith, m.more_items, h));
    conditions = r.conditions;
    bounded = r.bounded;
  }

  eaten-Reads :
      (levels : ℕ) (s t u : State) (e : Expression)
      → Reads parsers levels s e t
      → Moves t u 0 0
      → Reads parsers levels s e u
  eaten-Reads levels s t u e r m = record {
    moves = Moves-eq (Moves-trans r.moves m) (omega arith) (omega arith);
    nodes_within = λ h. omega (arith, m.more_nodes, r.nodes_within h);
    items_within = λ h. omega (arith, m.more_items, r.items_within h);
    conditions = r.conditions;
    bounded = r.bounded;
  }

  -- The same of the items after the first
  record ReadsAll (levels : ℕ) (s : State) (es : Expressions) (t : State) : Type 0 where
    moves : Moves s t (size_all es) (set_values_all es)
    nodes_within : s.nodes ≤ 128 → t.nodes ≤ 128
    items_within : s.set_items ≤ 256 → t.set_items ≤ 256
    conditions : ConditionsAll parsers es
    bounded : height_all es ≤ levels

  term-Reads :
      (levels : ℕ) (inner : State → Read Expression)
      → 1 ≤ levels
      → ((s : State) → Ensures (inner s) (Reads parsers levels s))
      → (s : State) → Ensures (term parsers inner s) (Reads parsers levels s)
  unfolding term
  term-Reads levels inner deep h s =
      Ensures-option (eat (codes "(") s) _ _ _ (λ _. condition-Reads parsers levels s deep)
        (λ s1 e. Ensures-bind (inner s1) _ _ _ (h s1) (λ x s2 r.
          Ensures-option (eat (codes ")") s2) (err invalid) _ _ (λ _. tt)
            (λ s3 f.
              eaten-Reads levels s s2 s3 x
                (Reads-eaten levels s s1 s2 x (eat-Moves (codes "(") s s1 e) r)
                (eat-Moves (codes ")") s2 s3 f))))

  -- The first of more items, and the last
  one-ReadsAll :
      (levels : ℕ) (s t : State) (e : Expression)
      → Reads parsers levels s e t
      → ReadsAll levels s (cons e nil) t
  unfolding Conditions size_all set_values_all height_all
  one-ReadsAll levels s t e r = record {
    moves = Moves-eq r.moves (omega arith) (omega arith);
    nodes_within = r.nodes_within;
    items_within = r.items_within;
    conditions = (r.conditions, tt);
    bounded = omega (arith, r.bounded);
  }

  cons-ReadsAll :
      (levels : ℕ) (s t u : State) (e : Expression) (es : Expressions)
      → Reads parsers levels s e t
      → ReadsAll levels t es u
      → ReadsAll levels s (cons e es) u
  unfolding Conditions size_all set_values_all height_all
  cons-ReadsAll levels s t u e es r a = record {
    moves = Moves-trans r.moves a.moves;
    nodes_within = λ h. a.nodes_within (r.nodes_within h);
    items_within = λ h. a.items_within (r.items_within h);
    conditions = (r.conditions, a.conditions);
    bounded = omega (arith, r.bounded, a.bounded);
  }

  more-ReadsAll :
      (levels fuel : ℕ) (separator : Text) (item : State → Read Expression)
      → 0 < length separator
      → ((s : State) → Ensures (item s) (Reads parsers levels s))
      → (s : State) → length s.rest < fuel
      → Ensures (more fuel separator item s) (ReadsAll levels s)
  unfolding more
  more-ReadsAll levels zero separator item sep h s lt = absurd (omega arith)
  more-ReadsAll levels (suc fuel) separator item sep h s lt =
      Ensures-bind (item s) _ _ _ (h s) (λ e s1 r.
        Ensures-option (eat separator s1) _ _ _ (λ _. one-ReadsAll levels s s1 e r)
          (λ s2 f.
            let k = eat-IsEaten separator s1 s2 f in
            Ensures-bind (more fuel separator item s2) _ _ _
              (more-ReadsAll levels fuel separator item sep h s2
                (omega (arith, k.shorter, r.moves.shorter, sep, lt)))
              (λ es s3 a.
                cons-ReadsAll levels s s2 s3 e es
                  (eaten-Reads levels s s1 s2 e r (eat-Moves separator s1 s2 f)) a)))

  -- A connective adds one node and one level to its items.
  record IsConnective (build : Expressions → Expression) : Type 0 where
    sized : (es : Expressions) → size (build es) ≡ 1 + size_all es
    valued : (es : Expressions) → set_values (build es) ≡ set_values_all es
    levelled : (es : Expressions) → height (build es) ≡ 1 + height_all es
    conditional : (es : Expressions) → ConditionsAll parsers es → Conditions parsers (build es)

  and_all-IsConnective : IsConnective and_all
  unfolding size set_values height Conditions
  and_all-IsConnective = record {
    sized = λ es. refl;
    valued = λ es. refl;
    levelled = λ es. refl;
    conditional = λ es h. h;
  }

  or_any-IsConnective : IsConnective or_any
  unfolding size set_values height Conditions
  or_any-IsConnective = record {
    sized = λ es. refl;
    valued = λ es. refl;
    levelled = λ es. refl;
    conditional = λ es h. h;
  }

  weaken-Reads :
      (levels : ℕ) (s t : State) (e : Expression)
      → Reads parsers levels s e t
      → Reads parsers (suc levels) s e t
  weaken-Reads levels s t e r = record {
    moves = r.moves;
    nodes_within = r.nodes_within;
    items_within = r.items_within;
    conditions = r.conditions;
    bounded = omega (arith, r.bounded);
  }

  build-Reads :
      (levels : ℕ) (build : Expressions → Expression) (s s1 s2 s3 t : State) (e : Expression)
      (es : Expressions)
      → IsConnective build
      → Reads parsers levels s e s1
      → Moves s1 s2 0 0
      → Moves s2 s3 1 0 × (s3.nodes ≤ 128)
      → ReadsAll levels s3 es t
      → Reads parsers (suc levels) s (build (cons e es)) t
  unfolding size_all set_values_all height_all Conditions
  build-Reads levels build s s1 s2 s3 t e es c r m (n, within) a = record {
    moves =
        Moves-eq (Moves-trans r.moves (Moves-trans m (Moves-trans n a.moves)))
          (omega (arith, c.sized (cons e es))) (omega (arith, c.valued (cons e es)));
    nodes_within = λ _. a.nodes_within within;
    items_within =
        λ h. a.items_within (omega (arith, n.more_items, m.more_items, r.items_within h));
    conditions = c.conditional (cons e es) (r.conditions, a.conditions);
    bounded = omega (arith, c.levelled (cons e es), r.bounded, a.bounded);
  }

  chain-Reads :
      (levels : ℕ) (separator : Text) (build : Expressions → Expression)
      (item : State → Read Expression)
      → 0 < length separator
      → IsConnective build
      → ((s : State) → Ensures (item s) (Reads parsers levels s))
      → (s : State) → Ensures (chain separator build item s) (Reads parsers (suc levels) s)
  unfolding chain
  chain-Reads levels separator build item sep c h s = Ensures-bind (item s) _ _ _ (h s) (λ e s1 r.
      Ensures-option (eat separator s1) _ _ _ (λ _. weaken-Reads levels s s1 e r)
        (λ s2 f. Ensures-after (node s2) _ _ (node-ne_out s2) (λ s3 n.
          Ensures-bind (more (suc (length s3.rest)) separator item s3) _ _ _
            (more-ReadsAll levels (suc (length s3.rest)) separator item sep h s3 (omega arith))
            (λ es t a.
              build-Reads levels build s s1 s2 s3 t e es c r (eat-Moves separator s1 s2 f)
                (node-Moves s2 s3 n) a))))

  expression-Reads :
      (levels : ℕ) (s : State)
      → Ensures (expression parsers levels s) (Reads parsers (2 * levels + 1) s)
  unfolding expression conjunction
  expression-Reads zero s = tt
  expression-Reads (suc levels) s =
      let deepest : 2 * suc levels + 1 ≡ suc (suc (2 * levels + 1)) = omega arith in
      rw deepest (
        chain-Reads (suc (2 * levels + 1)) (codes ",") or_any _ (omega arith) or_any-IsConnective
          (chain-Reads (2 * levels + 1) (codes ";") and_all _ (omega arith) and_all-IsConnective (
            term-Reads (2 * levels + 1) (expression parsers levels) (omega arith)
              (expression-Reads levels)))
          s)

  abbrev start : Text → State
  start raw = record { rest = raw; nodes = 0; set_items = 0 }

  -- The parser ends on every text: it returns an expression or says that the text is invalid, and
  -- the passes that its loops are given are enough.
  pub parse_filter_total :
      (raw : Text)
      → ((e : Expression) × (parse_filter parsers raw ≡ ok e))
        ⊎ (parse_filter parsers raw ≡ err invalid)
  unfolding parse_filter
  parse_filter_total raw = elim (Bool-cases (is_empty raw || ltb 8192 (len raw))) [
    | inl refused ↦ inr (ground (arith, refused))
    | inr fits ↦ elim (Result-cases (expression parsers 17 (start raw))) [
      | inl ((e, s), p) ↦ elim (Bool-cases (is_empty s.rest)) [
        | inl read ↦ inl (e, ground (arith, fits, p, read))
        | inr left ↦ inr (ground (arith, fits, p, left))
      ]
      | inr (invalid, p) ↦ inr (ground (arith, fits, p))
      | inr (out_of_fuel, p) ↦ absurd (
          subst (λ r. Ensures r (Reads parsers 35 (start raw))) p (expression-Reads 17 (start raw)))
    ]
  ]

  parsed-Reads :
      (raw : Text) (e : Expression)
      → parse_filter parsers raw ≡ ok e
      → (t : State) × Reads parsers 35 (start raw) e t
  unfolding parse_filter
  parsed-Reads raw e h = elim (Result-cases (expression parsers 17 (start raw))) [
    | inr (x, p) ↦ absurd (ground (arith, h, p))
    | inl ((e', s), p) ↦
        let same : e' ≡ e = ground (arith, h, p) in
        (
          s,
          subst (λ x. Reads parsers 35 (start raw) x s) same
              (subst (λ r. Ensures r (Reads parsers 35 (start raw))) p
                (expression-Reads 17 (start raw))),
        )
  ]

-- The budgets and rules that an accepted filter is within
pub record IsFilter (parsers : Parsers) (e : Expression) : Type 0 where
  pub few_nodes : size e ≤ 128
  pub few_values : set_values e ≤ 256
  pub shallow : height e ≤ 35
  pub conditions : Conditions parsers e

-- An accepted filter has at most 128 conditions and connectives and at most 256 values in sets, is at
-- most 35 levels high, and every condition in it is one that its field allows.
pub parse_filter-IsFilter :
    (parsers : Parsers) (raw : Text) (e : Expression)
    → parse_filter parsers raw ≡ ok e
    → IsFilter parsers e
parse_filter-IsFilter parsers raw e h =
    let (t, r) = parsed-Reads parsers raw e h in
    record {
      few_nodes = omega (arith, r.moves.more_nodes, r.nodes_within (omega arith));
      few_values = omega (arith, r.moves.more_items, r.items_within (omega arith));
      shallow = r.bounded;
      conditions = r.conditions;
    }
