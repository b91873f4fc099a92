-- ===== src/Directory/Filter/Conditions.antt =====
-- What one condition of a filter does to the parser, and what it guarantees.
use rss_identity.Common.{
  ℕ, ◌+◌, ◌≤◌, ◌≡◌, refl, subst, inl, inr, true, false, List, arith, ltb, Bool-cases, ok, err,
  reject_if, map_err,
}
use rss_identity.Common.Text.{Text, contains_text}
use rss_identity.Common.Url.{Parsers}
use rss_identity.Directory.Fields.{Field, parse}
use rss_identity.Directory.Filter.{
  Expression, compare_field, invalid, out_of_fuel, State, node, span_name, operators, find_operator,
  read_operand, refused, canonical, condition_body, condition,
}
use rss_identity.Directory.Filter.Spec.{size, set_values, height, Conditions}
use rss_identity.Directory.Filter.Ensures.{
  Ensures, Ensures-weaken, Ensures-bind, Ensures-after, lift-ne_out, reject-ne_out, reject-eq-ok,
}
use rss_identity.Directory.Filter.Moves.{
  Moves, Moves-trans, Moves-eq, find_operator-Moves, IsOperand, read_operand-IsOperand, named,
  length-span_name,
}
use rss_identity.Directory.Filter.Rules.{canonical-IsCondition, canonical_ne_out}

-- What one condition does to the state
pub record Reads (parsers : Parsers) (levels : ℕ) (s : State) (e : Expression) (t : State)
    : Type 0 where
  pub moves : Moves s t (size e) (set_values e)
  pub nodes_within : s.nodes ≤ 128 → t.nodes ≤ 128
  pub items_within : s.set_items ≤ 256 → t.set_items ≤ 256
  pub conditions : Conditions parsers e
  pub bounded : height e ≤ levels

-- A condition after its node is counted
record IsBody (parsers : Parsers) (s : State) (e : Expression) (t : State) : Type 0 where
  moves : Moves s t 0 (set_values e)
  items_within : s.set_items ≤ 256 → t.set_items ≤ 256
  conditions : Conditions parsers e
  one_node : size e ≡ 1
  one_level : height e ≡ 1

named-Moves : (s : State) → Moves s (named s) 0 0
named-Moves s = record {
  shorter = length-span_name s.rest;
  more_nodes = omega arith;
  more_items = omega arith;
}

operand-IsBody :
    (parsers : Parsers) (s s1 s2 : State) (field : Field) (operator : Text) (values vs : List Text)
    → Moves s s1 0 0
    → contains_text operators operator ≡ true
    → IsOperand operator s1 values s2
    → refused field operator values ≡ false
    → canonical parsers field values ≡ ok vs
    → IsBody parsers s (compare_field field operator vs) s2
unfolding set_values Conditions size height
operand-IsBody parsers s s1 s2 field operator values vs m k o r c =
    let (condition, l) =
      canonical-IsCondition parsers field operator values vs k o.some_value o.few_values o.one_value
        r c in
    record {
      moves = Moves-eq (Moves-trans m o.moves) refl (rw l (omega arith));
      items_within = λ h. o.within (omega (arith, m.more_items, h));
      conditions = condition;
      one_node = refl;
      one_level = refl;
    }

condition_body-IsBody :
    (parsers : Parsers) (s : State) → Ensures (condition_body parsers s) (IsBody parsers s)
unfolding condition_body
condition_body-IsBody parsers s =
    Ensures-after (map_err (parse (span_name s.rest).0) (λ _. invalid)) _ _
      (lift-ne_out (parse (span_name s.rest).0))
      (λ field _.
        Ensures-bind (find_operator operators (named s)) _ _ _
          (find_operator-Moves operators (named s))
          (λ operator s1 (m, k).
            Ensures-bind (read_operand operator s1) _ _ _ (read_operand-IsOperand operator s1)
              (λ values s2 o.
                Ensures-after (reject_if (refused field operator values) invalid) _ _
                  (reject-ne_out _)
                  (λ _ r.
                    Ensures-after (canonical parsers field values) _ _
                      (canonical_ne_out parsers field values)
                      (λ vs c.
                        operand-IsBody parsers s s1 s2 field operator values vs
                          (Moves-trans (named-Moves s) m) k o (reject-eq-ok _ _ r) c)))))

pub node-Moves : (s t : State) → node s ≡ ok t → Moves s t 1 0 × (t.nodes ≤ 128)
unfolding node
node-Moves s t e = elim (Bool-cases (ltb 128 (s.nodes + 1))) [
  | inl full ↦ absurd (ground (arith, e, full))
  | inr room ↦
      let same : record s { nodes = s.nodes + 1 } ≡ t = ground (arith, e, room) in
      subst (λ u. Moves s u 1 0 × (u.nodes ≤ 128)) same
        (
          record { shorter = omega arith; more_nodes = refl; more_items = omega arith },
          ground (arith, room),
        )
]

pub node-ne_out : (s : State) → ¬ node s ≡ err out_of_fuel
unfolding node
node-ne_out s e = ground (arith, e)

pub condition-Reads :
    (parsers : Parsers) (levels : ℕ) (s : State)
    → 1 ≤ levels
    → Ensures (condition parsers s) (Reads parsers levels s)
unfolding condition
condition-Reads parsers levels s deep = Ensures-after (node s) _ _ (node-ne_out s) (λ s1 n.
    Ensures-weaken (condition_body parsers s1) _ _ (condition_body-IsBody parsers s1) (λ e t b.
      let (m, within) = node-Moves s s1 n in
      record {
        moves = Moves-eq (Moves-trans m b.moves) (omega (arith, b.one_node)) (omega arith);
        nodes_within = λ _. omega (arith, within, b.moves.more_nodes);
        items_within = λ h. b.items_within (omega (arith, m.more_items, h));
        conditions = b.conditions;
        bounded = omega (arith, b.one_level, deep);
      }))
