-- ===== src/Directory/Filter/Moves.antt =====
-- How the reads of a condition's parts move the filter parser.
use rss_identity.Common.{
  ℕ, zero, suc, ◌+◌, ◌≤◌, ◌<◌, ◌≡◌, refl, inl, inr, true, false, some, List, [], ◌∷◌, arith, ltb,
  if◌then◌else◌, Bool-cases, length, err, map_err,
}
use rss_identity.Common.Text.{Text, codes, contains_text, text_eq_refl}
use rss_identity.Directory.Value.{value}
use rss_identity.Directory.Filter.{
  invalid, State, eat, read_value, span_name, find_operator, read_set, read_operand,
}
use rss_identity.Directory.Filter.Spec.{is_set_operator}
use rss_identity.Directory.Filter.Ensures.{
  Ensures, Ensures-option, Ensures-weaken, Ensures-bind, Ensures-after, lift-ne_out, lift-eq-ok,
  eat-IsEaten, length-value,
}

-- A later state with no more text, the same nodes and so many more set items
pub record Moves (s t : State) (nodes items : ℕ) : Type 0 where
  pub shorter : length t.rest ≤ length s.rest
  pub more_nodes : t.nodes ≡ s.nodes + nodes
  pub more_items : t.set_items ≡ s.set_items + items

pub Moves-trans :
    {s t u : State} {m n i j : ℕ} → Moves s t m i → Moves t u n j → Moves s u (m + n) (i + j)
Moves-trans a b = record {
  shorter = omega (arith, a.shorter, b.shorter);
  more_nodes = omega (arith, a.more_nodes, b.more_nodes);
  more_items = omega (arith, a.more_items, b.more_items);
}

pub eat-Moves : (text : Text) (s t : State) → eat text s ≡ some t → Moves s t 0 0
eat-Moves text s t e =
    let k = eat-IsEaten text s t e in
    record {
      shorter = omega (arith, k.shorter);
      more_nodes = omega (arith, k.same_nodes);
      more_items = omega (arith, k.same_items);
    }

read_value-Moves : (s : State) → Ensures (read_value s) (λ v t. Moves s t 0 0)
unfolding read_value
read_value-Moves s =
    Ensures-after (map_err (value s.rest) (λ _. invalid)) _ _ (lift-ne_out (value s.rest))
      (λ (v, rest) e. record {
        shorter = length-value s.rest v rest (lift-eq-ok (value s.rest) (v, rest) e);
        more_nodes = omega arith;
        more_items = omega arith;
      })

-- The values of a set: 1 to so many, all counted.
record IsReadSet (left : ℕ) (s : State) (vs : List Text) (t : State) : Type 0 where
  moves : Moves s t 0 (length vs)
  some_value : 0 < length vs
  few_values : length vs ≤ left
  within : t.set_items ≤ 256

pub Moves-eq : {s t : State} {m n i j : ℕ} → Moves s t m i → m ≡ n → i ≡ j → Moves s t n j
Moves-eq a e f = record {
  shorter = a.shorter;
  more_nodes = omega (arith, a.more_nodes, e);
  more_items = omega (arith, a.more_items, f);
}

-- The state with one more set item
abbrev counted : State → State
counted s = record s { set_items = s.set_items + 1 }

counted-Moves : (s : State) → Moves s (counted s) 0 1
counted-Moves s = record { shorter = omega arith; more_nodes = omega arith; more_items = refl }

-- The last value of a set, and one with more after it
last-IsReadSet :
    (left : ℕ) (s t : State) (v : Text)
    → s.set_items + 1 ≤ 256
    → Moves s t 0 1
    → IsReadSet (suc left) s (v ∷ []) t
last-IsReadSet left s t v room m = record {
  moves = m;
  some_value = omega arith;
  few_values = omega arith;
  within = omega (arith, m.more_items, room);
}

more-IsReadSet :
    (left : ℕ) (s t u : State) (v : Text) (vs : List Text)
    → Moves s t 0 1
    → IsReadSet left t vs u
    → IsReadSet (suc left) s (v ∷ vs) u
more-IsReadSet left s t u v vs m k = record {
  moves = Moves-eq (Moves-trans m k.moves) (omega arith) (omega arith);
  some_value = omega arith;
  few_values = omega (arith, k.few_values);
  within = k.within;
}

read_set-IsReadSet : (left : ℕ) (s : State) → Ensures (read_set left s) (IsReadSet left s)
unfolding read_set
read_set-IsReadSet zero s = tt
read_set-IsReadSet (suc left) s = elim (Bool-cases (ltb 256 (s.set_items + 1))) [
  | inl full ↦ rw full tt
  | inr room ↦ rw room (
      Ensures-bind (read_value (counted s)) _ _ (IsReadSet (suc left) s)
        (read_value-Moves (counted s))
        (λ v s1 m.
          Ensures-option (eat (codes ")") s1) _ _ (IsReadSet (suc left) s)
            (λ goes_on.
              Ensures-option (eat (codes ",") s1) (err invalid) _ (IsReadSet (suc left) s) (λ _. tt)
                (λ s2 e.
                  Ensures-bind (read_set left s2) _ _ (IsReadSet (suc left) s)
                    (read_set-IsReadSet left s2)
                    (λ vs s3 k. more-IsReadSet left s s2 s3 v vs (moved s1 s2 m (codes ",") e) k)))
            (λ s2 e.
              last-IsReadSet left s s2 v (ground (arith, room)) (moved s1 s2 m (codes ")") e))))
]
  where
    moved :
        (s1 s2 : State)
        → Moves (counted s) s1 0 0
        → (text : Text) → eat text s1 ≡ some s2
        → Moves s s2 0 1
    moved s1 s2 m text e =
        Moves-eq (Moves-trans (counted-Moves s) (Moves-trans m (eat-Moves text s1 s2 e)))
          (omega arith) (omega arith)

pub find_operator-Moves :
    (ops : List Text) (s : State)
    → Ensures (find_operator ops s) (λ op t. Moves s t 0 0 × (contains_text ops op ≡ true))
unfolding find_operator
find_operator-Moves [] s = tt
find_operator-Moves (op ∷ ops) s =
    Ensures-option (eat op s) (find_operator ops s) _ _
      (λ _.
        Ensures-weaken (find_operator ops s) _ _ (find_operator-Moves ops s)
          (λ found t (m, k). (m, ground (arith, k))))
      (λ t e. (eat-Moves op s t e, ground (arith, text_eq_refl op)))

pub record IsOperand (operator : Text) (s : State) (vs : List Text) (t : State) : Type 0 where
  pub moves : Moves s t 0 (if is_set_operator operator then length vs else 0)
  pub some_value : 0 < length vs
  pub few_values : length vs ≤ 64
  pub one_value : is_set_operator operator ≡ false → length vs ≡ 1
  pub within : s.set_items ≤ 256 → t.set_items ≤ 256

pub read_operand-IsOperand :
    (operator : Text) (s : State) → Ensures (read_operand operator s) (IsOperand operator s)
unfolding read_operand
read_operand-IsOperand operator s = elim (Bool-cases (is_set_operator operator)) [
  | inl set ↦ rw set (
      Ensures-option (eat (codes "(") s) _ _ (IsOperand operator s) (λ _. tt)
        (λ s1 e. Ensures-weaken (read_set 64 s1) _ _ (read_set-IsReadSet 64 s1) (λ vs t k. record {
          moves = rw set (
              Moves-eq (Moves-trans (eat-Moves (codes "(") s s1 e) k.moves) (omega arith)
                (omega arith));
          some_value = k.some_value;
          few_values = k.few_values;
          one_value = λ n. absurd (ground (arith, set, n));
          within = λ _. k.within;
        })))
  | inr single ↦ rw single (
      Ensures-bind (read_value s) _ _ (IsOperand operator s) (read_value-Moves s) (λ v t m. record {
        moves = rw single m;
        some_value = omega arith;
        few_values = omega arith;
        one_value = λ _. refl;
        within = λ h. omega (arith, m.more_items, h);
      }))
]

pub length-span_name : (s : Text) → length (span_name s).1 ≤ length s
unfolding span_name
length-span_name [] = omega arith
length-span_name (c ∷ s) = ground (arith, length-span_name s)

-- The state after a name
abbrev pub named : State → State
named s = record s { rest = (span_name s.rest).1 }
