-- ===== src/Directory/Filter/Ensures.antt =====
-- What every read of the filter parser ensures: it never runs out of fuel, and what it returns and
-- leaves meets a postcondition.
use rss_identity.Common.{
  ℕ, ◌+◌, ◌≤◌, ◌≡◌, refl, sym, subst, inl, inr, Bool, true, false, ◌&&◌, ◌||◌, Option, none, some,
  [], ◌∷◌, arith, ◌==◌, Bool-cases, Option-cases, is_none, length, Result, ok, err, ◌>>=◌,
  reject_if, map_err, bind-ok_parts,
}
use rss_identity.Common.Text.{Text}
use rss_identity.Directory.Value.{
  InvalidQuery, read, value, push, finish, escapable, ends_bare, refused_bare, is_quote,
}
use rss_identity.Directory.Filter.{Stop, invalid, out_of_fuel, State, Read, strip, eat}

abbrev pub Ensures : {A : Type 0} → Read A → (A → State → Type 0) → Type 0
Ensures (ok (a, s)) P = P a s
Ensures (err invalid) P = Unit {0}
Ensures (err out_of_fuel) P = ⊥

pub Ensures-bind :
    {A B : Type 0} (m : Read A) (f : A × State → Read B) (P : A → State → Type 0)
    (Q : B → State → Type 0)
    → Ensures m P
    → ((a : A) (s : State) → P a s → Ensures (f (a, s)) Q)
    → Ensures (m >>= f) Q
Ensures-bind (ok (a, s)) f P Q p h = h a s p
Ensures-bind (err invalid) f P Q p h = tt
Ensures-bind (err out_of_fuel) f P Q p h = p

-- A step that fails with invalid alone, before a read
pub Ensures-after :
    {A B : Type 0} (m : Result A Stop) (f : A → Read B) (Q : B → State → Type 0)
    → ¬ m ≡ err out_of_fuel
    → ((a : A) → m ≡ ok a → Ensures (f a) Q)
    → Ensures (m >>= f) Q
Ensures-after (ok a) f Q n h = h a refl
Ensures-after (err invalid) f Q n h = tt
Ensures-after (err out_of_fuel) f Q n h = n refl

pub Ensures-option :
    {A B : Type 0} (o : Option A) (n : Read B) (f : A → Read B) (Q : B → State → Type 0)
    → (o ≡ none → Ensures n Q)
    → ((a : A) → o ≡ some a → Ensures (f a) Q)
    → Ensures (elim o [ none ↦ n | some a ↦ f a ]) Q
Ensures-option none n f Q h k = h refl
Ensures-option (some a) n f Q h k = k a refl

pub Ensures-weaken :
    {A : Type 0} (m : Read A) (P Q : A → State → Type 0)
    → Ensures m P
    → ((a : A) (s : State) → P a s → Q a s)
    → Ensures m Q
Ensures-weaken (ok (a, s)) P Q p h = h a s p
Ensures-weaken (err invalid) P Q p h = tt
Ensures-weaken (err out_of_fuel) P Q p h = p

pub lift-ne_out {ι} :
    {A : Type 0} {E : Type ι} (r : Result A E) → ¬ map_err r (λ _. invalid) ≡ err out_of_fuel
lift-ne_out (ok a) e = cc
lift-ne_out (err x) e = cc

pub reject-ne_out : (b : Bool) → ¬ reject_if b invalid ≡ err out_of_fuel
reject-ne_out true e = cc
reject-ne_out false e = cc

pub reject-eq-ok : (b : Bool) (a : Unit {0}) → reject_if b invalid ≡ ok a → b ≡ false
reject-eq-ok true a e = cc
reject-eq-ok false a e = refl

pub lift-eq-ok {ι} :
    {A : Type 0} {E : Type ι} (r : Result A E) (a : A) → map_err r (λ _. invalid) ≡ ok a → r ≡ ok a
lift-eq-ok (ok b) a e = ground (arith, e)
lift-eq-ok (err x) a e = cc

length-strip :
    (text rest left : Text) → strip text rest ≡ some left → length left + length text ≡ length rest
unfolding strip
length-strip [] rest left e = ground (arith, e)
length-strip (c ∷ cs) [] left e = cc
length-strip (c ∷ cs) (d ∷ rest) left e = elim (Bool-cases (c == d)) [
  | inl same ↦ ground (arith, same, e, length-strip cs rest left)
  | inr other ↦ absurd (ground (arith, other, e))
]

-- The state after a text that was eaten
pub record IsEaten (text : Text) (s t : State) : Type 0 where
  pub shorter : length t.rest + length text ≡ length s.rest
  pub same_nodes : t.nodes ≡ s.nodes
  pub same_items : t.set_items ≡ s.set_items

pub eat-IsEaten : (text : Text) (s t : State) → eat text s ≡ some t → IsEaten text s t
unfolding eat
eat-IsEaten text s t e = elim (Option-cases (strip text s.rest)) [
  | inl n ↦ absurd (ground (arith, e, n))
  | inr (left, p) ↦
      let whole : t ≡ record s { rest = left } = ground (arith, e, p) in
      subst (IsEaten text s) (sym whole)
        (record { shorter = length-strip text s.rest left p; same_nodes = refl; same_items = refl })
]

-- Whatever a loop leaves after one character was pushed is within what it was given.
pushed_left :
    (v : Text) (c : ℕ) (loop : Text → Result (Text × Text) InvalidQuery) (n : ℕ) (w left : Text)
    → ((v' : Text) → loop v' ≡ ok (w, left) → length left ≤ n)
    → (push v c >>= loop) ≡ ok (w, left)
    → length left ≤ n
pushed_left v c loop n w left h e =
    let (v', looped, _) = bind-ok_parts loop (push v c) e in h v' looped

length-read :
    (quote : Option ℕ) (escaped : Bool) (rest v w left : Text)
    → read quote escaped rest v ≡ ok (w, left)
    → length left ≤ length rest
unfolding read finish
length-read quote true [] v w left e = cc
length-read quote true (c ∷ rest) v w left e = elim (Bool-cases (escapable c)) [
  | inl may ↦
      let within =
        pushed_left v c (read quote false rest) (length rest) w left
          (λ v' p. length-read quote false rest v' w left p) (ground (arith, e, may)) in
      omega (arith, within)
  | inr refused ↦ absurd (ground (arith, e, refused))
]
length-read quote false [] v w left e = ground (arith, e)
length-read quote false (c ∷ rest) v w left e = elim (Bool-cases (is_quote quote c)) [
  | inl closes ↦ ground (arith, e, closes)
  | inr other ↦ elim (Bool-cases (is_none quote && ends_bare c)) [
    | inl ends ↦ ground (arith, e, other, ends)
    | inr goes ↦ elim (Bool-cases (c == 0x5c)) [
      | inl backslash ↦
          let within =
            length-read quote true rest v w left (ground (arith, e, other, goes, backslash)) in
          omega (arith, within)
      | inr plain ↦ elim (Bool-cases (is_none quote && refused_bare c)) [
        | inl refused ↦ absurd (ground (arith, e, other, goes, plain, refused))
        | inr fits ↦
            let within =
              pushed_left v c (read quote false rest) (length rest) w left
                (λ v' p. length-read quote false rest v' w left p)
                (ground (arith, e, other, goes, plain, fits)) in
            omega (arith, within)
      ]
    ]
  ]
]

pub length-value : (s w left : Text) → value s ≡ ok (w, left) → length left ≤ length s
unfolding value
length-value [] w left e = length-read none false [] [] w left e
length-value (c ∷ s) w left e = elim (Bool-cases (c == 0x27 || c == 0x22)) [
  | inl quoted ↦
      let within = length-read (some c) false s [] w left (ground (arith, e, quoted)) in
      omega (arith, within)
  | inr bare ↦ length-read none false (c ∷ s) [] w left (ground (arith, e, bare))
]
