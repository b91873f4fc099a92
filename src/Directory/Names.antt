-- ===== src/Directory/Names.antt =====
-- crates/identity-core/src/directory.rs: `names`, the lists of fields that a query takes.
use rss_identity.Common.{
  ℕ, ◌≤◌, ◌≡◌, refl, sym, ap, subst, ◌∙◌, ◌↔◌, inl, inr, Bool, false, ◌||◌, List, [], ◌∷◌, ◌++◌,
  arith, ltb, ◌==◌, if◌then◌else◌, ==_iff, Bool-cases, length, any, is_empty, All, Result, ok, ◌>>◌,
  reject_if,
}
use rss_identity.Common.Text.{Text, len, contains, contains_text}
use rss_identity.Directory.Value.{InvalidQuery}

-- One more character for the first piece
abbrev onto_first : ℕ → List Text → List Text
onto_first c [] = (c ∷ []) ∷ []
onto_first c (s ∷ ss) = (c ∷ s) ∷ ss

-- `raw.split(',')`
unfoldable pub split : Text → List Text
split [] = [] ∷ []
split (c ∷ s) = let rest = split s in if c == 0x2c then [] ∷ rest else onto_first c rest

-- Whether a name stands among those before it
unfoldable pub repeats : List Text → List Text → Bool
repeats seen [] = false
repeats seen (s ∷ ss) = contains_text seen s || repeats (s ∷ seen) ss

unfoldable pub names : Text → Result (List Text) InvalidQuery
unfolding split repeats
names raw =
    let ns = split raw in
    do
      reject_if (ltb 4096 (len raw)) (record {})
      reject_if
          (is_empty ns
            || ltb 16 (length ns)
            || any (λ s. is_empty s || ltb 128 (len s)) ns
            || repeats [] ns)
          (record {})
      ok ns

-- The names with a comma between each two.
unfoldable pub join : List Text → Text
join [] = []
join (s ∷ []) = s
join (s ∷ t ∷ ss) = s ++ (0x2c ∷ join (t ∷ ss))

join-onto_first :
    (c : ℕ) (ss : List Text) → is_empty ss ≡ false → join (onto_first c ss) ≡ c ∷ join ss
unfolding join
join-onto_first c [] h = cc
join-onto_first c (s ∷ []) h = refl
join-onto_first c (s ∷ t ∷ ss) h = refl

is_empty-onto_first : (c : ℕ) (ss : List Text) → is_empty (onto_first c ss) ≡ false
is_empty-onto_first c [] = refl
is_empty-onto_first c (s ∷ ss) = refl

is_empty-split : (s : Text) → is_empty (split s) ≡ false
unfolding split
is_empty-split [] = refl
is_empty-split (c ∷ s) = elim (Bool-cases (c == 0x2c)) [
  | inl comma ↦ rw comma
  | inr other ↦ rw other (is_empty-onto_first c (split s))
]

join-comma : (ss : List Text) → is_empty ss ≡ false → join ([] ∷ ss) ≡ 0x2c ∷ join ss
unfolding join
join-comma [] h = cc
join-comma (s ∷ ss) h = refl

pub join-split : (s : Text) → join (split s) ≡ s
unfolding split join
join-split [] = refl
join-split (c ∷ s) = elim (Bool-cases (c == 0x2c)) [
  | inl comma ↦
      rw comma
        (join-comma (split s) (is_empty-split s) ∙ rw ((==_iff c 0x2c).0 comma, join-split s))
  | inr other ↦
      rw other (join-onto_first c (split s) (is_empty-split s) ∙ ap (◌∷◌ c) (join-split s))
]

-- A text without commas is one piece.
split-plain : (s : Text) → contains s 0x2c ≡ false → split s ≡ s ∷ []
unfolding split
split-plain [] h = refl
split-plain (c ∷ s) h =
    let other : (c == 0x2c) ≡ false = ground (arith, h) in
    rw (other, split-plain s (ground (arith, h)))

split-append : (s t : Text) → contains s 0x2c ≡ false → split (s ++ (0x2c ∷ t)) ≡ s ∷ split t
unfolding split
split-append [] t h = refl
split-append (c ∷ s) t h =
    let other : (c == 0x2c) ≡ false = ground (arith, h) in
    rw (other, split-append s t (ground (arith, h)))

pub split-join :
    (ns : List Text)
    → is_empty ns ≡ false
    → All (λ n. contains n 0x2c ≡ false) ns
    → split (join ns) ≡ ns
unfolding join
split-join [] e h = cc
split-join (s ∷ []) e (h, hs) = split-plain s h
split-join (s ∷ t ∷ ns) e (h, hs) =
    split-append s (join (t ∷ ns)) h ∙ ap (◌∷◌ s) (split-join (t ∷ ns) refl hs)

All-onto_first :
    (c : ℕ) (ss : List Text)
    → (c == 0x2c) ≡ false
    → All (λ n. contains n 0x2c ≡ false) ss
    → All (λ n. contains n 0x2c ≡ false) (onto_first c ss)
All-onto_first c [] other h = (ground (arith, other), tt)
All-onto_first c (s ∷ ss) other (h, hs) = (ground (arith, other, h), hs)

All-split : (s : Text) → All (λ n. contains n 0x2c ≡ false) (split s)
unfolding split
All-split [] = (refl, tt)
All-split (c ∷ s) = elim (Bool-cases (c == 0x2c)) [
  | inl comma ↦ rw comma (refl, All-split s)
  | inr other ↦ rw other (All-onto_first c (split s) other (All-split s))
]

-- What a list of names has.
pub record IsNames (raw : Text) (ns : List Text) : Type 0 where
  pub joined : join ns ≡ raw
  pub short : len raw ≤ 4096
  pub some_name : is_empty ns ≡ false
  pub few : length ns ≤ 16
  pub sized : any (λ s. is_empty s || ltb 128 (len s)) ns ≡ false
  pub distinct : repeats [] ns ≡ false
  pub pieces : All (λ n. contains n 0x2c ≡ false) ns

-- A text is read as a list of names exactly when it is those names with a comma between each two,
-- has at most 4096 bytes, and the names are 1 to 16 distinct ones of 1 to 128 bytes without commas.
pub names-eq-ok_iff : (raw : Text) (ns : List Text) → names raw ≡ ok ns ↔ IsNames raw ns
unfolding names
names-eq-ok_iff raw ns = (
  (λ h.
      let e : split raw ≡ ns = ground (arith, h) in
      subst (IsNames raw) e (record {
        joined = join-split raw;
        short = ground (arith, h);
        some_name = is_empty-split raw;
        few = ground (arith, h);
        sized = ground (arith, h);
        distinct = ground (arith, h);
        pieces = All-split raw;
      })),
  (λ n.
      let e : split raw ≡ ns = ap split (sym n.joined) ∙ split-join ns n.some_name n.pieces in
      rw e (ground (arith, n.short, n.some_name, n.few, n.sized, n.distinct))),
)
