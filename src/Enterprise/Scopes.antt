-- ===== src/Enterprise/Scopes.antt =====
-- The scopes of an accepted target can be read off their text.
use rss_identity.Common.{
  ◌≡◌, refl, sym, ap, subst, ◌∙◌, inl, inr, true, false, not, List, [], ◌∷◌, ◌++◌, arith, ◌==◌,
  if◌then◌else◌, ==_iff, Bool-cases, length, any, all, is_empty, append-injective, All, ok,
}
use rss_identity.Common.Text.{Text, bytes, contains}
use rss_identity.Common.Text.Ascii.{all-bytes_tail}
use rss_identity.Common.Url.{Parsers}
use rss_identity.Federation.Settings.{is_scope_byte}
use rss_identity.Enterprise.{EnterpriseTarget, scope_ok, validate, scope_text}

space-refused : (s : Text) → ¬ all is_scope_byte (bytes (0x20 ∷ s)) ≡ true
unfolding bytes is_scope_byte
space-refused s h = cc

no_space : (s : Text) → all is_scope_byte (bytes s) ≡ true → contains s 0x20 ≡ false
no_space [] h = refl
no_space (c ∷ s) h = elim (Bool-cases (c == 0x20)) [
  | inl space ↦ absurd (
      space-refused s
        (subst (λ x. all is_scope_byte (bytes (x ∷ s)) ≡ true) ((==_iff c 0x20).0 space) h))
  | inr other ↦ ground (arith, other, no_space s (all-bytes_tail is_scope_byte c s h))
]

-- A text up to its first space
before : Text → Text
before [] = []
before (c ∷ s) = let rest = before s in if c == 0x20 then [] else c ∷ rest

before-plain : (s : Text) → contains s 0x20 ≡ false → before s ≡ s
unfolding before
before-plain [] h = refl
before-plain (c ∷ s) h =
    let other : (c == 0x20) ≡ false = ground (arith, h) in
    rw (other, before-plain s (ground (arith, h)))

before-append : (s t : Text) → contains s 0x20 ≡ false → before (s ++ (0x20 ∷ t)) ≡ s
unfolding before
before-append [] t h = refl
before-append (c ∷ s) t h =
    let other : (c == 0x20) ≡ false = ground (arith, h) in
    rw (other, before-append s t (ground (arith, h)))

has_space : (s t : Text) → contains (s ++ (0x20 ∷ t)) 0x20 ≡ true
has_space [] t = refl
has_space (c ∷ s) t = ground (arith, has_space s t)

apart : ¬ false ≡ true
apart e = cc

-- Scopes without spaces
abbrev Plain : List Text → Type 0
Plain = All (λ s. contains s 0x20 ≡ false)

scope_text-injective :
    (ss ts : List Text)
    → is_empty ss ≡ false
    → is_empty ts ≡ false
    → Plain ss
    → Plain ts
    → scope_text ss ≡ scope_text ts
    → ss ≡ ts
unfolding scope_text
scope_text-injective [] ts e f p q h = cc
scope_text-injective (s ∷ ss) [] e f p q h = cc
scope_text-injective (s ∷ []) (t ∷ []) e f (p, _) (q, _) h = ap (λ x. x ∷ []) h
scope_text-injective (s ∷ []) (t ∷ t' ∷ ts) e f (p, ps) (q, qs) h =
    absurd (apart (sym p ∙ ap (λ x. contains x 0x20) h ∙ has_space t (scope_text (t' ∷ ts))))
scope_text-injective (s ∷ s' ∷ ss) (t ∷ []) e f (p, ps) (q, qs) h =
    absurd (apart (sym q ∙ ap (λ x. contains x 0x20) (sym h) ∙ has_space s (scope_text (s' ∷ ss))))
scope_text-injective (s ∷ s' ∷ ss) (t ∷ t' ∷ ts) e f (p, ps) (q, qs) h =
    let same : s ≡ t =
      sym (before-append s (scope_text (s' ∷ ss)) p)
      ∙ ap before h
      ∙ before-append t (scope_text (t' ∷ ts)) q in
    let (_, spaced) = append-injective s t (ap length same) h in
    let (_, rest) = append-injective (0x20 ∷ []) (0x20 ∷ []) refl spaced in
    cc (same, scope_text-injective (s' ∷ ss) (t' ∷ ts) refl refl ps qs rest)

scopes-Plain : (ss : List Text) → any (λ s. not (scope_ok s)) ss ≡ false → Plain ss
unfolding scope_ok
scopes-Plain [] h = tt
scopes-Plain (s ∷ ss) h = (no_space s (ground (arith, h)), scopes-Plain ss (ground (arith, h)))

-- Two accepted targets whose scopes make the same text, the one that a grant carries, have the same
-- scopes: none can be taken for two others.
pub scope_text_determines :
    (parsers : Parsers) (a b : EnterpriseTarget)
    → validate parsers a ≡ ok tt
    → validate parsers b ≡ ok tt
    → scope_text a.scopes ≡ scope_text b.scopes
    → a.scopes ≡ b.scopes
unfolding validate
scope_text_determines parsers a b va vb e =
    scope_text-injective a.scopes b.scopes (ground (arith, va)) (ground (arith, vb))
      (scopes-Plain a.scopes (ground (arith, va))) (scopes-Plain b.scopes (ground (arith, vb))) e
