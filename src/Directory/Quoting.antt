-- ===== src/Directory/Quoting.antt =====
-- Any text that a filter's value may hold can be written with quotes and is read back as it was.
use rss_identity.Common.{
  ℕ, ◌+◌, ◌≤◌, ◌≡◌, refl, sym, ap, subst, ◌∙◌, inl, inr, true, false, ◌||◌, some, [], ◌∷◌, ◌++◌,
  arith, ◌==◌, if◌then◌else◌, Bool-cases, length, any, length-append, ok,
}
use rss_identity.Common.Text.{Text, bytes, len, is_control}
use mathlib.Core.List.{append_assoc, append-nil}
use rss_identity.Directory.Value.{read, value, push, finish, escapable, is_quote}

-- A backslash before each quote and each backslash
unfoldable pub escape : Text → Text
escape [] = []
escape (c ∷ s) = if c == 0x27 || c == 0x5c then 0x5c ∷ c ∷ escape s else c ∷ escape s

abbrev pub quoted : Text → Text
quoted s = 0x27 ∷ (escape s ++ (0x27 ∷ []))

bytes-append : (s t : Text) → bytes (s ++ t) ≡ bytes s ++ bytes t
unfolding bytes
bytes-append [] t = refl
bytes-append (c ∷ s) t = rw (bytes-append s t) (sym (append_assoc _ (bytes s) (bytes t)))

len-append : (s t : Text) → len (s ++ t) ≡ len s + len t
len-append s t = ap length (bytes-append s t) ∙ length-append (bytes s) (bytes t)

regroup : (seen s : Text) (c : ℕ) → (seen ++ (c ∷ [])) ++ s ≡ seen ++ (c ∷ s)
regroup seen s c = append_assoc seen (c ∷ []) s

-- One more character of a text that fits is pushed.
push-fits :
    (seen s : Text) (c : ℕ)
    → is_control c ≡ false
    → len (seen ++ (c ∷ s)) ≤ 1024
    → push seen c ≡ ok (seen ++ (c ∷ []))
unfolding push
push-fits seen s c h l =
    let whole = ap len (regroup seen s c) ∙ refl in
    ground (arith, h, l, whole, len-append (seen ++ (c ∷ [])) s)

-- The loop over one character, with its backslash or without.
read-escaped :
    (c : ℕ) (rest seen pushed : Text)
    → escapable c ≡ true
    → push seen c ≡ ok pushed
    → read (some 0x27) false (0x5c ∷ c ∷ rest) seen ≡ read (some 0x27) false rest pushed
unfolding read is_quote
read-escaped c rest seen pushed may e = ground (arith, may, e)

read-plain :
    (c : ℕ) (rest seen pushed : Text)
    → (0x27 == c) ≡ false
    → (c == 0x5c) ≡ false
    → push seen c ≡ ok pushed
    → read (some 0x27) false (c ∷ rest) seen ≡ read (some 0x27) false rest pushed
unfolding read is_quote
read-plain c rest seen pushed unquoted bare e = ground (arith, unquoted, bare, e)

escapable-special : (c : ℕ) → (c == 0x27 || c == 0x5c) ≡ true → escapable c ≡ true
unfolding escapable
escapable-special c h = ground (arith, h)

read-escape :
    (s seen rest : Text)
    → any is_control s ≡ false
    → len (seen ++ s) ≤ 1024
    → read (some 0x27) false (escape s ++ (0x27 ∷ rest)) seen ≡ ok (seen ++ s, rest)
unfolding read is_quote finish escape escapable
read-escape [] seen rest h l = rw (append-nil seen)
read-escape (c ∷ s) seen rest h l =
    let pushed = push-fits seen s c (ground (arith, h)) l in
    let loop =
      read-escape s (seen ++ (c ∷ [])) rest (ground (arith, h))
        (subst (λ x. len x ≤ 1024) (sym (regroup seen s c)) l) in
    let done = loop ∙ ap (λ x. ok (x, rest)) (regroup seen s c) in
    elim (Bool-cases (c == 0x27 || c == 0x5c)) [
      | inl special ↦ rw special (
          read-escaped c (escape s ++ (0x27 ∷ rest)) seen _ (escapable-special c special) pushed
          ∙ done)
      | inr plain ↦ rw plain (
          read-plain c (escape s ++ (0x27 ∷ rest)) seen _ (ground (arith, plain))
            (ground (arith, plain)) pushed
          ∙ done)
    ]

-- Every text of at most 1024 bytes without control characters is the value of a filter: written in
-- quotes, with a backslash before each quote and backslash, it is read back as it was, up to where
-- its closing quote stands.
pub value-quoted :
    (s rest : Text)
    → any is_control s ≡ false
    → len s ≤ 1024
    → value (quoted s ++ rest) ≡ ok (s, rest)
unfolding value
value-quoted s rest h l = rw (append_assoc (escape s) (0x27 ∷ []) rest) (read-escape s [] rest h l)
