-- ===== src/Directory/Value.antt =====
-- crates/identity-core/src/directory.rs: `Parser::value`. The text after the parser's offset stands for
-- the offset: a byte that is read is dropped.
use rss_identity.Common.{
  ℕ, Bool, true, false, not, ◌&&◌, ◌||◌, Option, none, some, [], ◌∷◌, ◌++◌, ltb, ◌==◌,
  if◌then◌else◌, is_some_and, is_none, is_empty, Result, ok, err, ◌>>=◌, ◌>>◌, reject_if,
}
use rss_identity.Common.Text.{Text, codes, len, is_control, is_whitespace, contains}

pub record InvalidQuery : Type 0 where

-- The value read, and what is left.
abbrev pub Read : Type 0
Read = Result (Text × Text) InvalidQuery

-- The characters that a backslash may stand before, those that end a value without quotes, and those
-- that such a value may not have.
unfoldable pub escapable : ℕ → Bool
escapable = contains (codes "\\'\",;()")

unfoldable pub ends_bare : ℕ → Bool
ends_bare = contains (codes ",;)")

unfoldable pub refused_bare : ℕ → Bool
refused_bare c = is_whitespace c || contains (codes "('\"=!<>*") c

unfoldable pub is_quote : Option ℕ → ℕ → Bool
is_quote quote c = is_some_and quote (λ q. q == c)

-- `push`, after the tests on the character and with that on the length
unfoldable pub push : Text → ℕ → Result Text InvalidQuery
push value c = do
  reject_if (is_control c) (record {})
  reject_if (ltb 1024 (len (value ++ (c ∷ [])))) (record {})
  ok (value ++ (c ∷ []))

-- The end of `value`
unfoldable pub finish : Option ℕ → Bool → Text → Text → Read
finish quote closed value rest =
    if not closed || (is_none quote && is_empty value) then err (record {}) else ok (value, rest)

-- The end of the pass for one character, which is pushed, and the rest of the loop
abbrev then_push : Text → ℕ → (Text → Read) → Read
then_push value c loop = push value c >>= loop

-- The loop: whether a backslash was just read, the text that is left and the value so far.
unfoldable pub read : Option ℕ → Bool → Text → Text → Read
unfolding is_quote finish ends_bare escapable refused_bare push
read quote true [] value = err (record {})
read quote true (c ∷ rest) value = elim (escapable c) [
  | false ↦ err (record {})
  | true ↦ then_push value c (read quote false rest)
]
read quote false [] value = finish quote (is_none quote) value []
read quote false (c ∷ rest) value = elim (is_quote quote c) [
  | true ↦ finish quote true value rest
  | false ↦ elim (is_none quote && ends_bare c) [
    | true ↦ finish quote true value (c ∷ rest)
    | false ↦ elim (c == 0x5c) [
      | true ↦ read quote true rest value
      | false ↦ elim (is_none quote && refused_bare c) [
        | true ↦ err (record {})
        | false ↦ then_push value c (read quote false rest)
      ]
    ]
  ]
]

-- `Parser::value`
unfoldable pub value : Text → Read
unfolding read
value [] = read none false [] []
value (c ∷ rest) =
    if c == 0x27 || c == 0x22 then read (some c) false rest [] else read none false (c ∷ rest) []
