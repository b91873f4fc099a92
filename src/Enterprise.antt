-- ===== src/Enterprise.antt =====
-- crates/identity-core/src/enterprise.rs, and the text of the scopes that a grant carries, which
-- crates/identity-postgres/src/platform/enterprise.rs makes.
pub mod Scopes
mod Examples
use rss_identity.Common.{
  Bool, not, ◌&&◌, ◌||◌, List, [], ◌∷◌, ◌++◌, ltb, leb, ◌==◌, if◌then◌else◌, is_some_and, is_none,
  length, any, all, is_empty, Result, ◌>>=◌, ◌>>◌, reject_if,
}
use rss_identity.Common.Text.{Text, codes, bytes, len, text_eq, is_ascii_alphanumeric}
use rss_identity.Common.Url.{Parsers}
use rss_identity.Federation.Settings.{is_scope_byte}

-- The scopes are a `BTreeSet`: a list in ascending order.
pub record EnterpriseTarget : Type 0 where
  pub id : Text
  pub issuer : Text
  pub token_endpoint : Text
  pub client_id : Text
  pub scopes : List Text

-- The two errors of `validate`, which are messages
pub data TargetError : Type 0 where
  invalid_target invalid_url : TargetError

unfoldable pub scope_ok : Text → Bool
scope_ok s = not (is_empty s) && leb (len s) 128 && all is_scope_byte (bytes s)

unfoldable pub url_ok : Parsers → Text → Bool
url_ok parsers raw = is_some_and (parsers.parse_url raw) (λ u.
    leb (len raw) 2048
    && text_eq u.scheme (codes "https")
    && not (is_none u.host)
    && is_empty u.username
    && is_none u.password
    && is_none u.fragment
    && is_none u.query)

unfoldable pub validate : Parsers → EnterpriseTarget → Result (Unit {0}) TargetError
validate parsers t = do
  reject_if
      (is_empty t.id
        || ltb 128 (len t.id)
        || not (all (λ b. is_ascii_alphanumeric b || b == 0x2d || b == 0x5f) (bytes t.id))
        || is_empty t.client_id
        || ltb 256 (len t.client_id)
        || is_empty t.scopes
        || ltb 16 (length t.scopes)
        || any (λ s. not (scope_ok s)) t.scopes)
      invalid_target
  reject_if (not (url_ok parsers t.issuer)) invalid_url
  reject_if (not (url_ok parsers t.token_endpoint)) invalid_url

-- The scopes joined with spaces
unfoldable pub scope_text : List Text → Text
scope_text [] = []
scope_text (s ∷ []) = s
scope_text (s ∷ t ∷ ss) = s ++ (0x20 ∷ scope_text (t ∷ ss))
