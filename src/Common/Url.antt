-- ===== src/Common/Url.antt =====
-- What the code reads of a URL that the `url` crate parsed. The parser itself is a parameter.
use rss_identity.Common.{ℕ, Option}
use rss_identity.Common.Text.{Text}

pub record Url : Type 0 where
  pub scheme : Text
  pub host : Option Text
  pub username : Text
  pub password : Option Text
  pub query : Option Text
  pub fragment : Option Text

-- `Url::parse` and `Uuid::parse_str` with `Uuid::to_string`, of the crates that the code calls
pub record Parsers : Type 0 where
  pub parse_url : Text → Option Url
  pub parse_uuid : Text → Option ℕ
  pub show_uuid : ℕ → Text
