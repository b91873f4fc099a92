-- ===== src/Enterprise/Examples.antt =====
-- One enterprise target.
use rss_identity.Common.{◌≡◌, refl, none, some, [], ◌∷◌, ok}
use rss_identity.Common.Text.{codes, bytes}
use rss_identity.Common.Url.{Parsers}
use rss_identity.Federation.Settings.{is_scope_byte}
use rss_identity.Enterprise.{EnterpriseTarget, scope_ok, url_ok, validate}
use rss_identity.Enterprise.Scopes.{scope_text_determines}

abbrev parsers : Parsers
parsers = record {
  parse_url = λ s. some (record {
    scheme = codes "https";
    host = some (codes "as.example");
    username = [];
    password = none;
    query = none;
    fragment = none;
  });
  parse_uuid = λ s. none;
  show_uuid = λ u. u ∷ [];
}

abbrev target : EnterpriseTarget
target = record {
  id = codes "crm-1";
  issuer = codes "https://as.example";
  token_endpoint = codes "https://as.example/token";
  client_id = codes "app";
  scopes = codes "read" ∷ codes "write" ∷ [];
}

accepted : validate parsers target ≡ ok tt
unfolding validate scope_ok url_ok is_scope_byte bytes
accepted = refl

scope_text_determines_example : target.scopes ≡ target.scopes
scope_text_determines_example = scope_text_determines parsers target target accepted accepted refl
