-- ===== src/Federation/Examples.antt =====
-- The federation theorems at one provider and at one flow.
use rss_identity.Common.Text.{Text, codes, bytes, is_control, is_whitespace, trim}
use rss_identity.Common.{List, ◌≡◌, refl, true, none, some, [], ◌∷◌, ok}
use rss_identity.Common.Int.{pos}
use rss_identity.Common.Url.{Parsers}
use rss_identity.Assurance.{Acr}
use rss_identity.Department.{UpstreamDepartmentSnapshot}
use rss_identity.Groups.{UpstreamGroups, make_present, bounded_values}
use rss_identity.Common.Text.Sort.{sort, dedup}
use rss_identity.Profile.Json.{Members, member, end, string}
use rss_identity.Profile.{apply_limits, from_claims, default_limits, validate_settings}
use rss_identity.Federation.Upstream.{UpstreamClaims}
use rss_identity.Entra.{ExternalSubject, validate_subject, SubjectMapping, issuer_of}
use rss_identity.Federation.Settings.{
  ProviderSettingsInput, ProviderSettings, validate_input, try_from, input_of, entra_ok, plain_text,
  plain_url, plain_scope, is_scope_byte, scopes_ok, differs_from, plain_claim,
}
use rss_identity.Federation.Settings.Accepted.{IsSafe, try_from_iff, try_from-IsSafe}

abbrev parsers : Parsers
parsers = record {
  parse_url = λ s. some (record {
    scheme = codes "https";
    host = some (codes "login.microsoftonline.com");
    username = [];
    password = none;
    query = none;
    fragment = none;
  });
  parse_uuid = λ s. none;
  show_uuid = λ u. u ∷ [];
}

-- The tenant 0x41, which the parsers above show as "A"
abbrev input : ProviderSettingsInput
input = record {
  issuer = codes "https://login.microsoftonline.com/A/v2.0";
  client_id = codes "app";
  redirect_uri = codes "https://id.example/cb";
  scopes = codes "openid" ∷ codes "profile" ∷ [];
  claims = record {
    subject = SubjectMapping.entra 0x41;
    profile = record { extensions_claim = none; max_age_seconds = 14400 };
    groups = some (codes "groups");
    department_snapshot = none;
  };
  jit = true;
}

abbrev settings : ProviderSettings
settings = record {
  issuer = input.issuer;
  client_id = input.client_id;
  redirect_uri = input.redirect_uri;
  scopes = input.scopes;
  claims = input.claims;
  jit = true;
}

valid : validate_input parsers input ≡ ok tt
unfolding validate_input entra_ok plain_text plain_url plain_scope is_scope_byte scopes_ok
    differs_from plain_claim validate_settings bytes trim is_whitespace is_control issuer_of
valid = refl

stored : input_of settings ≡ input
unfolding input_of
stored = refl

try_from_iff_example : try_from parsers input ≡ ok settings
try_from_iff_example = (try_from_iff parsers input settings).1 (valid, stored)

try_from-IsSafe_example : IsSafe parsers settings
try_from-IsSafe_example = try_from-IsSafe parsers input settings try_from_iff_example

abbrev raw : Members
raw = member (codes "name") (string (codes "Ada")) end

abbrev values : List Text
values = codes "ops" ∷ []

abbrev upstream : UpstreamClaims
upstream = record {
  issuer = input.issuer;
  subject = ExternalSubject.oidc (codes "u1");
  profile =
      apply_limits (λ o. some 2) (from_claims (λ o. some 2) raw input.claims.profile)
        default_limits;
  groups = UpstreamGroups.present values;
  department_snapshot = UpstreamDepartmentSnapshot.not_configured;
  issued_at = pos 1000;
  expires_at = pos 4600;
  assurance = record { auth_time = none; acr = Acr.unspecified; amr = [] };
}

subject_valid : validate_subject upstream.subject ≡ ok tt
unfolding validate_subject bytes is_control
subject_valid = refl

groups_made : make_present values ≡ ok upstream.groups
unfolding make_present bounded_values sort dedup bytes is_control
groups_made = refl
