-- ===== src/Entra/Examples.antt =====
-- The Entra theorems at one tenant.
use rss_identity.Common.{◌≡◌, refl, none, some, [], ◌∷◌, arith, ok}
use rss_identity.Common.Int.{pos}
use rss_identity.Common.Text.{Text, codes, bytes, is_whitespace}
use rss_identity.Common.Ids.{Uuid}
use rss_identity.Common.Url.{Parsers}
use rss_identity.Entra.{
  ExternalSubject, EntraTokenProfile, EntraTokenClaims, validate_claims, validate_profile,
  validate_subject, subject, set_size,
}
use rss_identity.Entra.StorageKeys.{ShowsUuids, storage_key-injective}
use rss_identity.Entra.Tokens.{IsBound, validate_claims-IsBound}

-- 36 characters for a UUID
abbrev shown : Uuid → Text
shown u = u ∷ codes "-----------------------------------"

abbrev parsers : Parsers
parsers = record { parse_url = λ s. none; parse_uuid = λ s. none; show_uuid = shown }

shows : ShowsUuids parsers
shows = record { length_shown = λ u. refl; injective = λ u v m n e. ground (arith, e) }

storage_key-injective_example : ExternalSubject.entra 7 9 ≡ ExternalSubject.entra 7 9
storage_key-injective_example =
    storage_key-injective parsers (ExternalSubject.entra 7 9) (ExternalSubject.entra 7 9) shows
      (omega arith, omega arith) (omega arith, omega arith) refl

abbrev profile : EntraTokenProfile
profile = record {
  tenant = 7;
  app_id = 8;
  authorized_clients = 5 ∷ 6 ∷ [];
  required_scopes = codes "access" ∷ [];
  device_claim = codes "deviceid";
}

abbrev token : EntraTokenClaims
token = record {
  tenant = 7;
  user = 9;
  device = some 4;
  issued_at = pos 1000;
  expires_at = pos 4600;
}

accepted : validate_claims token profile ≡ ok tt
unfolding validate_claims validate_profile validate_subject subject set_size bytes is_whitespace
accepted = refl

validate_claims-IsBound_example : IsBound token profile
validate_claims-IsBound_example = validate_claims-IsBound token profile accepted
