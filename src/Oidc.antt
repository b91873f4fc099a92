-- ===== src/Oidc.antt =====
-- crates/identity-oidc/src/assurance.rs: what the claims of an upstream token say of an authentication,
-- under the profile of a deployment.
pub mod Approved
pub mod Egress
mod Examples
use rss_identity.Common.{
  ℕ, Bool, not, ◌&&◌, ◌||◌, Option, none, some, List, [], ◌∷◌, ltb, leb, ◌==◌, if◌then◌else◌,
  is_some_and, is_none, length, any, is_empty, Result, err,
}
use rss_identity.Common.Int.{ℤ}
use rss_identity.Common.Text.{Text, codes, len, text_eq, is_control}
use rss_identity.Assurance
use rss_identity.Assurance.{Acr, Amr, Assurance, amr_of_name, rank}
use rss_identity.Federation.Errors.{FederationError, claims}

abbrev pub keycloak_totp_acr : Text
keycloak_totp_acr = codes "2"

-- The text whose digest identifies an interpretation
unfoldable pub profile_text : Bool → Text
profile_text approved =
    if approved then codes "keycloak-26.7.3/password-totp/acr-2/v1" else codes "unspecified/v1"

-- The bounds on one claim
abbrev pub bad_claim : ℕ → Text → Bool
bad_claim limit s = is_empty s || ltb limit (len s) || any is_control s

unfoldable pub refused_claims : Option Text → List Text → Bool
refused_claims acr amr =
    is_some_and acr (bad_claim 256) || ltb 16 (length amr) || any (bad_claim 64) amr

-- `filter_map(|m| m.parse().ok())`
unfoldable pub known_methods : List Text → List Amr
known_methods [] = []
known_methods (m ∷ ms) = elim (amr_of_name m) [
  | none ↦ known_methods ms
  | some a ↦ a ∷ known_methods ms
]

-- `sort`, by the order of the constructors
unfoldable pub insert_method : Amr → List Amr → List Amr
insert_method a [] = a ∷ []
insert_method a (b ∷ bs) = if leb (rank a) (rank b) then a ∷ b ∷ bs else b ∷ insert_method a bs

unfoldable pub sort_methods : List Amr → List Amr
unfolding insert_method
sort_methods [] = []
sort_methods (a ∷ as') = insert_method a (sort_methods as')

-- `dedup`
unfoldable pub dedup_methods : List Amr → List Amr
dedup_methods [] = []
dedup_methods (a ∷ []) = a ∷ []
dedup_methods (a ∷ b ∷ rest) =
    let tail = dedup_methods (b ∷ rest) in if rank a == rank b then tail else a ∷ tail

abbrev pub approved_acr : Bool → Option Text → Option ℤ → Acr
approved_acr keycloak_totp acr auth_time =
    if keycloak_totp
      && is_some_and acr (λ s. text_eq s keycloak_totp_acr)
      && not (is_none auth_time)
    then Acr.mfa
    else Acr.unspecified

unfoldable pub normalize :
    Option ℤ → Option Text → List Text → Bool → Result Assurance FederationError
unfolding refused_claims known_methods sort_methods dedup_methods
normalize auth_time acr amr keycloak_totp =
    if refused_claims acr amr
    then err claims
    else Assurance.new auth_time (approved_acr keycloak_totp acr auth_time)
        (dedup_methods (sort_methods (known_methods (if keycloak_totp then amr else []))))
