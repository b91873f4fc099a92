-- ===== src/Assurance.antt =====
-- crates/identity-core/src/assurance.rs and step_up.rs
pub mod Methods
pub mod Check
pub mod StepUp
mod Examples
use rss_identity.Common.{
  ℕ, Bool, true, false, not, ◌&&◌, ◌||◌, Option, none, some, List, [], ◌∷◌, ltb, if◌then◌else◌,
  is_some_and, is_none_or, is_none, Result, ok, err,
}
use rss_identity.Common.Int.{ℤ, pos, ltb_ℤ, leb_ℤ, ◌==ℤ◌, saturating_add, saturating_sub}
use rss_identity.Common.Text.{Text, codes, text_eq}
use rss_identity.Federation.Errors.{FederationError, claims}

pub data Acr : Type 0 where
  unspecified mfa : Acr

pub data Amr : Type 0 where
  mfa otp pwd : Amr

unfoldable pub acr_name : Acr → Text
acr_name Acr.unspecified = codes "unspecified"
acr_name Acr.mfa = codes "mfa"

-- `none` is the error of `FromStr`.
unfoldable pub acr_of_name : Text → Option Acr
acr_of_name s =
    if text_eq s (codes "unspecified")
    then some Acr.unspecified
    else if text_eq s (codes "mfa")
    then some Acr.mfa
    else none

unfoldable pub amr_name : Amr → Text
amr_name Amr.mfa = codes "mfa"
amr_name Amr.otp = codes "otp"
amr_name Amr.pwd = codes "pwd"

unfoldable pub amr_of_name : Text → Option Amr
amr_of_name s =
    if text_eq s (codes "mfa")
    then some Amr.mfa
    else if text_eq s (codes "otp")
    then some Amr.otp
    else if text_eq s (codes "pwd")
    then some Amr.pwd
    else none

-- The derived `Ord`: the order of declaration.
abbrev pub rank : Amr → ℕ
rank Amr.mfa = 0
rank Amr.otp = 1
rank Amr.pwd = 2

-- `windows(2).all(|w| w[0] < w[1])`
unfoldable pub canonical_methods : List Amr → Bool
canonical_methods [] = true
canonical_methods (a ∷ []) = true
canonical_methods (a ∷ b ∷ rest) = ltb (rank a) (rank b) && canonical_methods (b ∷ rest)

pub data AuthenticationMode : Type 0 where
  login reauthenticate step_up : AuthenticationMode

-- The discriminants of `repr(i16)`.
unfoldable pub mode_code : AuthenticationMode → ℤ
mode_code login = pos 0
mode_code reauthenticate = pos 1
mode_code step_up = pos 2

unfoldable pub from_storage : ℤ → Result AuthenticationMode FederationError
from_storage value =
    if value ==ℤ pos 0
    then ok login
    else if value ==ℤ pos 1
    then ok reauthenticate
    else if value ==ℤ pos 2
    then ok step_up
    else err claims

pub record Assurance : Type 0 where
  pub auth_time : Option ℤ
  pub acr : Acr
  pub amr : List Amr

abbrev pub is_mfa : Acr → Bool
is_mfa Acr.mfa = true
is_mfa Acr.unspecified = false

abbrev pub is_login : AuthenticationMode → Bool
is_login login = true
is_login _ = false

abbrev pub is_step_up : AuthenticationMode → Bool
is_step_up step_up = true
is_step_up _ = false

-- `TryFrom<Input>`, the one constructor
unfoldable pub new : Option ℤ → Acr → List Amr → Result Assurance FederationError
unfolding canonical_methods
new auth_time acr amr =
    if is_some_and auth_time (λ t. leb_ℤ t (pos 0))
      || (is_mfa acr && is_none auth_time)
      || not (canonical_methods amr)
    then err claims
    else ok (record { auth_time = auth_time; acr = acr; amr = amr })

unfoldable pub password : ℤ → Result Assurance FederationError
unfolding new
password auth_time = new (some auth_time) Acr.unspecified (Amr.pwd ∷ [])

unfoldable pub check : Assurance → AuthenticationMode → ℤ → ℤ → Result (Unit {0}) FederationError
check a mode started now =
    if leb_ℤ started (pos 0)
      || ltb_ℤ now started
      || is_some_and a.auth_time (λ t. ltb_ℤ (saturating_add now (pos 30)) t)
      || (not (is_login mode)
          && is_none_or a.auth_time (λ t. ltb_ℤ t (saturating_sub started (pos 30))))
      || (is_step_up mode && not (is_mfa a.acr))
    then err claims
    else ok tt
