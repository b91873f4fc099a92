-- ===== src/Profile.antt =====
-- crates/identity-core/src/profile.rs: limits, extensions, the profile read from verified claims and
-- the local profile. `serialized` is the length of serde_json's text of an object, none its error.
pub mod Json
pub mod Budget
pub mod Accepted
mod Examples
use rss_identity.Common.{
  ℕ, Bool, not, ◌&&◌, ◌||◌, Option, none, some, List, [], ◌∷◌, map, ltb, leb, ◌==◌, if◌then◌else◌,
  is_some_and, is_none_or, is_none, any, is_empty, Result, ok, err, ◌>>=◌, ◌>>◌, reject_if,
}
use rss_identity.Common.Text.{Text, codes, bytes, len, is_control, contains_text}
use rss_identity.Profile.Json.{
  Value, Members, null, bool, string, object, get, ProfileLimits, check_object,
}

pub record ProfileError : Type 0 where

abbrev pub max_bytes : ℕ
max_bytes = 65_536

abbrev pub max_members : ℕ
max_members = 256

abbrev pub max_depth : ℕ
max_depth = 8

abbrev pub max_array : ℕ
max_array = 128

abbrev pub default_limits : ProfileLimits
default_limits = record {
  bytes = max_bytes;
  members = max_members;
  depth = max_depth;
  array = max_array;
  max_age = 86400;
}

unfoldable pub new_limits : ℕ → ℕ → ℕ → ℕ → ℕ → Result ProfileLimits ProfileError
new_limits bytes' members' depth' array' max_age' =
    if bytes' == 0
      || ltb max_bytes bytes'
      || members' == 0
      || ltb max_members members'
      || depth' == 0
      || ltb max_depth depth'
      || array' == 0
      || ltb max_array array'
      || not (leb 60 max_age' && leb max_age' 86400)
    then err (record {})
    else ok (record {
      bytes = bytes';
      members = members';
      depth = depth';
      array = array';
      max_age = max_age';
    })

pub record Extensions : Type 0 where
  pub members : Members

pub data Attribute {ℓ} (A : Type ℓ) : Type ℓ where
  not_configured : Attribute A
  missing : Attribute A
  invalid : Attribute A
  available : A → Attribute A

unfoldable pub value {ℓ} : {A : Type ℓ} → Attribute A → Option A
value (available a) = some a
value not_configured = none
value missing = none
value invalid = none

pub record Profile : Type 0 where
  pub display_name : Attribute Text
  pub username : Attribute Text
  pub email : Attribute Text
  pub email_verified : Attribute Bool
  pub extensions : Attribute Extensions

pub record ProfileSettings : Type 0 where
  pub extensions_claim : Option Text
  pub max_age_seconds : ℕ

pub record LocalProfile : Type 0 where
  pub display_name : Option Text
  pub username : Option Text
  pub email : Option Text
  pub extensions : Extensions
  pub max_age_seconds : ℕ

-- `fn text`
unfoldable pub text : Option Value → ℕ → Attribute Text
text none max_len = missing
text (some null) max_len = missing
text (some (string v)) max_len =
    if leb (len v) max_len && not (any is_control v) then available v else invalid
text (some v) max_len = invalid

unfoldable pub flag : Option Value → Attribute Bool
flag none = missing
flag (some null) = missing
flag (some (bool b)) = available b
flag (some v) = invalid

unfoldable pub refused_text : Attribute Text → ℕ → Bool
refused_text a max_len = is_some_and (value a) (λ v. ltb max_len (len v) || any is_control v)

unfoldable pub validate : Profile → Result (Unit {0}) ProfileError
validate p = do
  reject_if (refused_text p.display_name 512) (record {})
  reject_if (refused_text p.username 256) (record {})
  reject_if (refused_text p.email 320) (record {})

abbrev pub reserved_claims : List Text
reserved_claims = map codes (
    "sub" ∷ "iss" ∷ "aud" ∷ "exp" ∷ "iat" ∷ "nonce" ∷ "auth_time" ∷ "acr" ∷ "amr" ∷ "name"
    ∷ "preferred_username" ∷ "email" ∷ "email_verified" ∷ [])

unfoldable pub refused_root : Text → Bool
refused_root root =
    is_empty root || ltb 128 (len root) || any is_control root || contains_text reserved_claims root

unfoldable pub validate_settings : ProfileSettings → Result (Unit {0}) ProfileError
validate_settings s = do
  reject_if (not (leb 60 s.max_age_seconds && leb s.max_age_seconds 86400)) (record {})
  reject_if (is_some_and s.extensions_claim refused_root) (record {})

-- `map_or(Attribute::Missing, …)`
unfoldable pub attr : Option Text → Attribute Text
attr none = missing
attr (some v) = available v

unfoldable pub observation : LocalProfile → Result Profile ProfileError
observation l =
    let p : Profile = record {
      display_name = attr l.display_name;
      username = attr l.username;
      email = attr l.email;
      email_verified = missing;
      extensions = available l.extensions;
    } in
    validate_settings (record { extensions_claim = none; max_age_seconds = l.max_age_seconds })
    >> (validate p >> ok p)

module _ (serialized : Members → Option ℕ) where
  unfoldable pub too_long : Members → ℕ → Bool
  too_long o most = is_none_or (serialized o) (ltb most)

  -- `TryFrom<Value> for Extensions`
  unfoldable pub try_from : Value → Result Extensions ProfileError
  try_from (object o) =
      if is_none (check_object default_limits o 1 0) || too_long o max_bytes
      then err (record {})
      else ok (record { members = o })
  try_from v = err (record {})

  unfoldable pub limited : ProfileLimits → Attribute Extensions → Attribute Extensions
  limited limits (available e) =
      if is_none (check_object limits e.members 1 0) || too_long e.members limits.bytes
      then invalid
      else available e
  limited limits not_configured = not_configured
  limited limits missing = missing
  limited limits invalid = invalid

  unfoldable pub apply_limits : Profile → ProfileLimits → Profile
  apply_limits p limits = record p { extensions = limited limits p.extensions }

  -- The match on a configured root's claim in `from_claims`.
  unfoldable pub claimed : Option Value → Attribute Extensions
  claimed none = missing
  claimed (some null) = missing
  claimed (some v) = elim (try_from v) [ ok e ↦ available e | err x ↦ invalid ]

  unfoldable pub from_claims : Members → ProfileSettings → Profile
  from_claims claims settings = record {
    display_name = text (get (codes "name") claims) 512;
    username = text (get (codes "preferred_username") claims) 256;
    email = text (get (codes "email") claims) 320;
    email_verified = flag (get (codes "email_verified") claims);
    extensions = elim settings.extensions_claim [
      | none ↦ not_configured
      | some root ↦ claimed (get root claims)
    ];
  }
