-- ===== src/Federation/State.antt =====
-- crates/identity-core/src/federation.rs: the purpose of a flow and the signed state that names it.
-- `verify_slice` compares the whole tag; indexing is always behind the test of the length.
pub mod Wire
mod Slices
pub mod Signed
pub mod Framing
mod Examples
use rss_identity.Common.{
  ℕ, zero, suc, ◌/◌, ◌%◌, ◌^◌, not, ◌||◌, Option, List, [], ◌∷◌, ◌++◌, ltb, ◌==◌, if◌then◌else◌,
  length, all, is_empty, take, drop, Result, ok, err, ◌>>=◌, ◌>>◌, reject_if, ok_or,
}
use rss_identity.Common.Text.{Text, codes, bytes, len, text_eq}
use rss_identity.Common.Ids.{Uuid, TenantId}
use rss_identity.Federation.Errors.{FederationError, configuration, rejected, unavailable}
use rss_identity.Federation.State.Wire.{Codec}

pub data Purpose : Type 0 where
  login reauthenticate link : Purpose

unfoldable pub code : Purpose → ℕ
code login = 0
code reauthenticate = 1
code link = 2

unfoldable pub from_code : ℕ → Result Purpose FederationError
from_code n =
    if n == 0
    then ok login
    else if n == 1
    then ok reauthenticate
    else if n == 2
    then ok link
    else err rejected

pub record StateSigner : Type 0 where
  pub key : List ℕ
  pub origin : Text

pub record StateLocator : Type 0 where
  pub tenant : TenantId
  pub id : List ℕ
  pub purpose : Purpose

-- The key is an array of 32 bytes.
unfoldable pub new : List ℕ → Text → Result StateSigner FederationError
new key origin =
    if all (λ b. b == 0) key || is_empty origin || ltb 2048 (len origin)
    then err configuration
    else ok (record { key = key; origin = origin })

-- `u32::to_be_bytes`
unfoldable pub to_be_bytes : ℕ → List ℕ
to_be_bytes n = (n / 2 ^ 24 % 256) ∷ (n / 2 ^ 16 % 256) ∷ (n / 2 ^ 8 % 256) ∷ (n % 256) ∷ []

abbrev pub label : List ℕ
label = codes "rss-identity.oidc.state.v1" ++ (0 ∷ [])

-- What `mac` feeds to the HMAC.
unfoldable pub message : Text → List ℕ → List ℕ
message origin payload = label ++ (to_be_bytes (len origin % 2 ^ 32) ++ (bytes origin ++ payload))

-- The bytes before the tag.
unfoldable pub payload_of : Codec → Purpose → Uuid → List ℕ → List ℕ
payload_of codec purpose tenant id = 1 ∷ code purpose ∷ (codec.uuid_bytes tenant ++ id)

abbrev pub at : List ℕ → ℕ → ℕ
at [] i = 0
at (b ∷ bs) zero = b
at (b ∷ bs) (suc i) = at bs i

-- A slice `[from..to]`, as its start and its length
abbrev pub slice : List ℕ → ℕ → ℕ → List ℕ
slice bs start count = take count (drop start bs)

module _ (codec : Codec) (signer : StateSigner) where
  unfoldable pub mac : List ℕ → List ℕ
  mac payload = codec.hmac signer.key (message signer.origin payload)

  -- `random` is what the operating system fills in, or its error.
  unfoldable pub issue : TenantId → Purpose → Option (List ℕ) → Result Text FederationError
  issue tenant purpose random = do
    uuid ← ok_or (codec.parse_uuid (codec.show_tenant tenant)) rejected
    id ← ok_or random unavailable
    let payload = payload_of codec purpose uuid id
    ok (codec.encode (payload ++ mac payload))

  -- `verify` after the decoding
  unfoldable pub verify_bytes : Text → List ℕ → Result StateLocator FederationError
  verify_bytes state bs = do
    reject_if (not (length bs == 82) || not (text_eq (codec.encode bs) state) || not (at bs 0 == 1))
        rejected
    reject_if (not (text_eq (mac (take 50 bs)) (drop 50 bs))) rejected
    purpose ← from_code (at bs 1)
    uuid ← ok_or (codec.uuid_from_slice (slice bs 2 16)) rejected
    tenant ← ok_or (codec.parse_tenant (codec.show_uuid uuid)) rejected
    ok (record { tenant = tenant; id = slice bs 18 32; purpose = purpose })

  unfoldable pub verify : Text → Result StateLocator FederationError
  verify state = do
    reject_if (not (len state == 110)) rejected
    bs ← ok_or (codec.decode state) rejected
    verify_bytes state bs
