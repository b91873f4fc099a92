-- ===== src/Federation/State/Wire.antt =====
-- The other crates' code that a signed state goes through, and what it documents.
use rss_identity.Common.{◌^◌, ℕ, ◌≡◌, Option, some, List, length, ◌<◌, All}
use rss_identity.Common.Text.{Text, len}
use rss_identity.Common.Ids.{Uuid, TenantId}

-- HMAC-SHA-256, base64 without padding, and the texts and bytes of UUIDs and tenants
pub record Codec : Type 0 where
  pub hmac : List ℕ → List ℕ → List ℕ
  pub encode : List ℕ → Text
  pub decode : Text → Option (List ℕ)
  pub uuid_bytes : Uuid → List ℕ
  pub uuid_from_slice : List ℕ → Option Uuid
  pub show_uuid : Uuid → Text
  pub parse_uuid : Text → Option Uuid
  pub show_tenant : TenantId → Text
  pub parse_tenant : Text → Option TenantId

abbrev pub IsBytes : List ℕ → Type 0
IsBytes = All (λ b. b < 256)

pub record IsCodec (c : Codec) : Type 0 where
  pub tag_length : (key message : List ℕ) → length (c.hmac key message) ≡ 32
  pub tag_bytes : (key message : List ℕ) → IsBytes (c.hmac key message)
  pub decode-encode : (bs : List ℕ) → IsBytes bs → c.decode (c.encode bs) ≡ some bs
  pub encoded_length : (bs : List ℕ) → IsBytes bs → length bs ≡ 82 → len (c.encode bs) ≡ 110
  pub uuid_length : (u : Uuid) → length (c.uuid_bytes u) ≡ 16
  pub uuid_is_bytes : (u : Uuid) → IsBytes (c.uuid_bytes u)
  pub slice-of : (u : Uuid) → u < 2 ^ 128 → c.uuid_from_slice (c.uuid_bytes u) ≡ some u
  pub slice-back :
      (bs : List ℕ) (u : Uuid)
      → c.uuid_from_slice bs ≡ some u
      → (c.uuid_bytes u ≡ bs) × (u < 2 ^ 128)
  pub parsed_fits : (s : Text) (u : Uuid) → c.parse_uuid s ≡ some u → u < 2 ^ 128
  pub tenant-of :
      (t : TenantId) (u : Uuid)
      → c.parse_uuid (c.show_tenant t) ≡ some u
      → c.parse_tenant (c.show_uuid u) ≡ some t
  pub tenant-back :
      (t : TenantId) (u : Uuid)
      → u < 2 ^ 128
      → c.parse_tenant (c.show_uuid u) ≡ some t
      → c.parse_uuid (c.show_tenant t) ≡ some u
