-- ===== src/Common/Ids.antt =====
-- Identifiers of other crates, which the code stores and compares: a UUID is its 128-bit value, and
-- a `TenantId` an opaque number.
use rss_identity.Common.{ℕ, Bool, ◌==◌}

abbrev pub Uuid : Type 0
Uuid = ℕ

-- `Uuid::is_nil`
abbrev pub is_nil : Uuid → Bool
is_nil u = u == 0

abbrev pub TenantId : Type 0
TenantId = ℕ
