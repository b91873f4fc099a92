-- ===== src/Entra/StorageKeys.antt =====
-- The storage identity of external subjects.
use rss_identity.Common.{◌<◌, ◌^◌, ◌≡◌, refl, sym, ap, ◌∙◌, arith, length, append-injective}
use rss_identity.Common.Text.{codes}
use rss_identity.Common.Ids.{Uuid}
use rss_identity.Common.Url.{Parsers}
use rss_identity.Entra.{ExternalSubject, storage_key}

-- What the uuid crate documents of `Display`: 36 characters, different for different values.
pub record ShowsUuids (parsers : Parsers) : Type 0 where
  pub length_shown : (u : Uuid) → length (parsers.show_uuid u) ≡ 36
  pub injective :
      (u v : Uuid) → u < 2 ^ 128 → v < 2 ^ 128 → parsers.show_uuid u ≡ parsers.show_uuid v → u ≡ v

-- The UUIDs of a subject are of 128 bits.
abbrev pub IsSized : ExternalSubject → Type 0
IsSized (ExternalSubject.oidc v) = Unit {0}
IsSized (ExternalSubject.entra tenant user) = (tenant < 2 ^ 128) × (user < 2 ^ 128)

-- Two external subjects with UUIDs of 128 bits share a storage key only if they are the same subject: no OIDC subject can
-- take the key of an Entra user, and no Entra user that of another tenant or user.
pub storage_key-injective :
    (parsers : Parsers) (a b : ExternalSubject)
    → ShowsUuids parsers
    → IsSized a
    → IsSized b
    → storage_key parsers a ≡ storage_key parsers b
    → a ≡ b
unfolding storage_key
storage_key-injective parsers (ExternalSubject.oidc v) (ExternalSubject.oidc w) s m n e =
    ap ExternalSubject.oidc (append-injective (codes "oidc:") (codes "oidc:") refl e).1
storage_key-injective parsers (ExternalSubject.oidc v) (ExternalSubject.entra t u) s m n e =
    absurd (ground (arith, e))
storage_key-injective parsers (ExternalSubject.entra t u) (ExternalSubject.oidc v) s m n e =
    absurd (ground (arith, e))
storage_key-injective parsers (ExternalSubject.entra t u) (ExternalSubject.entra t' u') s m n e =
    let (_, rest) = append-injective (codes "entra:") (codes "entra:") refl e in
    let (tenants, users) =
      append-injective (parsers.show_uuid t) (parsers.show_uuid t')
        (s.length_shown t ∙ sym (s.length_shown t')) rest in
    let (_, user) = append-injective (codes ":") (codes ":") refl users in
    cc (s.injective t t' m.0 n.0 tenants, s.injective u u' m.1 n.1 user)
