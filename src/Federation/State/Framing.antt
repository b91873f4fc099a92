-- ===== src/Federation/State/Framing.antt =====
-- The message that the tag of a state covers.
use rss_identity.Common.{ℕ, ◌%◌, ◌^◌, ◌<◌, ◌≡◌, refl, List, arith, append-injective}
use rss_identity.Common.Text.{Text, bytes, len}
use rss_identity.Federation.State.{label, to_be_bytes, message}

to_be_bytes-injective : (m n : ℕ) → m < 2 ^ 32 → n < 2 ^ 32 → to_be_bytes m ≡ to_be_bytes n → m ≡ n
unfolding to_be_bytes
to_be_bytes-injective m n hm hn e = ground (arith, e)

-- Signers for origins of less than 2^32 bytes cover the same message only if the origins have the
-- same bytes and the payloads are the same: no origin and payload run into those of another.
pub message-injective :
    (origin other : Text) (payload rest : List ℕ)
    → len origin < 2 ^ 32
    → len other < 2 ^ 32
    → message origin payload ≡ message other rest
    → (bytes origin ≡ bytes other) × (payload ≡ rest)
unfolding message to_be_bytes
message-injective origin other payload rest small small' e =
    let (_, framed) = append-injective label label refl e in
    let (sizes, texts) =
      append-injective (to_be_bytes (len origin % 2 ^ 32)) (to_be_bytes (len other % 2 ^ 32)) refl
        framed in
    let wrapped =
      to_be_bytes-injective (len origin % 2 ^ 32) (len other % 2 ^ 32) (ground arith) (ground arith)
        sizes in
    append-injective (bytes origin) (bytes other) (omega (arith, small, small', wrapped)) texts
