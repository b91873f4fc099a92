-- ===== src/Federation/State/Signed.antt =====
-- Issuing and verifying a state are inverse to each other.
use rss_identity.Common.{
  subst, All-append, drop-append, take-append, length-append, ◌<◌, ◌^◌, ℕ, ◌≡◌, refl, sym, ap, ◌∙◌,
  ◌↔◌, inl, inr, some, List, ◌++◌, arith, Option-cases, length, take, drop, ok,
}
use rss_identity.Common.Text.{len, Text, text_eq_iff}
use rss_identity.Federation.State.Slices.{take-drop, state_parts}
use rss_identity.Federation.State.Wire.{IsBytes, Codec, IsCodec}
use mathlib.Core.List.{append_assoc}
use rss_identity.Federation.State.{
  verify_bytes, Purpose, login, reauthenticate, link, code, from_code, StateSigner, StateLocator,
  payload_of, mac, issue, verify, at, slice,
}
use rss_identity.Common.Ids.{Uuid}

from_code_iff : (n : ℕ) (p : Purpose) → from_code n ≡ ok p ↔ n ≡ code p
unfolding from_code code
from_code_iff n login = ground arith
from_code_iff n reauthenticate = ground arith
from_code_iff n link = ground arith

code-lt : (p : Purpose) → code p < 256
unfolding code
code-lt login = omega arith
code-lt reauthenticate = omega arith
code-lt link = omega arith

-- What `verify_bytes` has found in the bytes of a state.
record IsState (codec : Codec) (signer : StateSigner) (state : Text) (l : StateLocator)
    (bs : List ℕ) : Type 0 where
  sized : length bs ≡ 82
  encoded : codec.encode bs ≡ state
  version : at bs 0 ≡ 1
  tag : mac codec signer (take 50 bs) ≡ drop 50 bs
  purpose_code : from_code (at bs 1) ≡ ok l.purpose
  tenant_uuid :
      (u : Uuid) × (codec.uuid_from_slice (slice bs 2 16) ≡ some u)
      × (codec.parse_tenant (codec.show_uuid u) ≡ some l.tenant)
  id_bytes : slice bs 18 32 ≡ l.id

module _ (codec : Codec) (signer : StateSigner) where
  bytes-IsState :
      (state : Text) (l : StateLocator) (bs : List ℕ)
      → verify_bytes codec signer state bs ≡ ok l
      → IsState codec signer state l bs
  unfolding verify_bytes
  bytes-IsState state l bs h = record {
    sized = ground arith;
    encoded = (text_eq_iff (codec.encode bs) state).0 (ground arith);
    version = ground arith;
    tag = (text_eq_iff (mac codec signer (take 50 bs)) (drop 50 bs)).0 (ground arith);
    purpose_code = ground arith;
    tenant_uuid = elim (Option-cases (codec.uuid_from_slice (slice bs 2 16))) [
      | inl e ↦ absurd (ground (arith, h, e))
      | inr (u, e) ↦ (u, e, ground (arith, h, e))
    ];
    id_bytes = ground arith;
  }

  state-issued :
      (laws : IsCodec codec) (state : Text) (l : StateLocator) (bs : List ℕ)
      → IsState codec signer state l bs
      → issue codec signer l.tenant l.purpose (some l.id) ≡ ok state
  unfolding issue payload_of
  state-issued laws state l bs s =
      let (u, sliced, parsed) = s.tenant_uuid in
      let payload : payload_of codec l.purpose u l.id ≡ take 50 bs = grind (
        arith,
        state_parts bs s.sized,
        s.version,
        (from_code_iff (at bs 1) l.purpose).0 s.purpose_code,
        (laws.slice-back (slice bs 2 16) u sliced).0,
        s.id_bytes,
      ) in
      rw
        (
          laws.tenant-back l.tenant u (laws.slice-back (slice bs 2 16) u sliced).1 parsed,
          payload,
          s.tag,
        )
        (ap (λ x. ok (codec.encode (x ++ drop 50 bs))) payload
          ∙ ap (λ x. ok (codec.encode x)) (take-drop bs 50)
          ∙ ap ok s.encoded)

  -- A state is accepted for a tenant, a purpose and an identifier only if it is the one that the
  -- signer issues for them.
  verify-issue :
      (laws : IsCodec codec) (state : Text) (l : StateLocator)
      → verify codec signer state ≡ ok l
      → issue codec signer l.tenant l.purpose (some l.id) ≡ ok state
  unfolding verify
  verify-issue laws state l h = elim (Option-cases (codec.decode state)) [
    | inl e ↦ absurd (ground (arith, h, e))
    | inr (bs, e) ↦ state-issued laws state l bs (bytes-IsState state l bs (ground (arith, h, e)))
  ]

  IsState-bytes :
      (state : Text) (l : StateLocator) (bs : List ℕ)
      → IsState codec signer state l bs
      → verify_bytes codec signer state bs ≡ ok l
  unfolding verify_bytes
  IsState-bytes state l bs s =
      let (u, sliced, parsed) = s.tenant_uuid in
      ground (
        arith,
        s.sized,
        s.version,
        sliced,
        parsed,
        s.purpose_code,
        s.id_bytes,
        (text_eq_iff (codec.encode bs) state).1 s.encoded,
        (text_eq_iff (mac codec signer (take 50 bs)) (drop 50 bs)).1 s.tag,
      )

  length-mac : (laws : IsCodec codec) (m : List ℕ) → length (mac codec signer m) ≡ 32
  unfolding mac
  length-mac laws m = laws.tag_length _ _

  mac-IsBytes : (laws : IsCodec codec) (m : List ℕ) → IsBytes (mac codec signer m)
  unfolding mac
  mac-IsBytes laws m = laws.tag_bytes _ _

  payload-IsBytes :
      (laws : IsCodec codec) (p : Purpose) (u : Uuid) (id : List ℕ)
      → IsBytes id
      → IsBytes (payload_of codec p u id)
  unfolding payload_of
  payload-IsBytes laws p u id h =
      (omega arith, (code-lt p, All-append _ (codec.uuid_bytes u) id (laws.uuid_is_bytes u) h))

  -- Bytes made of a payload and its tag are those of a state.
  issued-IsState :
      (laws : IsCodec codec) (state : Text) (l : StateLocator) (u : Uuid)
      → length l.id ≡ 32
      → u < 2 ^ 128
      → codec.parse_tenant (codec.show_uuid u) ≡ some l.tenant
      → codec.encode (
          payload_of codec l.purpose u l.id ++ mac codec signer (payload_of codec l.purpose u l.id))
        ≡ state
      → IsState codec signer state l (
          payload_of codec l.purpose u l.id ++ mac codec signer (payload_of codec l.purpose u l.id))
  unfolding payload_of
  issued-IsState laws state l u sized fits parsed e =
      let ub = codec.uuid_bytes u in
      let payload = payload_of codec l.purpose u l.id in
      let tag = mac codec signer payload in
      let regroup : (ub ++ l.id) ++ tag ≡ ub ++ (l.id ++ tag) = append_assoc ub l.id tag in
      let payload_length : length payload ≡ 50 =
        omega (arith, length-append ub l.id, laws.uuid_length u, sized) in
      let tag_length : length tag ≡ 32 = length-mac laws payload in
      record {
        sized = length-append payload tag ∙ omega (arith, payload_length, tag_length);
        encoded = e;
        version = refl;
        tag =
            ap (mac codec signer) (take-append payload tag 50 payload_length)
            ∙ sym (drop-append payload tag 50 payload_length);
        purpose_code = (from_code_iff (code l.purpose) l.purpose).1 refl;
        tenant_uuid = (
          u,
          subst (λ x. codec.uuid_from_slice x ≡ some u)
              (sym (ap (take 16) regroup ∙ take-append ub (l.id ++ tag) 16 (laws.uuid_length u)))
              (laws.slice-of u fits),
          parsed,
        );
        id_bytes =
            ap (λ x. take 32 (drop 16 x)) regroup
            ∙ ap (take 32) (drop-append ub (l.id ++ tag) 16 (laws.uuid_length u))
            ∙ take-append l.id tag 32 sized;
      }

  issue-verify :
      (laws : IsCodec codec) (state : Text) (l : StateLocator)
      → length l.id ≡ 32
      → IsBytes l.id
      → issue codec signer l.tenant l.purpose (some l.id) ≡ ok state
      → verify codec signer state ≡ ok l
  unfolding verify issue
  issue-verify laws state l sized small h =
      elim (Option-cases (codec.parse_uuid (codec.show_tenant l.tenant))) [
        | inl e ↦ absurd (ground (arith, h, e))
        | inr (u, e) ↦
            let payload = payload_of codec l.purpose u l.id in
            let bs = payload ++ mac codec signer payload in
            let encoded : codec.encode bs ≡ state = ground (arith, h, e) in
            let s =
              issued-IsState laws state l u sized (laws.parsed_fits _ u e)
                (laws.tenant-of l.tenant u e) encoded in
            let real =
              All-append _ payload (mac codec signer payload)
                (payload-IsBytes laws l.purpose u l.id small) (mac-IsBytes laws payload) in
            ground (
              arith,
              IsState-bytes state l bs s,
              ap codec.decode (sym encoded) ∙ laws.decode-encode bs real,
              ap len (sym encoded) ∙ laws.encoded_length bs real s.sized,
            )
      ]

  -- A text is accepted as the state of a tenant, a purpose and an identifier of 32 bytes exactly when
  -- it is what the signer issues for them.
  pub verify_iff :
      (laws : IsCodec codec) (state : Text) (l : StateLocator)
      → length l.id ≡ 32
      → IsBytes l.id
      → verify codec signer state ≡ ok l
        ↔ issue codec signer l.tenant l.purpose (some l.id) ≡ ok state
  verify_iff laws state l sized small =
      (verify-issue laws state l, issue-verify laws state l sized small)
