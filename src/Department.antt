-- ===== src/Department.antt =====
-- crates/identity-core/src/department.rs
pub mod Tree
pub mod Map
mod Members
pub mod Validation
mod Examples
use rss_identity.Common.{
  ℕ, zero, suc, Bool, true, false, not, ◌&&◌, ◌||◌, Option, none, some, List, [], ◌∷◌, map, ltb,
  ◌==◌, if◌then◌else◌, is_none, length, any, all, is_empty, Result, ok, err, ◌>>=◌, ◌>>◌, reject_if,
  ok_or, is_ok,
}
use rss_identity.Common.Int.{ℤ}
use rss_identity.Common.Text.{
  Text, codes, bytes, len, text_eq, is_control, is_ascii_alphanumeric, contains_text, trim,
}
use rss_identity.Federation.Errors.{FederationError, claims, configuration}
use rss_identity.Facts
use rss_identity.Facts.{valid_max_age}

-- `DepartmentId::new`
unfoldable pub new_id : Text → Result Text FederationError
new_id value =
    if is_empty value
      || ltb 256 (len value)
      || not (text_eq (trim value) value)
      || any is_control value
    then err claims
    else ok value

pub record DepartmentSnapshotClaim : Type 0 where
  pub claim : Text
  pub max_age_seconds : ℤ

-- Standard claims of ID tokens and user info.
abbrev pub reserved : List Text
reserved = map codes (
    "iss" ∷ "sub" ∷ "sid" ∷ "aud" ∷ "exp" ∷ "nbf" ∷ "iat" ∷ "jti" ∷ "auth_time" ∷ "nonce" ∷ "acr"
    ∷ "amr" ∷ "azp" ∷ "at_hash" ∷ "c_hash" ∷ "s_hash" ∷ "name" ∷ "given_name" ∷ "family_name"
    ∷ "middle_name" ∷ "nickname" ∷ "preferred_username" ∷ "profile" ∷ "picture" ∷ "website"
    ∷ "email" ∷ "email_verified" ∷ "gender" ∷ "birthdate" ∷ "zoneinfo" ∷ "locale" ∷ "phone_number"
    ∷ "phone_number_verified" ∷ "address" ∷ "updated_at" ∷ [])

abbrev pub is_claim_byte : ℕ → Bool
is_claim_byte b = is_ascii_alphanumeric b || b == b'_'

unfoldable pub new_claim : Text → ℤ → Result DepartmentSnapshotClaim FederationError
new_claim claim max_age_seconds =
    if is_empty claim
      || ltb 64 (len claim)
      || not (all is_claim_byte (bytes claim))
      || contains_text reserved claim
      || not (valid_max_age max_age_seconds)
    then err configuration
    else ok (record { claim = claim; max_age_seconds = max_age_seconds })

unfoldable pub expires_at : DepartmentSnapshotClaim → ℤ → ℤ → ℤ → Result ℤ FederationError
expires_at c issued expires now = Facts.expires_at c.max_age_seconds issued expires now

pub record DepartmentNode : Type 0 where
  pub id : Text
  pub display_name : Text
  pub parent_id : Option Text

unfoldable pub new_node : Text → Text → Option Text → Result DepartmentNode FederationError
new_node id display_name parent_id =
    if is_empty display_name
      || ltb 256 (len display_name)
      || not (text_eq (trim display_name) display_name)
      || any is_control display_name
    then err claims
    else ok (record { id = id; display_name = display_name; parent_id = parent_id })

pub record DepartmentSnapshot : Type 0 where
  pub version : ℕ
  pub source_revision : Text
  pub nodes : List DepartmentNode
  pub memberships : List Text

-- The `BTreeMap` from a node to its parent. The code looks keys up and goes over all of them, each
-- time for a yes or no that does not depend on their order.
abbrev pub Parents : Type 0
Parents = List (Text × Option Text)

unfoldable pub lookup : Text → Parents → Option (Option Text)
lookup id [] = none
lookup id ((key, parent) ∷ rest) = if text_eq key id then some parent else lookup id rest

-- The first loop: a key that is there already is refused.
unfoldable pub insert_all : List DepartmentNode → Parents → Option Parents
unfolding lookup
insert_all [] parents = some parents
insert_all (node ∷ rest) parents =
    let inserted = insert_all rest ((node.id, node.parent_id) ∷ parents) in
    if is_none (lookup node.id parents) then inserted else none

-- The keys whose parent is `None`, which the code counts.
unfoldable pub roots : Parents → List Text
roots [] = []
roots ((key, none) ∷ rest) = key ∷ roots rest
roots ((key, some parent) ∷ rest) = roots rest

abbrev pub max_depth : ℕ
max_depth = 16

-- The `while let` from a cursor, with the levels that are left: false is the error.
unfoldable pub climb : ℕ → Parents → Option Text → Bool
climb left parents none = true
climb zero parents (some id) = false
climb (suc left) parents (some id) = elim (lookup id parents) [
  | none ↦ false
  | some parent ↦ climb left parents parent
]

-- The last loop, with the memberships seen so far.
unfoldable pub members_ok : Parents → List Text → List Text → Bool
unfolding lookup
members_ok parents seen [] = true
members_ok parents seen (id ∷ rest) =
    not (is_none (lookup id parents))
    && not (contains_text seen id)
    && members_ok parents (id ∷ seen) rest

-- The checks on the map, in order.
unfoldable pub tree_ok : Parents → List Text → Bool
unfolding roots climb members_ok
tree_ok parents memberships =
    (length (roots parents) == 1)
    && all (λ entry. climb max_depth parents (some entry.0)) parents
    && members_ok parents [] memberships

unfoldable pub new_snapshot :
    Text → List DepartmentNode → List Text → Result DepartmentSnapshot FederationError
unfolding insert_all tree_ok new_id
new_snapshot source_revision nodes memberships = do
  reject_if
      (is_empty nodes
        || ltb 256 (length nodes)
        || ltb 16 (length memberships)
        || not (is_ok (new_id source_revision)))
      claims
  parents ← ok_or (insert_all nodes []) claims
  reject_if (not (tree_ok parents memberships)) claims
  ok (record {
    version = 1;
    source_revision = source_revision;
    nodes = nodes;
    memberships = memberships;
  })

-- `TryFrom<DepartmentSnapshotInput>`, for stored and received snapshots
unfoldable pub from_input : DepartmentSnapshot → Result DepartmentSnapshot FederationError
unfolding new_snapshot
from_input input =
    if not (input.version == 1)
    then err claims
    else new_snapshot input.source_revision input.nodes input.memberships

pub data UpstreamDepartmentSnapshot : Type 0 where
  not_configured missing invalid : UpstreamDepartmentSnapshot
  present : DepartmentSnapshot → UpstreamDepartmentSnapshot
