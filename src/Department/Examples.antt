-- ===== src/Department/Examples.antt =====
-- A department tree of three nodes and the theorems at it.
use rss_identity.Common.{◌≡◌, refl, Option, none, some, List, [], ◌∷◌, All, ok, err}
use rss_identity.Common.Text.{Text, codes, bytes, is_control, is_whitespace, trim}
use rss_identity.Department.{DepartmentNode, DepartmentSnapshot, new_id, new_snapshot}
use rss_identity.Department.Map.{entries, ids}
use rss_identity.Department.Validation.{IsTree, IsPlaced, new_snapshot_iff, new_snapshot-one_tree}
use rss_identity.Federation.Errors.{claims}

abbrev node : Text → Option Text → DepartmentNode
node id parent = record { id = id; display_name = codes "Unit"; parent_id = parent }

abbrev firm : List DepartmentNode
firm =
    node (codes "b") (some (codes "a"))
    ∷ node (codes "a") none
    ∷ node (codes "c") (some (codes "b"))
    ∷ []

abbrev firm_members : List Text
firm_members = codes "c" ∷ codes "a" ∷ []

abbrev firm_snapshot : DepartmentSnapshot
firm_snapshot = record {
  version = 1;
  source_revision = codes "r1";
  nodes = firm;
  memberships = firm_members;
}

accepts_firm : new_snapshot (codes "r1") firm firm_members ≡ ok firm_snapshot
unfolding new_snapshot trim is_control is_whitespace bytes
accepts_firm = refl

new_snapshot_iff_example : (new_id (codes "r1") ≡ ok (codes "r1")) × IsTree firm firm_members
new_snapshot_iff_example = (new_snapshot_iff (codes "r1") firm firm_members).0 accepts_firm

new_snapshot-one_tree_example : (root : Text) × All (IsPlaced (entries firm) root) (ids firm)
new_snapshot-one_tree_example =
    new_snapshot-one_tree (codes "r1") firm firm_members firm_snapshot accepts_firm

-- A cycle beside the root, a missing parent and a membership elsewhere are refused.
refuses_cycle :
    new_snapshot
      (codes "r1")
      (node (codes "a") none
        ∷ node (codes "b") (some (codes "c"))
        ∷ node (codes "c") (some (codes "b"))
        ∷ [])
      []
    ≡ err claims
unfolding new_snapshot trim is_control is_whitespace bytes
refuses_cycle = refl

refuses_orphan :
    new_snapshot (codes "r1") (node (codes "a") none ∷ node (codes "b") (some (codes "x")) ∷ []) []
    ≡ err claims
unfolding new_snapshot trim is_control is_whitespace bytes
refuses_orphan = refl

refuses_foreign_member :
    new_snapshot (codes "r1") (node (codes "a") none ∷ []) (codes "b" ∷ []) ≡ err claims
unfolding new_snapshot trim is_control is_whitespace bytes
refuses_foreign_member = refl
