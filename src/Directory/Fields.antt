-- ===== src/Directory/Fields.antt =====
-- crates/identity-core/src/directory.rs: the fields that a query may name. `Field::parse` goes through
-- serde's table, which has the camelCase name of each field.
use rss_identity.Common.{
  ◌≡◌, refl, subst, ◌↔◌, inl, inr, Bool, true, false, List, [], ◌∷◌, arith, if◌then◌else◌,
  Bool-cases, Result, ok, err,
}
use rss_identity.Common.Text.{Text, codes, text_eq, text_eq_iff}
use rss_identity.Directory.Value.{InvalidQuery}

pub data Field : Type 0 where
  principal_id login enabled member_active has_local_password display_name email : Field
  profile_status department_status department_snapshot department department_subtree : Field

unfoldable pub name : Field → Text
name principal_id = codes "principalId"
name login = codes "login"
name enabled = codes "enabled"
name member_active = codes "memberActive"
name has_local_password = codes "hasLocalPassword"
name display_name = codes "displayName"
name email = codes "email"
name profile_status = codes "profileStatus"
name department_status = codes "departmentStatus"
name department_snapshot = codes "departmentSnapshot"
name department = codes "department"
name department_subtree = codes "departmentSubtree"

abbrev fields : List Field
fields =
    principal_id ∷ login ∷ enabled ∷ member_active ∷ has_local_password ∷ display_name ∷ email
    ∷ profile_status ∷ department_status ∷ department_snapshot ∷ department ∷ department_subtree
    ∷ []

abbrev find_field : Text → List Field → Result Field InvalidQuery
find_field s [] = err (record {})
find_field s (f ∷ fs) = if text_eq (name f) s then ok f else find_field s fs

unfoldable pub parse : Text → Result Field InvalidQuery
unfolding name
parse s = find_field s fields

unfoldable pub profile : Field → Bool
profile display_name = true
profile email = true
profile profile_status = true
profile _ = false

unfoldable pub in_department : Field → Bool
in_department department_status = true
in_department department_snapshot = true
in_department department = true
in_department department_subtree = true
in_department _ = false

unfoldable pub boolean : Field → Bool
boolean enabled = true
boolean member_active = true
boolean has_local_password = true
boolean _ = false

unfoldable pub sortable : Field → Bool
sortable department_snapshot = false
sortable department = false
sortable department_subtree = false
sortable _ = true

unfoldable pub output : Field → Bool
output department = false
output department_subtree = false
output _ = true

find_field_sound : (s : Text) (fs : List Field) (f : Field) → find_field s fs ≡ ok f → name f ≡ s
find_field_sound s [] f e = cc
find_field_sound s (g ∷ fs) f e = elim (Bool-cases (text_eq (name g) s)) [
  | inl same ↦
      let found : g ≡ f = ground (arith, e, same) in
      subst (λ x. name x ≡ s) found ((text_eq_iff (name g) s).0 same)
  | inr other ↦ find_field_sound s fs f (ground (arith, e, other))
]

parse-name : (f : Field) → parse (name f) ≡ ok f
unfolding parse name
parse-name principal_id = refl
parse-name login = refl
parse-name enabled = refl
parse-name member_active = refl
parse-name has_local_password = refl
parse-name display_name = refl
parse-name email = refl
parse-name profile_status = refl
parse-name department_status = refl
parse-name department_snapshot = refl
parse-name department = refl
parse-name department_subtree = refl

-- A text is parsed as a field exactly when it is the name of that field.
pub parse_iff : (s : Text) (f : Field) → parse s ≡ ok f ↔ name f ≡ s
unfolding parse
parse_iff s f = (find_field_sound s fields f, (λ e. subst (λ x. parse x ≡ ok f) e (parse-name f)))
