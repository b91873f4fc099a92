-- ===== src/Profile/Json.antt =====
-- JSON values as serde_json holds them, and the walk of crates/identity-core/src/profile.rs that
-- checks them against a budget.
use rss_identity.Common.{
  ℕ, suc, ◌+◌, ◌^◌, Bool, true, false, not, ◌&&◌, ◌||◌, Option, none, some, List, [], ◌∷◌, map, ltb,
  leb, ◌==◌, if◌then◌else◌, any,
}
use rss_identity.Common.Text.{
  Text, codes, text_eq, is_control, to_ascii_lower, contains, contains_text,
}

-- A number is read through `as_f64` alone: whether it is finite, whether it is whole, and the whole
-- part of its magnitude.
pub record Number : Type 0 where
  pub finite : Bool
  pub whole : Bool
  pub magnitude : ℕ

mutual
  pub data Value : Type 0 where
    null : Value
    bool : Bool → Value
    number : Option Number → Value
    string : Text → Value
    array : Items → Value
    object : Members → Value

  pub data Items : Type 0 where
    nil : Items
    cons : Value → Items → Items

  pub data Members : Type 0 where
    end : Members
    member : Text → Value → Members → Members

unfoldable pub count_items : Items → ℕ
count_items nil = 0
count_items (cons v vs) = suc (count_items vs)

unfoldable pub count_members : Members → ℕ
count_members end = 0
count_members (member k v rest) = suc (count_members rest)

-- `Map::get`
unfoldable pub get : Text → Members → Option Value
get key end = none
get key (member k v rest) = if text_eq k key then some v else get key rest

pub record ProfileLimits : Type 0 where
  pub bytes : ℕ
  pub members : ℕ
  pub depth : ℕ
  pub array : ℕ
  pub max_age : ℕ

abbrev pub max_safe_integer : ℕ
max_safe_integer = 9_007_199_254_740_991

abbrev pub secrets : List Text
secrets = map codes (
    "password" ∷ "access_token" ∷ "refresh_token" ∷ "id_token" ∷ "client_secret" ∷ "totp_seed"
    ∷ "private_key" ∷ "recovery_codes" ∷ [])

-- `to_ascii_lowercase().replace('-', "_")`
abbrev pub normal_key : Text → Text
normal_key = map (λ c. let l = to_ascii_lower c in if l == b'-' then b'_' else l)

unfoldable pub refused_key : Text → Bool
refused_key key = any is_control key || contains_text secrets (normal_key key)

-- The scalar cases of `check_value`: true is an error.
unfoldable pub refused_number : Option Number → Bool
refused_number none = true
refused_number (some n) = not n.finite || (n.whole && ltb max_safe_integer n.magnitude)

-- The head of `check_object`: the depth, and the members counted so far with those of the object.
unfoldable pub enter : ProfileLimits → ℕ → ℕ → ℕ → Option ℕ
enter limits depth members count =
    if ltb limits.depth depth
      || leb (2 ^ 64) (members + count)
      || ltb limits.members (members + count)
    then none
    else some (members + count)

abbrev pub and_then : Option ℕ → (ℕ → Option ℕ) → Option ℕ
and_then none f = none
and_then (some a) f = f a

-- `check_value` and the loops of `check_object` and of its array case: the members counted after it.
unfoldable mutual
  unfolding enter count_members count_items refused_key refused_number

  pub check_value : ProfileLimits → Value → ℕ → ℕ → Option ℕ
  check_value limits null depth members = some members
  check_value limits (bool b) depth members = some members
  check_value limits (number n) depth members = elim (refused_number n) [
    | true ↦ none
    | false ↦ some members
  ]
  check_value limits (string s) depth members = elim (contains s 0) [
    | true ↦ none
    | false ↦ some members
  ]
  check_value limits (array values) depth members =
      elim (leb limits.depth depth || ltb limits.array (count_items values)) [
        | true ↦ none
        | false ↦ check_items limits values (depth + 1) members
      ]
  check_value limits (object o) depth members =
      and_then (enter limits (depth + 1) members (count_members o))
        (λ counted. check_entries limits o (depth + 1) counted)

  pub check_items : ProfileLimits → Items → ℕ → ℕ → Option ℕ
  check_items limits nil depth members = some members
  check_items limits (cons v vs) depth members =
      and_then (check_value limits v depth members) (λ counted. check_items limits vs depth counted)

  pub check_entries : ProfileLimits → Members → ℕ → ℕ → Option ℕ
  check_entries limits end depth members = some members
  check_entries limits (member k v rest) depth members = elim (refused_key k) [
    | true ↦ none
    | false ↦
        and_then (check_value limits v depth members)
          (λ counted. check_entries limits rest depth counted)
  ]

unfoldable pub check_object : ProfileLimits → Members → ℕ → ℕ → Option ℕ
unfolding enter count_members check_entries
check_object limits o depth members =
    and_then (enter limits depth members (count_members o))
      (λ counted. check_entries limits o depth counted)
