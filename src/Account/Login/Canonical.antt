-- ===== src/Account/Login/Canonical.antt =====
-- A parsed login key is in canonical form.
use rss_identity.Common.{◌≡◌, refl, true, List, [], ◌∷◌, map, arith, is_empty, ok}
use rss_identity.Common.Text.{Text, text_eq, to_ascii_lower, trim, text_eq_iff, text_eq_refl}
use rss_identity.Common.Text.Ascii.{
  trim-map_lower, is_control-map_lower, len-map_lower, is_ascii-map_lower, map_lower-map_lower,
}
use rss_identity.Account.Login.{to_ascii_lowercase, parse}

is_empty-map {ℓ κ} :
    {A : Type ℓ} {B : Type κ} (f : A → B) (xs : List A) → is_empty (map f xs) ≡ is_empty xs
is_empty-map f [] = refl
is_empty-map f (x ∷ xs) = refl

-- A login key that was parsed parses again, to itself: stored keys are canonical, and the key of a
-- login does not depend on how often it is normalised.
parse-parse : (value key : Text) → parse value ≡ ok key → parse key ≡ ok key
unfolding parse
parse-parse value key h =
    let k : key ≡ to_ascii_lowercase value = ground arith in
    let t : trim value ≡ value = (text_eq_iff (trim value) value).0 (ground arith) in
    let u : text_eq (trim (to_ascii_lowercase value)) (to_ascii_lowercase value) ≡ true =
      rw (trim-map_lower value, t) (text_eq_refl (to_ascii_lowercase value)) in
    rw k (
      ground (
        arith,
        u,
        is_empty-map to_ascii_lower value,
        len-map_lower value,
        is_ascii-map_lower value,
        is_control-map_lower value,
        map_lower-map_lower value,
      ))
