-- ===== src/Assurance/Methods.antt =====
-- Canonical method lists and the spellings that are stored.
use rss_identity.Common.{
  ◌≡◌, refl, ◌↔◌, Bool, true, some, List, [], ◌∷◌, ◌++◌, arith, ◌==◌, if◌then◌else◌, any, ok,
}
use rss_identity.Common.Int.{ℤ}
use rss_identity.Common.Text.{Text, codes, text_eq_iff}
use rss_identity.Assurance.{
  Acr, Amr, acr_name, acr_of_name, amr_name, amr_of_name, rank, canonical_methods,
  AuthenticationMode, mode_code, from_storage,
}

abbrev pub has : Amr → List Amr → Bool
has m = any (λ a. rank a == rank m)

-- The methods of a set, in the order of the wire.
abbrev pub listed : Bool → Bool → Bool → List Amr
listed m o p =
    (if m then Amr.mfa ∷ [] else [])
    ++ ((if o then Amr.otp ∷ [] else []) ++ (if p then Amr.pwd ∷ [] else []))

-- A canonical list is determined by its set of methods, so it holds no method twice and the stored
-- form of an assurance is unique.
pub canonical_methods-eq-listed :
    (l : List Amr)
    → canonical_methods l ≡ true
    → l ≡ listed (has Amr.mfa l) (has Amr.otp l) (has Amr.pwd l)
unfolding canonical_methods
canonical_methods-eq-listed [] h = refl
canonical_methods-eq-listed (a ∷ []) h = ground arith
canonical_methods-eq-listed (a ∷ b ∷ []) h = ground arith
canonical_methods-eq-listed (a ∷ b ∷ c ∷ []) h = ground arith
canonical_methods-eq-listed (a ∷ b ∷ c ∷ d ∷ l) h = ground arith

acr_iff : (a : Acr) (s : Text) → (acr_of_name s ≡ some a) ↔ (s ≡ acr_name a)
unfolding acr_of_name acr_name
acr_iff a s = (
  (λ h. ground (arith, text_eq_iff s (codes "unspecified"), text_eq_iff s (codes "mfa"))),
  (λ h. ground (arith, h)),
)

amr_iff : (m : Amr) (s : Text) → (amr_of_name s ≡ some m) ↔ (s ≡ amr_name m)
unfolding amr_of_name amr_name
amr_iff m s = (
  (λ h. ground (
    arith,
    text_eq_iff s (codes "mfa"),
    text_eq_iff s (codes "otp"),
    text_eq_iff s (codes "pwd"),
  )),
  (λ h. ground (arith, h)),
)

mode_iff : (k : AuthenticationMode) (v : ℤ) → (from_storage v ≡ ok k) ↔ (v ≡ mode_code k)
unfolding from_storage mode_code
mode_iff k v = ((λ h. ground arith), (λ h. ground (arith, h)))

-- A stored spelling or number is read as a value exactly if it is the one written for the value: no
-- two values share a spelling and nothing else is accepted.
names_iff :
    (a : Acr) (m : Amr) (k : AuthenticationMode) (s : Text) (v : ℤ)
    → ((acr_of_name s ≡ some a) ↔ (s ≡ acr_name a))
      × ((amr_of_name s ≡ some m) ↔ (s ≡ amr_name m))
      × ((from_storage v ≡ ok k) ↔ (v ≡ mode_code k))
names_iff a m k s v = (acr_iff a s, amr_iff m s, mode_iff k v)
