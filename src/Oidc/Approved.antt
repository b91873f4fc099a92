-- ===== src/Oidc/Approved.antt =====
-- When an upstream token is normalized, and what it then proves.
use rss_identity.Common.{
  ℕ, ◌≡◌, refl, sym, ap, ◌∙◌, ◌↔◌, inl, inr, Bool, true, false, ◌&&◌, Option, none, some, List, [],
  ◌∷◌, arith, ltb, leb, ◌==◌, if◌then◌else◌, Bool-cases, is_some_and, ok, is_ok,
}
use rss_identity.Common.Int.{ℤ, pos, leb_ℤ}
use rss_identity.Common.Text.{Text, text_eq_iff}
use rss_identity.Assurance
use rss_identity.Assurance.{Acr, Amr, Assurance, step_up, check, rank, canonical_methods}
use rss_identity.Oidc.{
  refused_claims, known_methods, insert_method, sort_methods, dedup_methods, approved_acr,
  normalize, keycloak_totp_acr,
}

-- The head of a list is at least a rank.
abbrev above : ℕ → List Amr → Bool
above n [] = true
above n (a ∷ as') = leb n (rank a)

unfoldable ordered : List Amr → Bool
ordered [] = true
ordered (a ∷ as') = above (rank a) as' && ordered as'

ordered-insert_method :
    (a : Amr) (as' : List Amr) → ordered as' ≡ true → ordered (insert_method a as') ≡ true
unfolding ordered insert_method
ordered-insert_method a [] h = refl
ordered-insert_method a (b ∷ []) h = ground arith
ordered-insert_method a (b ∷ c ∷ bs) h = ground (arith, ordered-insert_method a (c ∷ bs))

ordered-sort_methods : (as' : List Amr) → ordered (sort_methods as') ≡ true
unfolding ordered sort_methods
ordered-sort_methods [] = refl
ordered-sort_methods (a ∷ as') =
    ordered-insert_method a (sort_methods as') (ordered-sort_methods as')

-- Without neighbours of one rank, an ordered list is strictly ordered, also behind a smaller method.
strict-dedup_methods :
    (a : Amr) (as' : List Amr)
    → ordered (a ∷ as') ≡ true
    → (canonical_methods (dedup_methods (a ∷ as')) ≡ true)
      × ((x : Amr)
          → ltb (rank x) (rank a) ≡ true
          → canonical_methods (x ∷ dedup_methods (a ∷ as')) ≡ true)
unfolding ordered canonical_methods dedup_methods
strict-dedup_methods a [] h = (refl, λ x l. ground (arith, l))
strict-dedup_methods a (b ∷ rest) h =
    let (inner, behind) = strict-dedup_methods b rest (ground (arith, h)) in
    elim (Bool-cases (rank a == rank b)) [
      | inl e ↦
          (ground (arith, e, inner), λ x l. ground (arith, e, behind x (ground (arith, e, l))))
      | inr e ↦
          let next = behind a (ground (arith, h, e)) in
          (ground (arith, e, next), λ x l. ground (arith, e, next, l))
    ]

canonical-dedup_methods :
    (as' : List Amr) → ordered as' ≡ true → canonical_methods (dedup_methods as') ≡ true
unfolding canonical_methods dedup_methods
canonical-dedup_methods [] h = refl
canonical-dedup_methods (a ∷ as') h = (strict-dedup_methods a as' h).0

-- A token is normalized exactly if its claims are within the bounds and its time of authentication, if
-- any, is positive: the methods that are kept are always canonical.
pub normalize_iff :
    (auth_time : Option ℤ) (acr : Option Text) (amr : List Text) (keycloak_totp : Bool)
    → (is_ok (normalize auth_time acr amr keycloak_totp) ≡ true)
      ↔ ((refused_claims acr amr ≡ false) × (is_some_and auth_time (λ t. leb_ℤ t (pos 0)) ≡ false))
unfolding normalize Assurance.new
normalize_iff auth_time acr amr keycloak_totp =
    let kept = sort_methods (known_methods (if keycloak_totp then amr else [])) in
    let canonical : canonical_methods (dedup_methods kept) ≡ true =
      canonical-dedup_methods kept
        (ordered-sort_methods (known_methods (if keycloak_totp then amr else []))) in
    ((λ h. (ground (arith, h), ground (arith, h))), (λ h. ground (arith, h.0, h.1, canonical)))

normalized_acr :
    (auth_time : Option ℤ) (acr : Option Text) (amr : List Text) (keycloak_totp : Bool)
    (a : Assurance)
    → normalize auth_time acr amr keycloak_totp ≡ ok a
    → a.acr ≡ approved_acr keycloak_totp acr auth_time
unfolding normalize Assurance.new
normalized_acr auth_time acr amr keycloak_totp a h = ground (arith, h)

stepped_acr :
    (a : Assurance) (started now : ℤ) → check a step_up started now ≡ ok tt → a.acr ≡ Acr.mfa
unfolding check
stepped_acr a started now c = ground (arith, c)

approved-mfa :
    (keycloak_totp : Bool) (acr : Option Text) (auth_time : Option ℤ)
    → approved_acr keycloak_totp acr auth_time ≡ Acr.mfa
    → (keycloak_totp ≡ true) × (acr ≡ some keycloak_totp_acr) × ((t : ℤ) × (auth_time ≡ some t))
approved-mfa keycloak_totp none auth_time h = absurd (ground (arith, h))
approved-mfa keycloak_totp (some s) none h = absurd (ground (arith, h))
approved-mfa keycloak_totp (some s) (some t) h = (
  ground (arith, h),
  ap some ((text_eq_iff s keycloak_totp_acr).0 (ground (arith, h))),
  (t, refl),
)

-- An assurance that a step-up accepts comes from a token whose profile the deployment approved, with
-- the approved class and a time of authentication, whatever methods the token claims.
pub normalize-step_up :
    (auth_time : Option ℤ) (acr : Option Text) (amr : List Text) (keycloak_totp : Bool)
    (a : Assurance) (started now : ℤ)
    → normalize auth_time acr amr keycloak_totp ≡ ok a
    → check a step_up started now ≡ ok tt
    → (keycloak_totp ≡ true) × (acr ≡ some keycloak_totp_acr) × ((t : ℤ) × (auth_time ≡ some t))
normalize-step_up auth_time acr amr keycloak_totp a started now h c =
    approved-mfa keycloak_totp acr auth_time
      (sym (normalized_acr auth_time acr amr keycloak_totp a h) ∙ stepped_acr a started now c)
