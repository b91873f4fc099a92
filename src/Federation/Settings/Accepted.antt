-- ===== src/Federation/Settings/Accepted.antt =====
-- What accepted provider settings guarantee, and that they survive a trip through storage.
use rss_identity.Common.{
  inr, inl, Bool-cases, ◌∷◌, subst, List, ℕ, ◌≤◌, ◌≡◌, refl, ◌↔◌, true, false, not, ◌&&◌, [], arith,
  is_some_and, is_none_or, length, Result, ok, err, is_ok, sym,
}
use rss_identity.Common.Text.{text_eq, text_eq_iff, text_eq_refl, Text, codes, contains_text}
use rss_identity.Federation.Settings.{
  plain_scope, issuer_of, is_nil, SubjectMapping, Uuid, ProviderSettingsInput, ProviderSettings,
  entra_ok, plain_text, plain_url, scopes_ok, differs_from, plain_claim, validate_input, try_from,
  input_of,
}
use rss_identity.Common.Url.{Parsers}
use rss_identity.Identity.{parse_name}
use rss_identity.Profile.{validate_settings}

-- What the validation of an input has checked.
pub record IsPlain (parsers : Parsers) (i : ProviderSettingsInput) : Type 0 where
  pub entra_subject : entra_ok parsers i ≡ true
  pub plain_issuer : plain_text i.issuer 2048 ≡ true
  pub plain_client : plain_text i.client_id 256 ≡ true
  pub plain_redirect : plain_text i.redirect_uri 2048 ≡ true
  pub issuer_url : plain_url parsers i.issuer ≡ true
  pub redirect_url : plain_url parsers i.redirect_uri ≡ true
  pub few_scopes : length i.scopes ≤ 16
  pub has_openid : contains_text i.scopes (codes "openid") ≡ true
  pub profile_ok : validate_settings i.claims.profile ≡ ok tt
  pub good_scopes : scopes_ok [] i.scopes ≡ true
  pub own_department :
      is_some_and i.claims.department_snapshot (λ d. not (
        differs_from d.claim i.claims.profile.extensions_claim
        && differs_from d.claim i.claims.groups))
      ≡ false
  pub extensions_claim : is_none_or i.claims.profile.extensions_claim plain_claim ≡ true
  pub groups_claim : is_none_or i.claims.groups plain_claim ≡ true

unit-ok {ι} : {E : Type ι} (r : Result (Unit {0}) E) → is_ok r ≡ true → r ≡ ok tt
unit-ok (ok tt) h = refl
unit-ok (err e) h = cc

input-IsPlain :
    (parsers : Parsers) (i : ProviderSettingsInput)
    → validate_input parsers i ≡ ok tt
    → IsPlain parsers i
unfolding validate_input
input-IsPlain parsers i h = record {
  entra_subject = ground arith;
  plain_issuer = ground arith;
  plain_client = ground arith;
  plain_redirect = ground arith;
  issuer_url = ground arith;
  redirect_url = ground arith;
  few_scopes = ground arith;
  has_openid = ground arith;
  profile_ok = unit-ok (validate_settings i.claims.profile) (ground arith);
  good_scopes = ground arith;
  own_department = ground arith;
  extensions_claim = ground arith;
  groups_claim = ground arith;
}

-- The name of a plain text is the text itself.
parse_name-plain : (s : Text) (most : ℕ) → plain_text s most ≡ true → parse_name s ≡ ok s
unfolding parse_name plain_text
parse_name-plain s most h = ground arith

-- An input becomes settings exactly when it passes the validation, and the settings keep it: the
-- input that they are stored as is the one they were made from.
pub try_from_iff :
    (parsers : Parsers) (i : ProviderSettingsInput) (s : ProviderSettings)
    → try_from parsers i ≡ ok s ↔ (validate_input parsers i ≡ ok tt) × (input_of s ≡ i)
unfolding try_from input_of
try_from_iff parsers i s = (
  (λ h.
      let v : validate_input parsers i ≡ ok tt =
        unit-ok (validate_input parsers i) (ground arith) in
      let p = input-IsPlain parsers i v in
      ground (
        arith,
        v,
        parse_name-plain i.issuer 2048 p.plain_issuer,
        parse_name-plain i.client_id 256 p.plain_client,
      )),
  (λ (v, e).
      let p = input-IsPlain parsers i v in
      ground (
        arith,
        v,
        e,
        parse_name-plain i.issuer 2048 p.plain_issuer,
        parse_name-plain i.client_id 256 p.plain_client,
      )),
)

abbrev pub Distinct : List Text → Type 0
Distinct [] = Unit {0}
Distinct (s ∷ rest) = (contains_text rest s ≡ false) × Distinct rest

scopes_ok-no_offline :
    (seen scopes : List Text)
    → scopes_ok seen scopes ≡ true
    → contains_text scopes (codes "offline_access") ≡ false
unfolding scopes_ok plain_scope
scopes_ok-no_offline seen [] h = refl
scopes_ok-no_offline seen (s ∷ rest) h =
    ground (arith, scopes_ok-no_offline (s ∷ seen) rest (ground arith))

-- Nothing that was seen comes again.
scopes_ok-fresh :
    (seen scopes : List Text) (s : Text)
    → scopes_ok seen scopes ≡ true
    → contains_text seen s ≡ true
    → contains_text scopes s ≡ false
unfolding scopes_ok plain_scope
scopes_ok-fresh seen [] s h k = refl
scopes_ok-fresh seen (t ∷ rest) s h k = elim (Bool-cases (text_eq t s)) [
  | inl same ↦ absurd (
      ground
        (arith, h, subst (λ x. contains_text seen x ≡ true) (sym ((text_eq_iff t s).0 same)) k))
  | inr other ↦
      ground (arith, other, scopes_ok-fresh (t ∷ seen) rest s (ground arith) (ground (arith, k)))
]

scopes_ok-Distinct : (seen scopes : List Text) → scopes_ok seen scopes ≡ true → Distinct scopes
unfolding scopes_ok plain_scope
scopes_ok-Distinct seen [] h = tt
scopes_ok-Distinct seen (s ∷ rest) h = (
  scopes_ok-fresh (s ∷ seen) rest s (ground arith) (ground (arith, text_eq_refl s)),
  scopes_ok-Distinct (s ∷ seen) rest (ground arith),
)

-- What the settings that the domain holds guarantee to the code that uses them.
pub record IsSafe (parsers : Parsers) (s : ProviderSettings) : Type 0 where
  pub some_scopes : contains_text s.scopes (codes "openid") ≡ true
  pub few_scopes : length s.scopes ≤ 16
  pub no_offline : contains_text s.scopes (codes "offline_access") ≡ false
  pub distinct_scopes : Distinct s.scopes
  pub own_tenant :
      (tenant : Uuid)
      → s.claims.subject ≡ SubjectMapping.entra tenant
      → (is_nil tenant ≡ false) × (s.issuer ≡ issuer_of parsers tenant)
  pub named_urls : (plain_url parsers s.issuer ≡ true) × (plain_url parsers s.redirect_uri ≡ true)

-- Settings that an input was accepted as ask for the scope openid, never for offline_access, and for
-- at most 16 scopes without repetition; issuer and redirect are plain web addresses; and an Entra
-- subject comes from the issuer of its own tenant, which is not nil.
pub try_from-IsSafe :
    (parsers : Parsers) (i : ProviderSettingsInput) (s : ProviderSettings)
    → try_from parsers i ≡ ok s
    → IsSafe parsers s
unfolding input_of entra_ok
try_from-IsSafe parsers i s h =
    let (v, e) = (try_from_iff parsers i s).0 h in
    let p = input-IsPlain parsers i v in
    subst (λ j. IsPlain parsers j → IsSafe parsers s) e
      (λ p. record {
        some_scopes = p.has_openid;
        few_scopes = p.few_scopes;
        no_offline = scopes_ok-no_offline [] s.scopes p.good_scopes;
        distinct_scopes = scopes_ok-Distinct [] s.scopes p.good_scopes;
        own_tenant = λ tenant k.
            ground (arith, k, p.entra_subject, text_eq_iff s.issuer (issuer_of parsers tenant));
        named_urls = (p.issuer_url, p.redirect_url);
      })
      p
