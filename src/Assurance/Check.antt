-- ===== src/Assurance/Check.antt =====
-- What an accepted assurance proves about the login that it answers.
use rss_identity.Assurance.{
  Amr, Acr, Assurance, AuthenticationMode, login, reauthenticate, step_up, check,
}
use rss_identity.Common.{◌≡◌, ◌↔◌, not, Option, none, some, List, arith, ok}
use rss_identity.Common.Int.{
  ℤ, pos, ◌+ℤ◌, ◌≤ℤ◌, ◌<ℤ◌, ltb_ℤ, leb_ℤ, +ℤ_parts, -ℤ_parts, IsI64, saturating_add, saturating_sub,
}

-- The authentication lies in the window that the mode asks for: not in the future, and for a
-- reauthentication not before the attempt, both up to thirty seconds of clock skew.
abbrev pub IsRecent : AuthenticationMode → Option ℤ → ℤ → ℤ → Type 0
IsRecent login none started now = Unit {0}
IsRecent login (some t) started now = t ≤ℤ now +ℤ pos 30
IsRecent _ none started now = ⊥
IsRecent _ (some t) started now = (t ≤ℤ now +ℤ pos 30) × (started ≤ℤ t +ℤ pos 30)

abbrev pub IsStrong : AuthenticationMode → Acr → Type 0
IsStrong step_up a = a ≡ Acr.mfa
IsStrong _ a = Unit {0}

late_saturating :
    (now t : ℤ)
    → IsI64 now
    → IsI64 t
    → ltb_ℤ (saturating_add now (pos 30)) t ≡ not (leb_ℤ t (now +ℤ pos 30))
unfolding saturating_add
late_saturating now t g f = ground (arith, +ℤ_parts now (pos 30))

early_saturating :
    (started t : ℤ)
    → IsI64 started
    → IsI64 t
    → ltb_ℤ t (saturating_sub started (pos 30)) ≡ not (leb_ℤ started (t +ℤ pos 30))
unfolding saturating_sub
early_saturating started t g f = ground (arith, -ℤ_parts started (pos 30), +ℤ_parts t (pos 30))

abbrev Accepts : ℤ → ℤ → Option ℤ → Acr → AuthenticationMode → Type 0
Accepts started now o a mode =
    (pos 0 <ℤ started) × (started ≤ℤ now) × IsRecent mode o started now × IsStrong mode a

module _ (started now : ℤ) (fs : IsI64 started) (fn : IsI64 now) where
  check-none :
      (a : Acr) (methods : List Amr) (mode : AuthenticationMode)
      → (check (record { auth_time = none; acr = a; amr = methods }) mode started now ≡ ok tt)
        ↔ Accepts started now none a mode
  unfolding check
  check-none a methods login = ((λ h. ground arith), (λ h. ground arith))
  check-none a methods reauthenticate = ((λ h. ground arith), (λ h. absurd h.2))
  check-none a methods step_up = ((λ h. ground arith), (λ h. absurd h.2))

  check-some :
      (t : ℤ) (a : Acr) (methods : List Amr) (mode : AuthenticationMode)
      → IsI64 t
      → (check (record { auth_time = some t; acr = a; amr = methods }) mode started now ≡ ok tt)
        ↔ Accepts started now (some t) a mode
  unfolding check
  check-some t a methods login f = (
    (λ h. ground (arith, late_saturating now t fn f)),
    (λ h. ground (arith, late_saturating now t fn f)),
  )
  check-some t a methods reauthenticate f = (
    (λ h. ground (arith, late_saturating now t fn f, early_saturating started t fs f)),
    (λ h. ground (arith, late_saturating now t fn f, early_saturating started t fs f)),
  )
  check-some t a methods step_up f = (
    (λ h. ground (arith, late_saturating now t fn f, early_saturating started t fs f)),
    (λ h. ground (arith, late_saturating now t fn f, early_saturating started t fs f)),
  )

abbrev pub TimeFits : Option ℤ → Type 0
TimeFits none = Unit {0}
TimeFits (some t) = IsI64 t

check_at :
    (o : Option ℤ) (a : Acr) (methods : List Amr) (mode : AuthenticationMode) (started now : ℤ)
    → IsI64 started
    → IsI64 now
    → TimeFits o
    → (check (record { auth_time = o; acr = a; amr = methods }) mode started now ≡ ok tt)
      ↔ Accepts started now o a mode
check_at none a methods mode started now fs fn f = check-none started now fs fn a methods mode
check_at (some t) a methods mode started now fs fn f =
    check-some started now fs fn t a methods mode f

-- An assurance is accepted for an attempt exactly if the start of the attempt is positive, the clock
-- has not gone back before it, the authentication is recent enough for the mode, and a step-up is
-- multi-factor. For `i64`
-- times the saturation at the ends of the range changes nothing.
pub check_iff :
    (a : Assurance) (mode : AuthenticationMode) (started now : ℤ)
    → IsI64 started
    → IsI64 now
    → TimeFits a.auth_time
    → (check a mode started now ≡ ok tt) ↔ (
        (pos 0 <ℤ started)
        × (started ≤ℤ now)
        × IsRecent mode a.auth_time started now
        × IsStrong mode a.acr)
check_iff a mode started now fs fn f = check_at a.auth_time a.acr a.amr mode started now fs fn f
