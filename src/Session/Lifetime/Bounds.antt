-- ===== src/Session/Lifetime/Bounds.antt =====
-- When a lifetime can be made, and what then holds of it.
use rss_identity.Common.{◌≡◌, ◌↔◌, arith, ok}
use rss_identity.Common.Int.{ℤ, pos, ◌-ℤ◌, ◌≤ℤ◌, ◌<ℤ◌, ==ℤ_iff, IsI64, checked_sub}
use rss_identity.Session.Lifetime.{SessionPolicy, SessionLifetime, new_policy, restore}

-- What `new_policy` and `restore` establish.
pub record IsPolicy (p : SessionPolicy) : Type 0 where
  pub positive : pos 0 <ℤ p.idle
  pub ordered : p.idle ≤ℤ p.absolute

pub record IsValid (l : SessionLifetime) : Type 0 where
  pub issued : pos 0 <ℤ l.issued_at
  pub open_window : l.issued_at <ℤ l.idle_expires_at
  pub capped : l.idle_expires_at ≤ℤ l.absolute_expires_at
  pub duration : l.absolute_expires_at -ℤ l.issued_at ≡ l.policy.absolute
  pub duration_fits : IsI64 l.policy.absolute

-- A policy is accepted exactly if its idle limit is positive and within the absolute one.
pub new_policy_iff :
    (idle absolute : ℤ)
    → (new_policy idle absolute ≡ ok (record { idle = idle; absolute = absolute }))
      ↔ IsPolicy (record { idle = idle; absolute = absolute })
unfolding new_policy
new_policy_iff idle absolute = ((λ h. ground arith), (λ h. ground arith))

-- Stored times are restored exactly if they make a valid lifetime.
pub restore_iff :
    (l : SessionLifetime)
    → (restore l.issued_at l.idle_expires_at l.absolute_expires_at l.policy ≡ ok l) ↔ IsValid l
unfolding restore checked_sub
restore_iff l = (
  (λ h. ground (arith, ==ℤ_iff (l.absolute_expires_at -ℤ l.issued_at) l.policy.absolute)),
  (λ v. ground (arith, v.duration, v.duration_fits)),
)
