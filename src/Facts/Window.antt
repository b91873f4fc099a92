-- ===== src/Facts/Window.antt =====
-- The deadline that an observation gets.
use rss_identity.Facts.{
  acceptable_observation, max_future_skew_seconds, valid_max_age, valid_snapshot_window, expires_at,
}
use rss_identity.Common.{◌≡◌, ◌↔◌, true, arith, ok}
use rss_identity.Common.Int.{
  ℤ, pos, ◌+ℤ◌, ◌≤ℤ◌, ◌<ℤ◌, +ℤ_parts, -ℤ_parts, IsI64, checked_add, checked_sub, min_ℤ,
  checked_add-some,
}

-- Observed in the past, or at most the allowed skew ahead.
pub record IsTimely (issued expires now : ℤ) : Type 0 where
  pub observed : pos 0 <ℤ issued
  pub clocked : pos 0 <ℤ now
  pub skew : issued ≤ℤ now +ℤ max_future_skew_seconds
  pub spans : issued <ℤ expires
  pub current : now <ℤ expires

-- An observation with an accepted maximum age gets a deadline exactly if it is timely, and the
-- deadline is the earlier of the signed expiry and the age limit. All times are `i64`.
pub expires_at_iff :
    (max_age issued expires now e : ℤ)
    → valid_max_age max_age ≡ true
    → IsI64 issued
    → IsI64 expires
    → IsI64 now
    → (expires_at max_age issued expires now ≡ ok e) ↔ (
        IsTimely issued expires now
        × IsI64 (issued +ℤ max_age)
        × (e ≡ min_ℤ (issued +ℤ max_age) expires))
unfolding expires_at valid_max_age checked_add checked_sub
expires_at_iff max_age issued expires now e m fi fe fn = (
  (λ h. ground (arith, -ℤ_parts issued now, +ℤ_parts now (pos 30))),
  (λ h. ground (arith, -ℤ_parts issued now, +ℤ_parts now (pos 30))),
)

window_of :
    (observed e : ℤ)
    → pos 0 <ℤ observed
    → observed <ℤ e
    → e ≤ℤ observed +ℤ pos 300
    → valid_snapshot_window observed e ≡ true
unfolding valid_snapshot_window checked_sub
window_of observed e p q r = ground (arith, -ℤ_parts e observed, +ℤ_parts observed (pos 300))

-- The deadline that is stored with a fact passes the check of the stored window, and never outlives
-- the signed expiry.
pub expires_at-valid_snapshot_window :
    (max_age issued expires now e : ℤ)
    → valid_max_age max_age ≡ true
    → IsI64 expires
    → expires_at max_age issued expires now ≡ ok e
    → (valid_snapshot_window issued e ≡ true) × (e ≤ℤ expires)
unfolding expires_at valid_max_age checked_add
expires_at-valid_snapshot_window max_age issued expires now e m f h = ground (
  arith,
  window_of issued (issued +ℤ max_age),
  window_of issued expires,
  +ℤ_parts issued max_age,
  +ℤ_parts issued (pos 300),
  checked_add-some issued max_age e,
  checked_add-some issued max_age (issued +ℤ max_age),
)

pub expires_at-acceptable :
    (max_age issued expires now e : ℤ)
    → expires_at max_age issued expires now ≡ ok e
    → acceptable_observation issued now ≡ true
unfolding expires_at
expires_at-acceptable max_age issued expires now e h = ground arith
