-- ===== src/Facts/Examples.antt =====
-- An observation signed at 1000 for an hour, seen at 1010 under an age limit of 120 seconds.
use rss_identity.Common.{◌≡◌, refl, arith, ok}
use rss_identity.Common.Int.{pos, ◌+ℤ◌, ◌-ℤ◌, checked_add, checked_sub}
use rss_identity.Facts.{valid_max_age, expires_at}
use rss_identity.Facts.Window.{expires_at_iff}

expires_at_iff_example : expires_at (pos 120) (pos 1000) (pos 4600) (pos 1010) ≡ ok (pos 1120)
unfolding valid_max_age ◌+ℤ◌
expires_at_iff_example =
    (expires_at_iff (pos 120) (pos 1000) (pos 4600) (pos 1010) (pos 1120) refl (omega arith)
        (omega arith) (omega arith)).1
      (omega arith, omega arith, refl)

deadline : expires_at (pos 120) (pos 1000) (pos 4600) (pos 1010) ≡ ok (pos 1120)
unfolding expires_at checked_add checked_sub ◌+ℤ◌ ◌-ℤ◌
deadline = refl
