-- ===== src/Storage/Clock/Examples.antt =====
-- A proof made 2,000 seconds into the time of the database, from a session that is renewed
use rss_identity.Common.{◌+◌, ◌*◌, ◌/◌, ◌^◌, ◌≤◌, ◌<◌, ◌≡◌, refl, true, some, [], arith, ok}
use rss_identity.Common.Int.{pos, ◌+ℤ◌, ◌-ℤ◌, checked_add, checked_sub}
use rss_identity.Storage.Clock.{
  TimeSample, timed, touch, checked_expiry, check_live, recently_authenticated,
}
use rss_identity.Storage.Clock.Deadlines.{IsTime, recently_authenticated_age}
use rss_identity.Storage.Clock.Live.{touch-check_live}
use rss_identity.Session.Lifetime.{SessionPolicy, SessionLifetime, restore, valid_at, renew}
use rss_identity.Assurance.{Assurance, Acr}

abbrev sample : TimeSample
sample = record { started = 1000; micros = 2000000000 }

-- A millisecond after the sample
sample-IsTime : IsTime sample 1001000 2000001000000
sample-IsTime = record {
  after_start = omega arith;
  not_before = omega arith;
  not_after = omega arith;
}

abbrev policy : SessionPolicy
policy = record { idle = pos 200; absolute = pos 3600 }

abbrev lifetime : SessionLifetime
lifetime = record {
  policy = policy;
  issued_at = pos 1990;
  idle_expires_at = pos 2100;
  absolute_expires_at = pos 5590;
}

abbrev renewed : SessionLifetime
renewed = record lifetime { idle_expires_at = pos 2200 }

makes :
    timed (2 ^ 63) sample (pos 1990) (pos 2100) (pos 5590) policy
    ≡ ok (lifetime, 99999999000 + 1000)
unfolding timed restore valid_at checked_sub ◌-ℤ◌
makes = refl

touches : touch (2 ^ 63) sample lifetime ≡ ok (renewed, 199999999000 + 1000)
unfolding touch renew checked_add ◌+ℤ◌ valid_at
touches = refl

limits : checked_expiry (199999999000 + 1000) 5000000000 2000 ≡ ok 5000000000
unfolding checked_expiry
limits = refl

lives : check_live 5000000000 1001000 ≡ ok tt
unfolding check_live
lives = refl

touch-check_live_example : valid_at renewed (pos (2000001000000 / 1000000000)) ≡ true
touch-check_live_example =
    touch-check_live (2 ^ 63) sample (pos 1990) (pos 2100) (pos 5590) policy lifetime renewed
      (99999999000 + 1000) (199999999000 + 1000) 5000000000 2000 5000000000 1001000 2000001000000
      makes touches limits lives sample-IsTime

abbrev facts : Assurance
facts = record { auth_time = some (pos 1980); acr = Acr.unspecified; amr = [] }

recent : recently_authenticated (2 ^ 63) sample facts 60000000000 1001000 ≡ true
unfolding recently_authenticated checked_add ◌+ℤ◌
recent = refl

recently_authenticated_age_example :
    (1980 * 1000000000 ≤ 2000001000000) × (2000001000000 < 1980 * 1000000000 + 60000000000)
recently_authenticated_age_example =
    recently_authenticated_age (2 ^ 63) sample facts (pos 1980) 60000000000 1001000 2000001000000
      refl (omega arith) recent sample-IsTime
