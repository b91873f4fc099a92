-- ===== src/Storage/Clock/Deadlines.antt =====
-- A deadline on the clock of the process never comes after the time of the database that it is for.
use rss_identity.Common.{
  ℕ, ◌+◌, ◌-◌, ◌*◌, ◌/◌, ◌≤◌, ◌<◌, ◌≡◌, refl, inl, inr, true, some, arith, Option-cases, ok,
  Result-cases,
}
use rss_identity.Common.Int.{
  ℤ, pos, negsuc, pos_part, neg_part, ◌+ℤ◌, ◌≤ℤ◌, ◌<ℤ◌, checked_add, checked_add-some,
}
use rss_identity.Assurance.{Assurance}
use rss_identity.Storage.Clock.{TimeSample, seconds, deadline, within_age, recently_authenticated}

-- A time of the database in nanoseconds at an instant, as the sample bounds it. The sample was taken
-- after its start, and its microseconds are rounded down.
pub record IsTime (sample : TimeSample) (instant time : ℕ) : Type 0 where
  pub after_start : sample.started ≤ instant
  pub not_before : sample.micros * 1000 ≤ time
  pub not_after : time < (sample.micros + 1) * 1000 + (instant - sample.started)

pub deadline-before :
    (latest : ℕ) (sample : TimeSample) (s : ℤ) (d instant time : ℕ)
    → deadline latest sample s ≡ ok d
    → IsTime sample instant time
    → instant < d
    → time < pos_part s * 1000000000
unfolding deadline
deadline-before latest sample s d instant time h k lt =
    ground (arith, h, lt, k.after_start, k.not_after)

positive_sum : (t : ℤ) (n : ℕ) → pos 0 <ℤ t → pos_part (t +ℤ pos n) ≡ pos_part t + n
unfolding ◌+ℤ◌
positive_sum (pos m) n h = ground arith
positive_sum (negsuc m) n h = absurd (ground (arith, h))

pub positive_neg : (t : ℤ) → pos 0 <ℤ t → neg_part t ≡ 0
positive_neg (pos m) h = refl
positive_neg (negsuc m) h = absurd (ground (arith, h))

within_age-before :
    (latest : ℕ) (sample : TimeSample) (t : ℤ) (max_age now time : ℕ)
    → pos 0 <ℤ t
    → within_age latest sample t max_age now ≡ true
    → IsTime sample now time
    → time < pos_part t * 1000000000 + max_age
unfolding within_age
within_age-before latest sample t max_age now time positive h k =
    elim (Option-cases (checked_add t (pos (max_age / 1000000000)))) [
      | inl e ↦ absurd (ground (arith, h, e))
      | inr (end, e) ↦ elim (Result-cases (deadline latest sample end)) [
        | inr (x, d) ↦ absurd (ground (arith, h, e, d))
        | inl (d, g) ↦
            let early : now < d = ground (arith, h, e, g) in
            let before = deadline-before latest sample end d now time g k early in
            let same : end ≡ t +ℤ pos (max_age / 1000000000) =
              (checked_add-some t (pos (max_age / 1000000000)) end e).0 in
            let sum : pos_part end ≡ pos_part t + max_age / 1000000000 =
              rw same (positive_sum t (max_age / 1000000000) positive) in
            omega (arith, before, sum)
      ]
    ]

-- An authentication that is found recent is at most the allowed age old when it is asked, by the clock
-- of the database at that instant, and does not lie after it.
pub recently_authenticated_age :
    (latest : ℕ) (sample : TimeSample) (a : Assurance) (t : ℤ) (max_age now time : ℕ)
    → a.auth_time ≡ some t
    → pos 0 <ℤ t
    → recently_authenticated latest sample a max_age now ≡ true
    → IsTime sample now time
    → (pos_part t * 1000000000 ≤ time) × (time < pos_part t * 1000000000 + max_age)
unfolding recently_authenticated seconds
recently_authenticated_age latest sample a t max_age now time e positive h k =
    let past : t ≤ℤ pos (sample.micros / 1000000) = ground (arith, h, e) in
    let young : within_age latest sample t max_age now ≡ true = ground (arith, h, e) in
    (
      omega (arith, past, k.not_before, positive_neg t positive),
      within_age-before latest sample t max_age now time positive young k,
    )
