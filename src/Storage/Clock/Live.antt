-- ===== src/Storage/Clock/Live.antt =====
-- While a proof of a session is found live, its lifetime is valid by the clock of the database.
use rss_identity.Common.{
  ℕ, ◌/◌, ◌<◌, ◌≡◌, sym, ap, subst, ◌∙◌, inl, inr, true, arith, Bool-cases, ok, Result-cases,
}
use rss_identity.Common.Int.{ℤ, pos, ◌≤ℤ◌, ◌<ℤ◌}
use rss_identity.Session.Lifetime.{SessionPolicy, SessionLifetime, restore, valid_at, renew}
use rss_identity.Session.Lifetime.Bounds.{IsValid, restore_iff}
use rss_identity.Session.Lifetime.Renewal.{renew-Renewed}
use rss_identity.Storage.Clock.{
  TimeSample, seconds, deadline, timed, touch, checked_expiry, check_live,
}
use rss_identity.Storage.Clock.Deadlines.{IsTime, deadline-before, positive_neg}

≤ℤ_positive : (a b : ℤ) → pos 0 <ℤ a → a <ℤ b → pos 0 <ℤ b
≤ℤ_positive a b h k = omega (arith, h, k)

-- What keeps a proof alive keeps its lifetime valid.
live-valid_at :
    (latest : ℕ) (sample : TimeSample) (l : SessionLifetime) (expires instant time : ℕ)
    → IsValid l
    → valid_at l (seconds sample) ≡ true
    → deadline latest sample l.idle_expires_at ≡ ok expires
    → IsTime sample instant time
    → instant < expires
    → valid_at l (pos (time / 1000000000)) ≡ true
unfolding valid_at seconds
live-valid_at latest sample l expires instant time v now d k lt =
    let before = deadline-before latest sample l.idle_expires_at expires instant time d k lt in
    let idle = ≤ℤ_positive l.issued_at l.idle_expires_at v.issued v.open_window in
    let there : l.issued_at ≤ℤ pos (sample.micros / 1000000) = ground (arith, now) in
    ground (arith, before, there, k.not_before, v.capped, positive_neg l.idle_expires_at idle)

restored-IsValid :
    (a b c : ℤ) (p : SessionPolicy) (l : SessionLifetime) → restore a b c p ≡ ok l → IsValid l
unfolding restore
restored-IsValid a b c p l h =
    let r : SessionLifetime = record {
      policy = p;
      issued_at = a;
      idle_expires_at = b;
      absolute_expires_at = c;
    } in
    let same : r ≡ l = ground (arith, h) in
    subst IsValid same ((restore_iff r).0 (h ∙ ap ok (sym same)))

live_expiry :
    (end budget at expires instant : ℕ)
    → checked_expiry end budget at ≡ ok expires
    → check_live expires instant ≡ ok tt
    → instant < end
unfolding checked_expiry check_live
live_expiry end budget at expires instant c h = ground (arith, c, h)

timed-cases :
    (latest : ℕ) (sample : TimeSample) (issued idle absolute : ℤ) (p : SessionPolicy)
    (l : SessionLifetime) (end : ℕ)
    → timed latest sample issued idle absolute p ≡ ok (l, end)
    → IsValid l
      × (valid_at l (seconds sample) ≡ true)
      × (deadline latest sample l.idle_expires_at ≡ ok end)
unfolding timed
timed-cases latest sample issued idle absolute p l end h =
    elim (Result-cases (restore issued idle absolute p)) [
      | inr (x, e) ↦ absurd (ground (arith, h, e))
      | inl (m, e) ↦ elim (Bool-cases (valid_at m (seconds sample))) [
        | inr v ↦ absurd (ground (arith, h, e, v))
        | inl v ↦ elim (Result-cases (deadline latest sample m.idle_expires_at)) [
          | inr (x, d) ↦ absurd (ground (arith, h, e, v, d))
          | inl (n, d) ↦
              let same : m ≡ l = ground (arith, h, e, v, d) in
              let ends : n ≡ end = ground (arith, h, e, v, d) in
              subst
                (λ z.
                  IsValid z
                  × (valid_at z (seconds sample) ≡ true)
                  × (deadline latest sample z.idle_expires_at ≡ ok end))
                same (restored-IsValid issued idle absolute p m e, v, d ∙ ap ok ends)
        ]
      ]
    ]

touch-cases :
    (latest : ℕ) (sample : TimeSample) (l n : SessionLifetime) (end : ℕ)
    → touch latest sample l ≡ ok (n, end)
    → (renew l (seconds sample) ≡ ok n) × (deadline latest sample n.idle_expires_at ≡ ok end)
unfolding touch
touch-cases latest sample l n end h = elim (Result-cases (renew l (seconds sample))) [
  | inr (x, e) ↦ absurd (ground (arith, h, e))
  | inl (m, e) ↦ elim (Result-cases (deadline latest sample m.idle_expires_at)) [
    | inr (x, d) ↦ absurd (ground (arith, h, e, d))
    | inl (z, d) ↦
        let same : m ≡ n = ground (arith, h, e, d) in
        let ends : z ≡ end = ground (arith, h, e, d) in
        subst
          (λ y.
            (renew l (seconds sample) ≡ ok y) × (deadline latest sample y.idle_expires_at ≡ ok end))
          same (e, d ∙ ap ok ends)
  ]
]

-- A proof made from stored times and kept within a budget has, at every instant at which it is found
-- live, a lifetime that is valid by the clock of the database at that instant.
timed-check_live :
    (latest : ℕ) (sample : TimeSample) (issued idle absolute : ℤ) (p : SessionPolicy)
    (l : SessionLifetime) (end budget at expires instant time : ℕ)
    → timed latest sample issued idle absolute p ≡ ok (l, end)
    → checked_expiry end budget at ≡ ok expires
    → check_live expires instant ≡ ok tt
    → IsTime sample instant time
    → valid_at l (pos (time / 1000000000)) ≡ true
timed-check_live latest sample issued idle absolute p l end budget at expires instant time h c live
      k =
    let (v, now, d) = timed-cases latest sample issued idle absolute p l end h in
    live-valid_at latest sample l end instant time v now d k
      (live_expiry end budget at expires instant c live)

renewed-valid_at :
    (l n : SessionLifetime) (now : ℤ)
    → IsValid l
    → valid_at l now ≡ true
    → renew l now ≡ ok n
    → IsValid n × (valid_at n now ≡ true)
unfolding valid_at
renewed-valid_at l n now v h e =
    let r = renew-Renewed l n now v e in
    (r.valid, ground (arith, h, r.issued, r.absolute, r.forward))

-- A proof is made from stored times by a sample of the clock, renewed by the same sample, and kept
-- until the end of the renewed lifetime or of its budget, whichever is first. At every instant since
-- the sample at which it is found live, the renewed lifetime is valid at the time that the clock of
-- the database then shows, if that clock has not gone back behind the sample and has gone forward by
-- no more than the local one, up to the microsecond that the sample cuts off.
pub touch-check_live :
    (latest : ℕ) (sample : TimeSample) (issued idle absolute : ℤ) (p : SessionPolicy)
    (l n : SessionLifetime) (end later budget at expires instant time : ℕ)
    → timed latest sample issued idle absolute p ≡ ok (l, end)
    → touch latest sample l ≡ ok (n, later)
    → checked_expiry later budget at ≡ ok expires
    → check_live expires instant ≡ ok tt
    → IsTime sample instant time
    → valid_at n (pos (time / 1000000000)) ≡ true
touch-check_live latest sample issued idle absolute p l n end later budget at expires instant time h
      t c live k =
    let (v, now, d) = timed-cases latest sample issued idle absolute p l end h in
    let (e, d') = touch-cases latest sample l n later t in
    let (v', now') = renewed-valid_at l n (seconds sample) v now e in
    live-valid_at latest sample n later instant time v' now' d' k
      (live_expiry later budget at expires instant c live)
