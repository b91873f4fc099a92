-- ===== src/Session/Lifetime/Renewal.antt =====
-- A session over time: issued once, renewed while it is valid.
use rss_identity.Common.Int.{
  add_sub_cancel, fits_between, ℤ, pos, ◌+ℤ◌, ◌≤ℤ◌, ◌<ℤ◌, +ℤ_parts, -ℤ_parts, IsI64, checked_add,
  checked_add-of_fits,
}
use rss_identity.Common.{
  ◌≡◌, refl, subst, ◌∙◌, ◌↔◌, ◌⊎◌, true, false, List, [], ◌∷◌, arith, Result, ok, err, ◌>>=◌,
  bind-ok_parts,
}
use rss_identity.Session.Lifetime.{
  SessionError, session_error, SessionPolicy, SessionLifetime, new, valid_at, renew,
}
use rss_identity.Session.Lifetime.Bounds.{IsPolicy, IsValid, restore_iff}

-- Under an accepted policy and a positive clock a session can be issued exactly while the absolute
-- deadline fits into the clock's range, and its deadlines are then the policy's.
pub new-eq-ok :
    (now : ℤ) (p : SessionPolicy)
    → IsPolicy p
    → IsI64 p.absolute
    → pos 0 <ℤ now
    → IsI64 (now +ℤ p.absolute)
    → new now p
      ≡ ok (record {
        policy = p;
        issued_at = now;
        idle_expires_at = now +ℤ p.idle;
        absolute_expires_at = now +ℤ p.absolute;
      })
unfolding new
new-eq-ok now p v fits positive room =
    let idle_fits : IsI64 (now +ℤ p.idle) =
      fits_between (now +ℤ p.idle) (now +ℤ p.absolute)
        (omega (arith, v.positive, +ℤ_parts now p.idle))
        (omega (arith, v.ordered, +ℤ_parts now p.idle, +ℤ_parts now p.absolute)) room in
    rw (checked_add-of_fits now p.idle idle_fits, checked_add-of_fits now p.absolute room)
      ((restore_iff _).1 (record {
        issued = positive;
        open_window = omega (arith, v.positive, +ℤ_parts now p.idle);
        capped = omega (arith, v.ordered, +ℤ_parts now p.idle, +ℤ_parts now p.absolute);
        duration = add_sub_cancel now p.absolute;
        duration_fits = fits;
      }))

-- Renewals at the given times, in order.
unfoldable pub renew_all : SessionLifetime → List ℤ → Result SessionLifetime SessionError
renew_all l [] = ok l
renew_all l (now ∷ later) = do next ← renew l now; renew_all next later

-- One renewal of a valid session keeps it valid, moves the idle deadline alone, and only forward.
pub record Renewed (l n : SessionLifetime) : Type 0 where
  pub valid : IsValid n
  pub policy : n.policy ≡ l.policy
  pub issued : n.issued_at ≡ l.issued_at
  pub absolute : n.absolute_expires_at ≡ l.absolute_expires_at
  pub forward : l.idle_expires_at ≤ℤ n.idle_expires_at

pub renew-Renewed : (l n : SessionLifetime) (now : ℤ) → IsValid l → renew l now ≡ ok n → Renewed l n
unfolding renew
renew-Renewed l n now v h = ground (arith, v.duration)

Renewed-refl : (l : SessionLifetime) → IsValid l → Renewed l l
Renewed-refl l v = record {
  valid = v;
  policy = refl;
  issued = refl;
  absolute = refl;
  forward = omega arith;
}

Renewed-trans : (l m n : SessionLifetime) → Renewed l m → Renewed m n → Renewed l n
Renewed-trans l m n r s = record {
  valid = s.valid;
  policy = s.policy ∙ r.policy;
  issued = s.issued ∙ r.issued;
  absolute = s.absolute ∙ r.absolute;
  forward = omega (arith, r.forward, s.forward);
}

-- However often and whenever a session is renewed, it stays valid, keeps its policy, its issue time
-- and its absolute deadline, and never loses idle time.
renew_all-Renewed :
    (l n : SessionLifetime) (times : List ℤ) → IsValid l → renew_all l times ≡ ok n → Renewed l n
unfolding renew_all
renew_all-Renewed l n [] v h = subst (Renewed l) (ground (arith, h)) (Renewed-refl l v)
renew_all-Renewed l n (now ∷ later) v h =
    let (m, rest, first) = bind-ok_parts (λ next. renew_all next later) (renew l now) h in
    let r = renew-Renewed l m now v first in
    Renewed-trans l m n r (renew_all-Renewed m n later r.valid rest)

-- No sequence of renewals keeps a session alive past its absolute limit: at any time at which the
-- renewed session is accepted, less than the absolute limit has passed since it was issued.
pub renew_all-absolute :
    (l n : SessionLifetime) (times : List ℤ) (t : ℤ)
    → IsValid l
    → renew_all l times ≡ ok n
    → valid_at n t ≡ true
    → (l.issued_at ≤ℤ t) × (t <ℤ l.issued_at +ℤ l.policy.absolute)
unfolding valid_at
renew_all-absolute l n times t v h live =
    let r = renew_all-Renewed l n times v h in
    ground (
      arith,
      r.issued,
      r.absolute,
      v.duration,
      +ℤ_parts l.issued_at l.policy.absolute,
      -ℤ_parts l.absolute_expires_at l.issued_at,
    )

-- A renewal is refused exactly when the session is not valid at that time or the clock cannot hold
-- the extended deadline.
renew_refused :
    (l : SessionLifetime) (now : ℤ)
    → (renew l now ≡ err session_error)
      ↔ ((valid_at l now ≡ false) ⊎ (¬ IsI64 (now +ℤ l.policy.idle)))
unfolding renew checked_add
renew_refused l now = ((λ h. ground arith), (λ h. ground arith))

-- After a renewal at `now` the session is accepted at exactly the times from its issue up to the
-- later of its old idle deadline and `now` plus the idle limit, below the absolute deadline.
valid_at-renew :
    (l n : SessionLifetime) (now t : ℤ)
    → renew l now ≡ ok n
    → (valid_at n t ≡ true) ↔ (
        (l.issued_at ≤ℤ t)
        × ((t <ℤ l.idle_expires_at) ⊎ (t <ℤ now +ℤ l.policy.idle))
        × (t <ℤ l.absolute_expires_at))
unfolding renew checked_add
valid_at-renew l n now t h = ((λ k. ground arith), (λ k. ground arith))
