-- ===== src/Attempts/Reserve/Decisions.antt =====
-- The two ways in which a reservation ends: refused, with nothing changed but the cleanup, or admitted.
use rss_identity.Common.{
  ◌+◌, ◌≤◌, max, ◌≡◌, ◌⊎◌, inl, inr, true, false, arith, ltb, Bool-cases, Result, ok, is_ok,
  Result-cases,
}
use rss_identity.Storage.{AuthorityError}
use rss_identity.Attempts.{Clock, Tables, Attempt, consume, rate_limited, total, max_attempt_rows}
use rss_identity.Attempts.Reserve.{one_unless, reserved}

-- What was found and done when a reservation was admitted
pub record Admitted (t : Clock) (by_source by_scope : Attempt) (tables after : Tables)
    (out : Result (Unit {0}) AuthorityError) : Type 0 where
  pub in_time : ltb 0 (max by_source.retry by_scope.retry) ≡ false
  pub room :
      total tables + one_unless by_source.is_stored + one_unless by_scope.is_stored
      ≤ max_attempt_rows
  pub counts : consume (t 9) by_scope (consume (t 8) by_source tables) ≡ after
  pub done : is_ok out ≡ true

pub reserved-cases :
    (t : Clock) (by_source by_scope : Attempt) (tables after : Tables)
    (out : Result (Unit {0}) AuthorityError)
    → reserved t by_source by_scope tables ≡ ok (after, out)
    → ((is_ok out ≡ false) × (tables ≡ after)) ⊎ Admitted t by_source by_scope tables after out
unfolding reserved
reserved-cases t by_source by_scope tables after out h =
    let retry = max by_source.retry by_scope.retry in
    let needed = total tables + one_unless by_source.is_stored + one_unless by_scope.is_stored in
    elim (Bool-cases (ltb 0 retry)) [
      | inl late ↦ elim (Result-cases (rate_limited retry)) [
        | inr (x, l) ↦ absurd (ground (arith, h, late, l))
        | inl (x, l) ↦ inl (ground (arith, h, late, l), ground (arith, h, late, l))
      ]
      | inr in_time ↦ elim (Bool-cases (ltb max_attempt_rows needed)) [
        | inl full ↦ inl (ground (arith, h, in_time, full), ground (arith, h, in_time, full))
        | inr room ↦ inr (record {
          in_time = in_time;
          room = ground (arith, room);
          counts = ground (arith, h, in_time, room);
          done = ground (arith, h, in_time, room);
        })
      ]
    ]
