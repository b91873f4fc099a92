-- ===== src/Attempts/Reserve/Opening.antt =====
-- What the first reservation of a scope stores.
use rss_identity.Common.{
  ℕ, ◌+◌, ◌≡◌, subst, ◌∙◌, inl, inr, false, none, some, arith, ok, Result-cases,
}
use rss_identity.Common.Text.{Text, text_eq}
use rss_identity.Common.Ids.{Uuid}
use rss_identity.Storage.{Store, lock_guard}
use rss_identity.Attempts.{
  Clock, Tables, Attempt, attempt, attempt_key, consumed, consume, cleanup, attempt_scope_limit,
  attempt_scope_seconds, attempt_source_limit, attempt_source_seconds, seconds_to_micros,
}
use rss_identity.Attempts.Table.{find}
use rss_identity.Attempts.Reserve.{source_key, reserved, reserve}
use rss_identity.Attempts.Reserve.Step.{
  cleanup_absent, attempt_key_is, find-consume, find-consume_other,
}
use rss_identity.Attempts.Reserve.Decisions.{reserved-cases}

-- An admitted reservation counts at its source and then at its scope.
reserved_counts :
    (t : Clock) (by_source by_scope : Attempt) (tables after : Tables)
    → reserved t by_source by_scope tables ≡ ok (after, ok tt)
    → consume (t 9) by_scope (consume (t 8) by_source tables) ≡ after
reserved_counts t by_source by_scope tables after h =
    elim (reserved-cases t by_source by_scope tables after (ok tt) h) [
      | inl (refused, same) ↦ absurd (ground (arith, refused))
      | inr g ↦ g.counts
    ]

-- The read of a scope without a row
fresh_attempt :
    (t : Clock) (i : ℕ) (tables : Tables) (key : Text) (limit seconds : ℕ)
    → find attempt_key key tables.attempts ≡ none
    → attempt t i tables key limit seconds
      ≡ record { key = key; count = 0; seconds = seconds; is_stored = false; retry = 0 }
unfolding attempt
fresh_attempt t i tables key limit seconds e = ground (arith, e)

consume_fresh :
    (now : ℕ) (a : Attempt) (tables : Tables)
    → find attempt_key a.key tables.attempts ≡ none
    → find attempt_key a.key (consume now a tables).attempts
      ≡ some (record { key = a.key; count = 1; expires_at = now + seconds_to_micros a.seconds })
unfolding consumed
consume_fresh now a tables e = find-consume now a tables ∙ ground (arith, e)

reserved_opens :
    (t : Clock) (by_source : Attempt) (scope : Text) (tables after : Tables)
    → find attempt_key scope tables.attempts ≡ none
    → text_eq by_source.key scope ≡ false
    → reserved t by_source
        (attempt t 5 tables scope attempt_scope_limit attempt_scope_seconds)
        tables
      ≡ ok (after, ok tt)
    → find attempt_key scope after.attempts
      ≡ some (record {
        key = scope;
        count = 1;
        expires_at = t 9 + seconds_to_micros attempt_scope_seconds;
      })
reserved_opens t by_source scope tables after e other h =
    let a : Attempt = record {
      key = scope;
      count = 0;
      seconds = attempt_scope_seconds;
      is_stored = false;
      retry = 0;
    } in
    let first = consume (t 8) by_source tables in
    let absent : find attempt_key scope first.attempts ≡ none =
      find-consume_other (t 8) by_source tables scope other ∙ e in
    let plain : reserved t by_source a tables ≡ ok (after, ok tt) =
      subst (λ x. reserved t by_source x tables ≡ ok (after, ok tt))
        (fresh_attempt t 5 tables scope attempt_scope_limit attempt_scope_seconds e) h in
    subst
      (λ s.
        find attempt_key scope s.attempts
        ≡ some (record {
          key = scope;
          count = 1;
          expires_at = t 9 + seconds_to_micros attempt_scope_seconds;
        }))
      (reserved_counts t by_source a tables after plain) (consume_fresh (t 9) a first absent)

-- A reservation of a scope without a row, if admitted, opens its window.
pub reserve_opens :
    (store : Store) (t : Clock) (tenant : Uuid) (scope source : Text) (tables after : Tables)
    → find attempt_key scope tables.attempts ≡ none
    → text_eq (source_key source) scope ≡ false
    → reserve store t tenant scope source tables ≡ ok (after, ok tt)
    → find attempt_key scope after.attempts
      ≡ some (record {
        key = scope;
        count = 1;
        expires_at = t 9 + seconds_to_micros attempt_scope_seconds;
      })
unfolding reserve
reserve_opens store t tenant scope source tables after e other h =
    elim (Result-cases (lock_guard store tenant)) [
      | inr (x, l) ↦ absurd (ground (arith, h, l))
      | inl (u, l) ↦
          let cleaned = cleanup t 0 tables in
          let by_source =
            attempt t 2 cleaned (source_key source) attempt_source_limit attempt_source_seconds in
          let absent = cleanup_absent t 0 tables scope e in
          let apart : text_eq by_source.key scope ≡ false =
            rw
              (attempt_key_is t 2 cleaned (source_key source) attempt_source_limit
                attempt_source_seconds)
              other in
          reserved_opens t by_source scope cleaned after absent apart (ground (arith, h, l))
    ]
