-- ===== src/Attempts/Reserve/Step.antt =====
-- What one reservation does to the row of its scope while its window is open.
use rss_identity.Common.{
  ℕ, ◌+◌, ◌<◌, ◌≡◌, refl, sym, subst, ◌∙◌, ◌⊎◌, inl, inr, true, false, Option, none, some, arith,
  ltb, leb, Option-cases, Result, ok, is_ok, Result-cases,
}
use rss_identity.Common.Text.{Text, text_eq}
use rss_identity.Attempts.{
  Clock, Tables, Attempt, AttemptRow, attempt, attempt_key, attempt_due, attempt_before, consumed,
  consume, cleanup, attempt_scope_limit, attempt_scope_seconds, attempt_source_limit,
  attempt_source_seconds,
}
use rss_identity.Attempts.Table.{key-find, find, put, find-put, find-put_other}
use rss_identity.Common.Ids.{Uuid}
use rss_identity.Storage.{AuthorityError, Store, lock_guard}
use rss_identity.Attempts.Reserve.{source_key, reserved, reserve}
use rss_identity.Attempts.Purge.{purge-IsPurge}
use rss_identity.Attempts.Reserve.Decisions.{reserved-cases}

-- Every reading comes before a time.
abbrev pub Before : Clock → ℕ → Type 0
Before t until = (i : ℕ) → t i < until

pub cleanup_kept :
    (t : Clock) (i : ℕ) (tables : Tables) (k : Text) (r : AttemptRow)
    → find attempt_key k tables.attempts ≡ some r
    → t i < r.expires_at
    → find attempt_key k (cleanup t i tables).attempts ≡ some r
unfolding cleanup
cleanup_kept t i tables k r h lt =
    (purge-IsPurge attempt_key (attempt_due (t i)) attempt_before 128 tables.attempts).kept k r h
      (ground arith)

pub cleanup_absent :
    (t : Clock) (i : ℕ) (tables : Tables) (k : Text)
    → find attempt_key k tables.attempts ≡ none
    → find attempt_key k (cleanup t i tables).attempts ≡ none
unfolding cleanup
cleanup_absent t i tables k h =
    (purge-IsPurge attempt_key (attempt_due (t i)) attempt_before 128 tables.attempts).absent k h

pub consumed_key : (now : ℕ) (a : Attempt) (o : Option AttemptRow) → (consumed now a o).key ≡ a.key
unfolding consumed
consumed_key now a none = refl
consumed_key now a (some row) = refl

pub find-consume :
    (now : ℕ) (a : Attempt) (tables : Tables)
    → find attempt_key a.key (consume now a tables).attempts
      ≡ some (consumed now a (find attempt_key a.key tables.attempts))
unfolding consume
find-consume now a tables =
    let o = find attempt_key a.key tables.attempts in
    subst
      (λ k.
        find attempt_key k (put attempt_key (consumed now a o) tables.attempts)
        ≡ some (consumed now a o))
      (consumed_key now a o) (find-put attempt_key (consumed now a o) tables.attempts)

pub find-consume_other :
    (now : ℕ) (a : Attempt) (tables : Tables) (k : Text)
    → text_eq a.key k ≡ false
    → find attempt_key k (consume now a tables).attempts ≡ find attempt_key k tables.attempts
unfolding consume
find-consume_other now a tables k h =
    let o = find attempt_key a.key tables.attempts in
    find-put_other attempt_key (consumed now a o) tables.attempts k
      (subst (λ s. text_eq s k ≡ false) (sym (consumed_key now a o)) h)

pub attempt_key_is :
    (t : Clock) (i : ℕ) (tables : Tables) (key : Text) (limit seconds : ℕ)
    → (attempt t i tables key limit seconds).key ≡ key
unfolding attempt
attempt_key_is t i tables key limit seconds =
    elim (Option-cases (find attempt_key key tables.attempts)) [
      | inl e ↦ ground (arith, e)
      | inr (r, e) ↦ ground (arith, e)
    ]

-- The read of a row that is live at every reading
live_attempt :
    (t : Clock) (i : ℕ) (tables : Tables) (key : Text) (limit seconds : ℕ) (r : AttemptRow)
    → find attempt_key key tables.attempts ≡ some r
    → Before t r.expires_at
    → ((attempt t i tables key limit seconds).count ≡ r.count)
      × (ltb 0 (attempt t i tables key limit seconds).retry ≡ leb limit r.count)
unfolding attempt
live_attempt t i tables key limit seconds r e b =
    (ground (arith, e, b i), ground (arith, e, b (i + 1)))

-- What a reservation does to the live row of its scope
abbrev pub Stepped : Text → AttemptRow → Tables → Result (Unit {0}) AuthorityError → Type 0
Stepped scope r after out =
    ((is_ok out ≡ true)
      × (r.count < attempt_scope_limit)
      × (find attempt_key scope after.attempts ≡ some (record r { count = r.count + 1 })))
    ⊎ ((is_ok out ≡ false) × (find attempt_key scope after.attempts ≡ some r))

consume_live :
    (now : ℕ) (a : Attempt) (tables : Tables) (r : AttemptRow)
    → find attempt_key a.key tables.attempts ≡ some r
    → r.key ≡ a.key
    → a.count ≡ r.count
    → 0 < r.count
    → find attempt_key a.key (consume now a tables).attempts
      ≡ some (record r { count = r.count + 1 })
unfolding consumed
consume_live now a tables r e k c pos' = find-consume now a tables ∙ ground (arith, e, k, c, pos')

reserved_live :
    (t : Clock) (by_source by_scope : Attempt) (tables after : Tables) (r : AttemptRow)
    (out : Result (Unit {0}) AuthorityError)
    → find attempt_key by_scope.key tables.attempts ≡ some r
    → r.key ≡ by_scope.key
    → by_scope.count ≡ r.count
    → 0 < r.count
    → ltb 0 by_scope.retry ≡ leb attempt_scope_limit r.count
    → text_eq by_source.key by_scope.key ≡ false
    → reserved t by_source by_scope tables ≡ ok (after, out)
    → Stepped by_scope.key r after out
reserved_live t by_source by_scope tables after r out e k c pos' limit other h =
    elim (reserved-cases t by_source by_scope tables after out h) [
      | inl (refused, same) ↦
          inr (refused, subst (λ s. find attempt_key by_scope.key s.attempts ≡ some r) same e)
      | inr g ↦
          let first = consume (t 8) by_source tables in
          let kept : find attempt_key by_scope.key first.attempts ≡ some r =
            find-consume_other (t 8) by_source tables by_scope.key other ∙ e in
          inl (
            g.done,
            ground (arith, g.in_time, limit),
            subst
                (λ s.
                  find attempt_key by_scope.key s.attempts
                  ≡ some (record r { count = r.count + 1 }))
                g.counts (consume_live (t 9) by_scope first r kept k c pos'),
          )
    ]

pub reserve-Stepped :
    (store : Store) (t : Clock) (tenant : Uuid) (scope source : Text) (tables after : Tables)
    (r : AttemptRow) (out : Result (Unit {0}) AuthorityError)
    → find attempt_key scope tables.attempts ≡ some r
    → 0 < r.count
    → Before t r.expires_at
    → text_eq (source_key source) scope ≡ false
    → reserve store t tenant scope source tables ≡ ok (after, out)
    → Stepped scope r after out
unfolding reserve
reserve-Stepped store t tenant scope source tables after r out e pos' live other h =
    elim (Result-cases (lock_guard store tenant)) [
      | inr (x, l) ↦ absurd (ground (arith, h, l))
      | inl (u, l) ↦
          let cleaned = cleanup t 0 tables in
          let by_source =
            attempt t 2 cleaned (source_key source) attempt_source_limit attempt_source_seconds in
          let by_scope = attempt t 5 cleaned scope attempt_scope_limit attempt_scope_seconds in
          let there : find attempt_key scope cleaned.attempts ≡ some r =
            cleanup_kept t 0 tables scope r e (live 0) in
          let at_scope : by_scope.key ≡ scope =
            attempt_key_is t 5 cleaned scope attempt_scope_limit attempt_scope_seconds in
          let at_source : by_source.key ≡ source_key source =
            attempt_key_is t 2 cleaned (source_key source) attempt_source_limit
              attempt_source_seconds in
          let (counted, limited) =
            live_attempt t 5 cleaned scope attempt_scope_limit attempt_scope_seconds r there live in
          let apart : text_eq by_source.key by_scope.key ≡ false = rw (at_scope, at_source) other in
          subst (λ k. Stepped k r after out) at_scope
            (reserved_live t by_source by_scope cleaned after r out (rw at_scope there)
              (key-find attempt_key scope tables.attempts r e ∙ sym at_scope) counted pos' limited
              apart (ground (arith, h, l)))
    ]
