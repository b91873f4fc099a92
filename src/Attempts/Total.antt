-- ===== src/Attempts/Total.antt =====
-- The number of rows of a tenant stays within its limit.
use rss_identity.Common.{
  ℕ, ◌+◌, ◌-◌, ◌≤◌, ◌≡◌, subst, inl, inr, false, not, some, List, arith, if◌then◌else◌, Bool-cases,
  Option-cases, is_none, length, Result, ok, Result-cases,
}
use rss_identity.Common.Text.{Text, text_eq, text_eq_iff}
use rss_identity.Common.Ids.{Uuid}
use rss_identity.Storage.{AuthorityError, Store, lock_guard}
use rss_identity.Attempts.{
  Clock, Tables, AttemptRow, Attempt, attempt, attempt_key, attempt_due, attempt_before,
  attempt_source_limit, attempt_source_seconds, attempt_scope_limit, attempt_scope_seconds, cleanup,
  consume, consumed, total, max_attempt_rows, login_digest_of, password_due, password_before,
}
use rss_identity.Attempts.Table.{find, put, length-put, find-put, find-put_other}
use rss_identity.Attempts.Purge.{purge, purge-IsPurge}
use rss_identity.Attempts.Reserve.{source_key, one_unless, reserved, reserve}
use rss_identity.Attempts.Reserve.Step.{attempt_key_is, consumed_key}
use rss_identity.Attempts.Reserve.Decisions.{reserved-cases}

pub cleanup-total :
    (t : Clock) (i : ℕ) (tables : Tables) → total (cleanup t i tables) ≤ total tables
unfolding cleanup total
cleanup-total t i tables =
    let a = purge-IsPurge attempt_key (attempt_due (t i)) attempt_before 128 tables.attempts in
    let p =
      purge-IsPurge login_digest_of (password_due (t (i + 1))) password_before
        (128 - (purge attempt_key (attempt_due (t i)) attempt_before 128 tables.attempts).1)
        tables.passwords in
    omega (arith, a.counted, p.counted)

-- A read knows whether its row is stored.
attempt_is_stored :
    (t : Clock) (i : ℕ) (tables : Tables) (key : Text) (limit seconds : ℕ)
    → (attempt t i tables key limit seconds).is_stored
      ≡ not (is_none (find attempt_key key tables.attempts))
unfolding attempt
attempt_is_stored t i tables key limit seconds =
    elim (Option-cases (find attempt_key key tables.attempts)) [
      | inl e ↦ ground (arith, e)
      | inr (r, e) ↦ ground (arith, e)
    ]

pub stored_by :
    (t : Clock) (i : ℕ) (tables : Tables) (key : Text) (limit seconds : ℕ)
    → (attempt t i tables key limit seconds).is_stored
      ≡ not (is_none (find attempt_key (attempt t i tables key limit seconds).key tables.attempts))
stored_by t i tables key limit seconds =
    rw (attempt_key_is t i tables key limit seconds)
      (attempt_is_stored t i tables key limit seconds)

-- A count adds a row only if it had none.
pub consume-total :
    (now : ℕ) (a : Attempt) (tables : Tables)
    → total (consume now a tables)
      ≤ total tables + one_unless (not (is_none (find attempt_key a.key tables.attempts)))
unfolding consume total
consume-total now a tables =
    let o = find attempt_key a.key tables.attempts in
    let l : length (put attempt_key (consumed now a o) tables.attempts)
        ≤ length tables.attempts
          + (if is_none (find attempt_key a.key tables.attempts) then 1 else 0) =
      subst
        (λ k.
          length (put attempt_key (consumed now a o) tables.attempts)
          ≤ length tables.attempts
            + (if is_none (find attempt_key k tables.attempts) then 1 else 0))
        (consumed_key now a o) (length-put attempt_key (consumed now a o) tables.attempts) in
    ground (arith, l)

-- What is stored stays stored.
put-stored :
    (x : AttemptRow) (rows : List AttemptRow) (k : Text)
    → is_none (find attempt_key k rows) ≡ false
    → is_none (find attempt_key k (put attempt_key x rows)) ≡ false
put-stored x rows k h = elim (Bool-cases (text_eq x.key k)) [
  | inr e ↦ ground (arith, h, find-put_other attempt_key x rows k e)
  | inl e ↦
      let at : find attempt_key k (put attempt_key x rows) ≡ some x =
        subst (λ z. find attempt_key z (put attempt_key x rows) ≡ some x)
          ((text_eq_iff x.key k).0 e) (find-put attempt_key x rows) in
      ground (arith, at)
]

one_unless-le :
    (x : AttemptRow) (rows : List AttemptRow) (k : Text)
    → one_unless (not (is_none (find attempt_key k (put attempt_key x rows))))
      ≤ one_unless (not (is_none (find attempt_key k rows)))
one_unless-le x rows k = elim (Bool-cases (is_none (find attempt_key k rows))) [
  | inl h ↦ ground (arith, h)
  | inr h ↦ ground (arith, h, put-stored x rows k h)
]

-- The two counts of a reservation add at most the rows that its reads did not find.
consume_both :
    (t : Clock) (by_source by_scope : Attempt) (tables : Tables)
    → by_source.is_stored ≡ not (is_none (find attempt_key by_source.key tables.attempts))
    → by_scope.is_stored ≡ not (is_none (find attempt_key by_scope.key tables.attempts))
    → total (consume (t 9) by_scope (consume (t 8) by_source tables))
      ≤ total tables + one_unless by_source.is_stored + one_unless by_scope.is_stored
unfolding consume
consume_both t by_source by_scope tables e k =
    let first = consume (t 8) by_source tables in
    let x = consumed (t 8) by_source (find attempt_key by_source.key tables.attempts) in
    rw (e, k)
      (omega (
        arith,
        consume-total (t 8) by_source tables,
        consume-total (t 9) by_scope first,
        one_unless-le x tables.attempts by_scope.key,
      ))

reserved-total :
    (t : Clock) (by_source by_scope : Attempt) (tables after : Tables)
    (out : Result (Unit {0}) AuthorityError)
    → by_source.is_stored ≡ not (is_none (find attempt_key by_source.key tables.attempts))
    → by_scope.is_stored ≡ not (is_none (find attempt_key by_scope.key tables.attempts))
    → total tables ≤ max_attempt_rows
    → reserved t by_source by_scope tables ≡ ok (after, out)
    → total after ≤ max_attempt_rows
reserved-total t by_source by_scope tables after out e k le h =
    elim (reserved-cases t by_source by_scope tables after out h) [
      | inl (refused, same) ↦ subst (λ s. total s ≤ max_attempt_rows) same le
      | inr g ↦
          let both = consume_both t by_source by_scope tables e k in
          subst (λ s. total s ≤ max_attempt_rows) g.counts (omega (arith, g.room, both))
    ]

pub reserve-total :
    (store : Store) (t : Clock) (tenant : Uuid) (scope source : Text) (tables after : Tables)
    (out : Result (Unit {0}) AuthorityError)
    → total tables ≤ max_attempt_rows
    → reserve store t tenant scope source tables ≡ ok (after, out)
    → total after ≤ max_attempt_rows
unfolding reserve
reserve-total store t tenant scope source tables after out le h =
    elim (Result-cases (lock_guard store tenant)) [
      | inr (x, l) ↦ absurd (ground (arith, h, l))
      | inl (u, l) ↦
          let cleaned = cleanup t 0 tables in
          let by_source =
            attempt t 2 cleaned (source_key source) attempt_source_limit attempt_source_seconds in
          let by_scope = attempt t 5 cleaned scope attempt_scope_limit attempt_scope_seconds in
          reserved-total t by_source by_scope cleaned after out
            (stored_by t 2 cleaned (source_key source) attempt_source_limit attempt_source_seconds)
            (stored_by t 5 cleaned scope attempt_scope_limit attempt_scope_seconds)
            (omega (arith, cleanup-total t 0 tables, le)) (ground (arith, h, l))
    ]
