-- ===== src/Attempts/Reserve/Windows.antt =====
-- How many reservations of one scope are admitted while its window is open, among all transactions.
use rss_identity.Common.{
  ℕ, ◌+◌, ◌≤◌, ◌<◌, ◌≡◌, refl, sym, subst, inl, inr, none, some, List, [], ◌∷◌, arith,
  if◌then◌else◌, Bool-cases, All, Result, ok, err, Result-cases,
}
use rss_identity.Common.Text.{Text, text_eq, text_eq_iff}
use rss_identity.Common.Ids.{Uuid}
use rss_identity.Storage.{AuthorityError, PgError, Store}
use rss_identity.Attempts.{
  Clock, Tables, AttemptRow, attempt_key, attempt_scope_limit, attempt_scope_seconds,
  seconds_to_micros,
}
use rss_identity.Attempts.Table.{find}
use rss_identity.Attempts.Reserve.{reserve}
use rss_identity.Attempts.Reserve.Step.{Before, Stepped, reserve-Stepped}
use rss_identity.Attempts.Reserve.Opening.{reserve_opens}
use rss_identity.Attempts.Passwords.{claim_password, settle_password}
use rss_identity.Attempts.Passwords.Guesses.{left_by}
use rss_identity.Attempts.Operations.{Operation, reserving, claiming, settling, clearing, perform}
use rss_identity.Attempts.Operations.Rows.{
  IsScope, reserve-kept, claim_password-kept, settle_password-attempts, clear-attempts,
}

abbrev pub admissions : Result (Tables × Result (Unit {0}) AuthorityError) PgError → ℕ
admissions (err x) = 0
admissions (ok (after, ok u)) = 1
admissions (ok (after, err e)) = 0

-- Whether a transaction is an admitted reservation of the scope
abbrev pub admitted_by : Text → Operation → Tables → ℕ
admitted_by scope (reserving store t tenant other source) tables =
    if text_eq other scope then admissions (reserve store t tenant other source tables) else 0
admitted_by scope _ tables = 0

-- How many are, when the transactions run one after the other
unfoldable pub admitted_in : Text → List Operation → Tables → ℕ
admitted_in scope [] tables = 0
admitted_in scope (o ∷ os) tables =
    admitted_by scope o tables + admitted_in scope os (perform o tables)

-- The transactions that read the clock before they delete or count rows read it before a time.
abbrev pub IsWithin : ℕ → Operation → Type 0
IsWithin until (reserving store t tenant scope source) = Before t until
IsWithin until (claiming store t tenant digest source token timeout) = Before t until
IsWithin until _ = Unit {0}

-- The row of the scope after a step that admitted n reservations of it
record IsNext (scope : Text) (r r' : AttemptRow) (n : ℕ) (after : Tables) : Type 0 where
  there : find attempt_key scope after.attempts ≡ some r'
  same_end : r'.expires_at ≡ r.expires_at
  counted : r'.count ≡ r.count + n
  some_count : 0 < r'.count
  few : r'.count ≤ attempt_scope_limit

kept-IsNext :
    (scope : Text) (r : AttemptRow) (after : Tables)
    → find attempt_key scope after.attempts ≡ some r
    → 0 < r.count
    → r.count ≤ attempt_scope_limit
    → IsNext scope r r 0 after
kept-IsNext scope r after e pos' le = record {
  there = e;
  same_end = refl;
  counted = omega arith;
  some_count = pos';
  few = le;
}

Stepped-IsNext :
    (scope : Text) (r : AttemptRow) (after : Tables) (out : Result (Unit {0}) AuthorityError)
    → 0 < r.count
    → r.count ≤ attempt_scope_limit
    → Stepped scope r after out
    → (r' : AttemptRow) × IsNext scope r r' (admissions (ok (after, out))) after
Stepped-IsNext scope r after (ok u) pos' le (inl (done, lt, e)) = (
  record r { count = r.count + 1 },
  record {
    there = e;
    same_end = refl;
    counted = refl;
    some_count = omega arith;
    few = omega (arith, lt);
  },
)
Stepped-IsNext scope r after (ok u) pos' le (inr (refused, e)) = absurd (ground (arith, refused))
Stepped-IsNext scope r after (err x) pos' le (inl (done, lt, e)) = absurd (ground (arith, done))
Stepped-IsNext scope r after (err x) pos' le (inr (refused, e)) =
    (r, kept-IsNext scope r after e pos' le)

-- A reservation of the scope itself
own_step :
    (store : Store) (t : Clock) (tenant : Uuid) (scope source : Text) (tables : Tables)
    (r : AttemptRow)
    → IsScope scope
    → find attempt_key scope tables.attempts ≡ some r
    → 0 < r.count
    → r.count ≤ attempt_scope_limit
    → Before t r.expires_at
    → (r' : AttemptRow) × IsNext scope r r'
        (admissions (reserve store t tenant scope source tables))
        (left_by tables (reserve store t tenant scope source tables))
own_step store t tenant scope source tables r s e pos' le b =
    elim (Result-cases (reserve store t tenant scope source tables)) [
      | inr (x, h) ↦ rw h (r, kept-IsNext scope r tables e pos' le)
      | inl ((after, out), h) ↦ rw h (
          Stepped-IsNext scope r after out pos' le
            (reserve-Stepped store t tenant scope source tables after r out e pos' b (s source) h))
    ]

-- A row that a transaction keeps if it commits is kept.
left_by-kept {ℓ} :
    {A : Type ℓ} (tables : Tables) (scope : Text) (r : AttemptRow)
    (result : Result (Tables × A) PgError)
    → find attempt_key scope tables.attempts ≡ some r
    → ((after : Tables) (out : A)
        → result ≡ ok (after, out)
        → find attempt_key scope after.attempts ≡ some r)
    → find attempt_key scope (left_by tables result).attempts ≡ some r
left_by-kept tables scope r (err x) e kept = e
left_by-kept tables scope r (ok (after, out)) e kept = kept after out refl

admitted_step :
    (scope : Text) (o : Operation) (tables : Tables) (r : AttemptRow)
    → IsScope scope
    → find attempt_key scope tables.attempts ≡ some r
    → 0 < r.count
    → r.count ≤ attempt_scope_limit
    → IsWithin r.expires_at o
    → (r' : AttemptRow) × IsNext scope r r' (admitted_by scope o tables) (perform o tables)
admitted_step scope (reserving store t tenant other source) tables r s e pos' le b =
    elim (Bool-cases (text_eq other scope)) [
      | inl same ↦ rw same (
          rw ((text_eq_iff other scope).0 same)
            (own_step store t tenant scope source tables r s e pos' le b))
      | inr apart ↦ rw apart (
        r,
        kept-IsNext scope r _
            (left_by-kept tables scope r (reserve store t tenant other source tables) e
              (λ after out h.
                reserve-kept store t tenant scope other source tables after r out s apart e b h))
            pos' le,
      )
    ]
admitted_step scope (claiming store t tenant digest source token timeout) tables r s e pos' le b = (
  r,
  kept-IsNext scope r _
      (left_by-kept tables scope r
        (claim_password store t tenant digest source token timeout tables) e
        (λ after out h.
          claim_password-kept store t tenant scope digest source token timeout tables after r out s
            e b h))
      pos' le,
)
admitted_step scope (settling store t instant claim outcome) tables r s e pos' le b = (
  r,
  kept-IsNext scope r _
      (left_by-kept tables scope r (settle_password store t instant claim outcome tables) e
        (λ after out h.
          subst (λ rows. find attempt_key scope rows ≡ some r)
            (settle_password-attempts store t instant claim outcome tables after out h) e))
      pos' le,
)
admitted_step scope (clearing digests) tables r s e pos' le b = (
  r,
  kept-IsNext scope r _
      (subst (λ rows. find attempt_key scope rows ≡ some r) (clear-attempts digests tables) e) pos'
      le,
)

-- While the window of a scope is open, what its row counts and the reservations of it that are still
-- admitted, among transactions of every kind, are together at most five.
admitted_in-le-attempt_scope_limit :
    (scope : Text) (os : List Operation) (tables : Tables) (r : AttemptRow)
    → IsScope scope
    → find attempt_key scope tables.attempts ≡ some r
    → 0 < r.count
    → r.count ≤ attempt_scope_limit
    → All (IsWithin r.expires_at) os
    → r.count + admitted_in scope os tables ≤ attempt_scope_limit
unfolding admitted_in
admitted_in-le-attempt_scope_limit scope [] tables r s e pos' le later = omega (arith, le)
admitted_in-le-attempt_scope_limit scope (o ∷ os) tables r s e pos' le (now, later) =
    let (r', n) = admitted_step scope o tables r s e pos' le now in
    let rest : r'.count + admitted_in scope os (perform o tables) ≤ attempt_scope_limit =
      admitted_in-le-attempt_scope_limit scope os (perform o tables) r' s n.there n.some_count n.few
        (subst (λ w. All (IsWithin w) os) (sym n.same_end) later) in
    omega (arith, n.counted, rest)

-- A scope whose text is the key of no source, and which has no row, gets at most five reservations:
-- the first, if admitted, and at most four in the 900 seconds after the statement that counts it. Any
-- reservations of this and other scopes, claims, settlements and clears may run in between, those that
-- read the clock to delete or count rows within that time.
pub reserve_window :
    (store : Store) (t : Clock) (tenant : Uuid) (scope source : Text) (os : List Operation)
    (tables after : Tables)
    → IsScope scope
    → find attempt_key scope tables.attempts ≡ none
    → reserve store t tenant scope source tables ≡ ok (after, ok tt)
    → All (IsWithin (t 9 + seconds_to_micros attempt_scope_seconds)) os
    → 1 + admitted_in scope os after ≤ attempt_scope_limit
reserve_window store t tenant scope source os tables after s e h later =
    admitted_in-le-attempt_scope_limit scope os after _ s
      (reserve_opens store t tenant scope source tables after e (s source) h) (omega arith)
      (omega arith) later
