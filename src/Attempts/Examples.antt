-- ===== src/Attempts/Examples.antt =====
-- Reservations and claims in a tenant with a guard row, from empty tables.
use rss_identity.Common.{
  ℕ, ◌+◌, ◌≤◌, ◌≡◌, refl, true, none, some, List, [], ◌∷◌, arith, All, Result, ok, err,
}
use rss_identity.Common.Text.{Text, codes}
use rss_identity.Storage.{AuthorityError, Store, AuthenticationCandidate, lock_guard, rejected}
use rss_identity.Attempts.{
  Clock, Tables, PasswordRow, cleanup, total, login_digest_of, attempt, consume, rate_limited,
}
use rss_identity.Attempts.Table.{Unique, find, put, remove}
use rss_identity.Attempts.Reserve.{reserve}
use rss_identity.Attempts.Reserve.Windows.{IsWithin, admitted_in, reserve_window}
use rss_identity.Attempts.Operations.{
  Operation, reserving, claiming, settling, clearing, perform_all,
}
use rss_identity.Attempts.Operations.Rows.{IsScope}
use rss_identity.Attempts.Operations.Fresh.{IsFresh}
use rss_identity.Attempts.Passwords.{
  PasswordClaim, claim_password, settle_password, is_storable, clear,
}
use rss_identity.Attempts.Passwords.Ledger.{IsLedger}
use rss_identity.Attempts.Passwords.Settlement.{settle_password_err}
use rss_identity.Attempts.Passwords.Claims.{Guess, claim_all, claim_password_exclusive}
use rss_identity.Attempts.Passwords.Stale.{settle_password_stale}
use rss_identity.Attempts.Passwords.Guesses.{
  WrongPassword, IsTimely, guess_all, guess_all-le-password_failure_limit,
}
use rss_identity.Attempts.Steps.{Reach, IsBounded, Reach-IsBounded, start, next, claims}

abbrev store : Store
store = record { guarded = λ tenant. true; deployment = some 1; accounts = λ key. none }

abbrev empty : Tables
empty = record { attempts = []; passwords = [] }

abbrev at : ℕ → Clock
at now = λ i. now

abbrev scope : Text
scope = codes "link:a"

abbrev source : Text
source = codes "::1"

abbrev opened : Tables
opened = record {
  attempts =
      record { key = codes "s:::1"; count = 1; expires_at = 300000100 }
      ∷ record { key = codes "link:a"; count = 1; expires_at = 900000100 }
      ∷ [];
  passwords = [];
}

opens : reserve store (at 100) 7 scope source empty ≡ ok (opened, ok tt)
unfolding reserve cleanup attempt consume find put total lock_guard
opens = refl

scope-IsScope : IsScope scope
scope-IsScope = λ source. refl

abbrev again : Operation
again = reserving store (at 200) 7 scope source

abbrev mixed : List Operation
mixed =
    again
    ∷ claiming store (at 200) 7 (codes "alice") source 5 5000000
    ∷ reserving store (at 300) 7 (codes "link:b") source
    ∷ again
    ∷ settling store (at 400) 0 (record { tenant = 7; login = codes "alice"; token = 5 })
        (err rejected)
    ∷ again
    ∷ clearing (codes "alice" ∷ [])
    ∷ again
    ∷ again
    ∷ again
    ∷ []

mixed-IsWithin : All (IsWithin 900000100) mixed
mixed-IsWithin = (
  (λ i. omega arith),
  (
    (λ i. omega arith),
    (
      (λ i. omega arith),
      (
        (λ i. omega arith),
        (
          tt,
          (
            (λ i. omega arith),
            (tt, ((λ i. omega arith), ((λ i. omega arith), ((λ i. omega arith), tt)))),
          ),
        ),
      ),
    ),
  ),
)

reserve_window_example : 1 + admitted_in scope mixed opened ≤ 5
unfolding find
reserve_window_example =
    reserve_window store (at 100) 7 scope source mixed empty opened scope-IsScope refl opens
      mixed-IsWithin

-- Four of the six further reservations are admitted.
admits_four : admitted_in scope mixed opened ≡ 4
unfolding admitted_in perform_all reserve claim_password settle_password clear cleanup attempt
    consume find put remove total is_storable lock_guard rate_limited
admits_four = refl

abbrev digest : Text
digest = codes "alice"

abbrev claim : ℕ → PasswordClaim
claim token = record { tenant = 7; login = digest; token = token }

abbrev claimed_row : PasswordRow
claimed_row = record {
  login_digest = digest;
  failures = 0;
  window_until = none;
  claim_token = some 5;
  claim_until = some 5000100;
}

abbrev held : Tables
held = record {
  attempts = record { key = codes "s:::1"; count = 1; expires_at = 300000100 } ∷ [];
  passwords = claimed_row ∷ [];
}

grants : claim_password store (at 100) 7 digest source 5 5000000 empty ≡ ok (held, ok (claim 5))
unfolding claim_password cleanup attempt consume find put total is_storable lock_guard
grants = refl

abbrev guess : Guess
guess = record { source = codes "::2"; token = 6; timeout = 5000000; clock = at 200 }

claim_password_exclusive_example : (claim_all store 7 digest (guess ∷ guess ∷ []) held).0 ≡ 0
claim_password_exclusive_example =
    claim_password_exclusive store (at 100) 7 digest source 5 5000000 empty held (claim 5)
      (guess ∷ guess ∷ []) grants ((λ i. omega arith), ((λ i. omega arith), tt))

-- What follows the claim 5 of the login, which took the place of the claim 4
abbrev since : List Operation
since =
    claiming store (at 200) 7 digest source 6 5000000
    ∷ settling store (at 300) 0 (claim 5) (err rejected)
    ∷ claiming store (at 400) 7 digest source 6 5000000
    ∷ reserving store (at 500) 7 scope source
    ∷ []

since-IsFresh : All (IsFresh 4) since
since-IsFresh = (refl, (tt, (refl, (tt, tt))))

settle_password_stale_example :
    settle_password store (at 600) 0 (claim 4) (err rejected) (perform_all since held)
    ≡ ok (perform_all since held, err rejected)
unfolding Unique lock_guard
settle_password_stale_example =
    settle_password_stale store store (at 100) (at 600) 0 source 5 5000000 empty held (claim 4)
      (claim 5) (err rejected) since tt grants refl since-IsFresh refl

-- Then the claim 6 holds the login.
holds_six :
    find login_digest_of digest (perform_all since held).passwords
    ≡ some (record {
      login_digest = digest;
      failures = 1;
      window_until = some 600000300;
      claim_token = some 6;
      claim_until = some 5000400;
    })
unfolding perform_all reserve claim_password settle_password cleanup attempt consume find put total
    is_storable lock_guard rate_limited
holds_six = refl

held-IsLedger : IsLedger held
unfolding is_storable
held-IsLedger = (record { storable = refl; claimable = λ h. omega arith }, tt)

settle_password_err_example :
    (after : Tables) × (out : Result AuthenticationCandidate AuthorityError) × (settle_password
        store
        (at 300)
        0
        (claim 5)
        (err rejected)
        held
      ≡ ok (after, out))
    × IsLedger after
settle_password_err_example =
    settle_password_err store (at 300) 0 (claim 5) rejected held refl held-IsLedger

abbrev failing : Tables
failing = record {
  attempts = [];
  passwords =
      record {
        login_digest = digest;
        failures = 3;
        window_until = some 600000000;
        claim_token = none;
        claim_until = none;
      }
      ∷ [];
}

abbrev wrong : WrongPassword
wrong = record {
  source = source;
  token = 6;
  timeout = 5000000;
  claims_at = at 100;
  settles_at = at 200;
  instant = 0;
}

wrong-IsTimely : IsTimely 600000000 wrong
wrong-IsTimely = record {
  claim_before = λ i. omega arith;
  settle_before = λ i. omega arith;
  in_claim = omega arith;
}

guess_all-le-password_failure_limit_example :
    3 + (guess_all store 7 digest (wrong ∷ wrong ∷ wrong ∷ []) failing).0 ≤ 5
unfolding find
guess_all-le-password_failure_limit_example =
    guess_all-le-password_failure_limit store 7 digest (wrong ∷ wrong ∷ wrong ∷ []) 3 600000000
      failing refl (omega arith) (wrong-IsTimely, (wrong-IsTimely, (wrong-IsTimely, tt)))
      (record {
        row = record {
          login_digest = digest;
          failures = 3;
          window_until = some 600000000;
          claim_token = none;
          claim_until = none;
        };
        there = refl;
        counted = refl;
        ends = refl;
      })

-- Two of the three are checked.
checks_two : (guess_all store 7 digest (wrong ∷ wrong ∷ wrong ∷ []) failing).0 ≡ 2
unfolding guess_all claim_password settle_password cleanup attempt consume find put total
    is_storable lock_guard rate_limited
checks_two = refl

held-Reach : Reach held
held-Reach =
    next start (claims store (at 100) 7 digest source 5 5000000 (λ i j h. omega arith) grants)

Reach-IsBounded_example : IsBounded held
Reach-IsBounded_example = Reach-IsBounded held-Reach
