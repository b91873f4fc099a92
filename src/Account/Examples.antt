-- ===== src/Account/Examples.antt =====
-- The account theorems at concrete accounts.
use rss_identity.Common.{
  ℕ, zero, suc, ◌+◌, ◌-◌, ◌≤◌, ◌≡◌, refl, ◌↔◌, Bool, true, false, not, Option, none, some, arith,
  if◌then◌else◌, ok, err, err_of,
}
use rss_identity.Common.Int.{pos, ◌+ℤ◌, checked_add}
use rss_identity.Common.Text.{codes, bytes, text_eq, is_control, is_whitespace, trim}
use rss_identity.Account.Policy.{
  AccountState, membership, password, rejected, membership_disabled, password_recovered, change,
  recover, matches_verification,
}
use rss_identity.Account.Policy.Transitions.{IsValid, target, target_action, change-eq-target}
use rss_identity.Account.Policy.Fencing.{
  History, one, more, changed, recovered, History-IsValid, matches_verification-History,
}
use rss_identity.Account.Kdf.{
  unavailable, Semaphore, Tracker, Kdf, new, close, admit, finish, drained,
}
use rss_identity.Account.Kdf.Admission.{
  Reach, start, next, Later, here, then_step, admitted, finished, closes, err_of-admit,
  Later-closed, drained_iff, finish_all, finish_all-drained,
}
use rss_identity.Account.Kdf.Encoding.{Argon2, Phc, verify_work, off_policy, dummy_encoding}
use rss_identity.Account.Login.{parse}

abbrev someone : AccountState
someone = record {
  key = record { tenant = 1; principal = 2 };
  enabled = true;
  member_active = true;
  epoch = pos 4;
  has_local_password = true;
  membership_epoch = pos 2;
}

abbrev left : AccountState
left = record someone { epoch = pos 5; member_active = false; membership_epoch = pos 3 }

leaves : change someone (membership false) ≡ ok (left, membership_disabled)
unfolding change checked_add ◌+ℤ◌
leaves = refl

recovers : recover left ≡ ok (record left { epoch = pos 6 }, password_recovered)
unfolding recover checked_add ◌+ℤ◌
recovers = refl

history : History someone (record left { epoch = pos 6 })
history =
    more (one (changed (membership false) membership_disabled leaves))
      (recovered password_recovered recovers)

someone-IsValid : IsValid someone
someone-IsValid = omega arith

matches_verification-History_example :
    matches_verification (record left { epoch = pos 6 }) someone ≡ false
matches_verification-History_example = matches_verification-History history

History-IsValid_example : IsValid (record left { epoch = pos 6 })
History-IsValid_example = History-IsValid history someone-IsValid

change-eq-target_example :
    change someone (membership false)
    ≡ ok (target (membership false) someone, target_action (membership false))
unfolding ◌+ℤ◌
change-eq-target_example =
    change-eq-target someone (membership false) tt (omega arith, λ _. omega arith)

abbrev federated : AccountState
federated = record someone { has_local_password = false }

no_password : change federated password ≡ err rejected
unfolding change
no_password = refl

-- Plain counters in place of the two tokio types.
take_permit : ℕ → Option ℕ
take_permit zero = none
take_permit (suc n) = some n

take_permit-none : (n : ℕ) → take_permit n ≡ none → n ≡ 0
unfolding take_permit
take_permit-none zero h = refl
take_permit-none (suc n) h = cc

take_permit-some : (n m : ℕ) → take_permit n ≡ some m → n ≡ m + 1
unfolding take_permit
take_permit-some zero m h = cc
take_permit-some (suc n) m h = ground arith

abbrev permits : Semaphore
permits = record {
  State = ℕ;
  with_permits = λ n. n;
  try_acquire = take_permit;
  release = λ n. n + 1;
  available = λ n. n;
  available-with_permits = λ n. refl;
  try_acquire-none = take_permit-none;
  try_acquire-some = take_permit-some;
  available-release = λ n. refl;
}

abbrev tokens : Tracker
tokens = record {
  State = ℕ × Bool;
  new = (0, false);
  token = λ t. (t.0 + 1, t.1);
  drop_token = λ t. (t.0 - 1, t.1);
  close = λ t. (t.0, true);
  tokens = λ t. t.0;
  is_closed = λ t. t.1;
  tokens-new = refl;
  is_closed-new = refl;
  tokens-token = λ t. refl;
  is_closed-token = λ t. refl;
  tokens-drop = λ t. refl;
  is_closed-drop = λ t. refl;
  tokens-close = λ t. refl;
  is_closed-close = λ t. refl;
}

abbrev at_work : ℕ → Bool → Kdf permits tokens
at_work n open_for_work = record {
  gate = 4 - n;
  admission = open_for_work;
  tasks = (n, not open_for_work);
  running = n;
}

Reach-one : Reach permits tokens (at_work 1 true)
unfolding new admit take_permit
Reach-one = next start (admitted refl)

Reach-closed : Reach permits tokens (at_work 1 false)
unfolding close
Reach-closed = next Reach-one closes

err_of-admit_example : err_of (admit permits tokens (at_work 1 false)) ≡ some unavailable
err_of-admit_example = err_of-admit permits tokens (at_work 1 false) Reach-closed

after_close : Later permits tokens (at_work 1 false) (at_work 0 false)
unfolding finish
after_close = then_step here (finished (omega arith))

Later-closed_example :
    (admit permits tokens (at_work 0 false) ≡ err unavailable) × (0 ≤ (at_work 1 false).running)
Later-closed_example = Later-closed permits tokens refl after_close

drained_iff_example :
    (drained permits tokens (at_work 1 false) ≡ true)
    ↔ ((◌≡◌ {A = Bool} false false) × (◌≡◌ {A = ℕ} 1 0))
drained_iff_example = drained_iff permits tokens (at_work 1 false) Reach-closed

finish_all-drained_example :
    drained permits tokens (finish_all permits tokens 1 (at_work 1 false)) ≡ true
finish_all-drained_example = finish_all-drained permits tokens (at_work 1 false) Reach-closed refl

-- An argon2 crate that knows one string and one password.
abbrev dummy_phc : Phc
dummy_phc = record {
  algorithm = codes "argon2id";
  version = some 19;
  params = codes "m=19456,t=2,p=1";
  hash_len = some 32;
  salt_len = some 22;
}

abbrev one_argon : Argon2
one_argon = record {
  parse_phc = λ s. if text_eq s dummy_encoding then some dummy_phc else none;
  hash_password = λ p s. none;
  verify_password = λ p s. text_eq p (codes "correct horse battery");
}

verifies_dummy : verify_work one_argon (codes "wrong") dummy_encoding ≡ ok false
unfolding verify_work off_policy bytes
verifies_dummy = refl

parses_login : parse (codes "Alice@Example") ≡ ok (codes "alice@example")
unfolding parse trim is_whitespace is_control bytes
parses_login = refl
