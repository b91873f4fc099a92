-- ===== src/Storage/Examples.antt =====
-- A candidate for an account before and after its password is changed
use rss_identity.Common.{◌≡◌, refl, true, false, none, some, ok, is_ok}
use rss_identity.Common.Int.{ℤ, pos, ◌+ℤ◌, checked_add}
use rss_identity.Account.Policy.{
  AccountKey, AccountState, change, password, password_changed, transition, matches_verification,
  restore,
}
use rss_identity.Account.Policy.Fencing.{one, changed}
use rss_identity.Storage.{Store, AuthenticationCandidate, load, current, decode, lock_guard}
use rss_identity.Storage.Current.{current-History}

abbrev key : AccountKey
key = record { tenant = 7; principal = 9 }

abbrev account : ℤ → AccountState
account epoch = record {
  key = key;
  enabled = true;
  member_active = true;
  epoch = epoch;
  has_local_password = true;
  membership_epoch = pos 1;
}

abbrev store : ℤ → Store
store epoch = record {
  guarded = λ tenant. true;
  deployment = some 1;
  accounts = λ key. some (record {
    enabled = true;
    auth_epoch = epoch;
    has_local_password = true;
    password_hash = none;
    active = true;
    epoch = pos 1;
  });
}

abbrev candidate : AuthenticationCandidate
candidate = record {
  state = account (pos 3);
  authority = 1;
  expires = 500;
  authenticated_at = pos 100;
}

stands : current (store (pos 3)) 400 candidate ≡ ok (account (pos 3))
unfolding current lock_guard load decode restore matches_verification
stands = refl

loads : load (store (pos 4)) key ≡ ok (record { state = account (pos 4); hash = none })
unfolding load lock_guard decode restore
loads = refl

changes : change (account (pos 3)) password ≡ ok (account (pos 4), password_changed)
unfolding change transition checked_add ◌+ℤ◌
changes = refl

current-History_example : is_ok (current (store (pos 4)) 400 candidate) ≡ false
current-History_example =
    current-History (store (pos 4)) 400 candidate (record { state = account (pos 4); hash = none })
      loads (one (changed password password_changed changes))
