-- ===== src/Account/Policy/Fencing.antt =====
-- The generations as a fence: what a holder of an older account snapshot can still do with it.
use rss_identity.Common.{◌≡◌, true, false, arith, if◌then◌else◌, bool_eq, ok}
use rss_identity.Common.Int.{lt-add_one, pos, ◌+ℤ◌, ◌<ℤ◌, IsI64, checked_add}
use rss_identity.Account.Policy.{
  AccountState, LocalChange, enable, membership, password, SecurityAction, matches_verification,
  change, recover, revoke_sessions,
}
use rss_identity.Account.Policy.Transitions.{IsValid}

-- One successful operation on an account.
pub data Advance (s n : AccountState) : Type 0 where
  changed : (c : LocalChange) (a : SecurityAction) → change s c ≡ ok (n, a) → Advance s n
  recovered : (a : SecurityAction) → recover s ≡ ok (n, a) → Advance s n
  revoked : revoke_sessions s ≡ ok n → Advance s n

-- One or more of them, in order.
pub data History (s : AccountState) : AccountState → Type 0 where
  one : {n : AccountState} → Advance s n → History s n
  more : {m n : AccountState} → History s m → Advance m n → History s n

-- What every successful operation does to the generations.
pub record Steps (s n : AccountState) : Type 0 where
  pub key : n.key ≡ s.key
  pub epoch : n.epoch ≡ s.epoch +ℤ pos 1
  pub epoch_fits : IsI64 n.epoch
  pub membership : n.membership_epoch ≡ (
      if bool_eq n.member_active s.member_active
      then s.membership_epoch
      else s.membership_epoch +ℤ pos 1)
  pub membership_fits : IsI64 s.membership_epoch → IsI64 n.membership_epoch

change-Steps :
    (s n : AccountState) (c : LocalChange) (a : SecurityAction) → change s c ≡ ok (n, a) → Steps s n
unfolding change checked_add
change-Steps s n (enable v) a h = ground arith
change-Steps s n (membership true) a h = ground arith
change-Steps s n (membership false) a h = ground arith
change-Steps s n password a h = ground arith

recover-Steps : (s n : AccountState) (a : SecurityAction) → recover s ≡ ok (n, a) → Steps s n
unfolding recover checked_add
recover-Steps s n a h = ground arith

revoke_sessions-Steps : (s n : AccountState) → revoke_sessions s ≡ ok n → Steps s n
unfolding revoke_sessions checked_add
revoke_sessions-Steps s n h = ground arith

pub Advance-Steps : (s n : AccountState) → Advance s n → Steps s n
Advance-Steps s n (changed c a h) = change-Steps s n c a h
Advance-Steps s n (recovered a h) = recover-Steps s n a h
Advance-Steps s n (revoked h) = revoke_sessions-Steps s n h

Steps-IsValid : (s n : AccountState) → Steps s n → IsValid s → IsValid n
Steps-IsValid s n t v = ground (arith, lt-add_one s.epoch, lt-add_one s.membership_epoch)

-- No history of successful operations leads a valid account to an invalid one.
pub History-IsValid : {s n : AccountState} → History s n → IsValid s → IsValid n
History-IsValid {s} {n} (one a) v = Steps-IsValid s n (Advance-Steps s n a) v
History-IsValid {s} {n} (more {m} r a) v =
    Steps-IsValid m n (Advance-Steps m n a) (History-IsValid r v)

Steps-epoch-lt : (s n : AccountState) → Steps s n → s.epoch <ℤ n.epoch
Steps-epoch-lt s n t = rw t.epoch (lt-add_one s.epoch)

pub History-epoch-lt : {s n : AccountState} → History s n → s.epoch <ℤ n.epoch
History-epoch-lt {s} {n} (one a) = Steps-epoch-lt s n (Advance-Steps s n a)
History-epoch-lt {s} {n} (more {m} r a) =
    omega (arith, Steps-epoch-lt m n (Advance-Steps m n a), History-epoch-lt r)

-- A password candidate captured before any successful operation on its account is stale after it,
-- whatever happened since.
pub matches_verification-History :
    {s n : AccountState} → History s n → matches_verification n s ≡ false
unfolding matches_verification
matches_verification-History {s} {n} h = ground (arith, History-epoch-lt h)
