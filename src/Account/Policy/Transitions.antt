-- ===== src/Account/Policy/Transitions.antt =====
-- What each account transition does, and when it is refused.
use rss_identity.Common.{
  ◌≡◌, ◌⊎◌, inl, inr, Bool, true, false, not, arith, if◌then◌else◌, Bool-cases, bool_eq, ok, err,
}
use rss_identity.Common.Int.{pos, ◌+ℤ◌, ◌≤ℤ◌, IsI64, checked_add}
use rss_identity.Account.Policy.{
  AccountState, LocalChange, enable, membership, password, AccountRuleError, rejected,
  epoch_exhausted, SecurityAction, account_enabled, account_disabled, membership_enabled,
  membership_disabled, password_changed, change,
}

-- Every stored generation is an `i64` and counts from 1.
pub record IsValid (s : AccountState) : Type 0 where
  pub epoch_fits : IsI64 s.epoch
  pub epoch_pos : pos 1 ≤ℤ s.epoch
  pub membership_fits : IsI64 s.membership_epoch
  pub membership_pos : pos 1 ≤ℤ s.membership_epoch

-- The change asks to reverse the membership.
abbrev pub flips : LocalChange → AccountState → Bool
flips (membership v) s = not (bool_eq v s.member_active)
flips _ s = false

-- The change is one that the account can take at all.
abbrev pub IsAllowed : LocalChange → AccountState → Type 0
IsAllowed password s = s.has_local_password ≡ true
IsAllowed _ s = Unit {0}

-- The state that a change is meant to lead to.
abbrev pub target : LocalChange → AccountState → AccountState
target (enable v) s = record s { epoch = s.epoch +ℤ pos 1; enabled = v }
target (membership v) s = record s {
  epoch = s.epoch +ℤ pos 1;
  member_active = v;
  membership_epoch =
      if bool_eq v s.member_active then s.membership_epoch else s.membership_epoch +ℤ pos 1;
}
target password s = record s { epoch = s.epoch +ℤ pos 1 }

abbrev pub target_action : LocalChange → SecurityAction
target_action (enable true) = account_enabled
target_action (enable false) = account_disabled
target_action (membership true) = membership_enabled
target_action (membership false) = membership_disabled
target_action password = password_changed

-- The generations that a change has to advance still have room.
abbrev pub HasRoom : LocalChange → AccountState → Type 0
HasRoom c s = IsI64 (s.epoch +ℤ pos 1) × (flips c s ≡ true → IsI64 (s.membership_epoch +ℤ pos 1))

-- An allowed change on an account whose generations have room leads to its target state, with its
-- audit action: nothing else of the account changes.
pub change-eq-target :
    (s : AccountState) (c : LocalChange)
    → IsAllowed c s
    → HasRoom c s
    → change s c ≡ ok (target c s, target_action c)
unfolding change checked_add
change-eq-target s (enable true) a r = ground arith
change-eq-target s (enable false) a r = ground arith
change-eq-target s (membership true) a r = ground arith
change-eq-target s (membership false) a r = ground arith
change-eq-target s password a r = ground arith

-- A change is refused exactly as documented: a password change of an account with no local password
-- is rejected, and otherwise the only error is a generation that cannot advance.
change_refused :
    (s : AccountState) (c : LocalChange) (e : AccountRuleError)
    → change s c ≡ err e
    → (¬ IsAllowed c s × (e ≡ rejected)) ⊎ (¬ HasRoom c s × (e ≡ epoch_exhausted))
unfolding change checked_add
change_refused s (enable v) e h = inr ((λ r. ground arith), ground arith)
change_refused s (membership v) e h = inr ((λ r. ground arith), ground arith)
change_refused s password e h = elim (Bool-cases s.has_local_password) [
  | inl local ↦ inr ((λ r. ground arith), ground arith)
  | inr none_set ↦ inl ((λ a. cc), ground arith)
]
