-- ===== src/Account/Policy.antt =====
-- crates/identity-core/src/account/policy.rs: the generations of a tenant-local account.
pub mod Transitions
pub mod Fencing
use rss_identity.Common.{
  Bool, true, false, not, ◌&&◌, ◌||◌, ◌==◌, if◌then◌else◌, bool_eq, Result, ok, err, ◌>>=◌, ◌>>◌,
  reject_if, ok_or,
}
use rss_identity.Common.Int.{ℤ, pos, ltb_ℤ, ◌==ℤ◌, checked_add}
use rss_identity.Common.Text.{Text, codes}
use rss_identity.Common.Ids.{Uuid, TenantId}

pub record AccountKey : Type 0 where
  pub tenant : TenantId
  pub principal : Uuid

-- the derived `PartialEq`
abbrev pub key_eq : AccountKey → AccountKey → Bool
key_eq a b = (a.tenant == b.tenant) && (a.principal == b.principal)

pub record AccountState : Type 0 where
  pub key : AccountKey
  pub enabled : Bool
  pub member_active : Bool
  pub epoch : ℤ  -- i64
  pub has_local_password : Bool
  pub membership_epoch : ℤ  -- i64

pub data LocalChange : Type 0 where
  enable : Bool → LocalChange
  membership : Bool → LocalChange
  password : LocalChange

pub data AccountRuleError : Type 0 where
  invalid_state rejected insufficient_privilege reauthentication_required : AccountRuleError
  already_exists epoch_exhausted : AccountRuleError

pub data SecurityAction : Type 0 where
  initialized account_created account_enabled account_disabled : SecurityAction
  membership_enabled membership_disabled password_changed password_recovered : SecurityAction

pub action_name : SecurityAction → Text
action_name initialized = codes "initialized"
action_name account_created = codes "account_created"
action_name account_enabled = codes "account_enabled"
action_name account_disabled = codes "account_disabled"
action_name membership_enabled = codes "membership_enabled"
action_name membership_disabled = codes "membership_disabled"
action_name password_changed = codes "password_changed"
action_name password_recovered = codes "password_recovered"

unfoldable pub restore :
    AccountKey → Bool → Bool → ℤ → Bool → ℤ → Result AccountState AccountRuleError
restore key enabled member_active epoch has_local_password membership_epoch =
    if ltb_ℤ epoch (pos 1) || ltb_ℤ membership_epoch (pos 1)
    then err invalid_state
    else ok (record {
      key = key;
      enabled = enabled;
      member_active = member_active;
      epoch = epoch;
      has_local_password = has_local_password;
      membership_epoch = membership_epoch;
    })

unfoldable pub new_local : AccountKey → Result AccountState AccountRuleError
unfolding restore
new_local key = restore key true true (pos 1) true (pos 1)

unfoldable pub new_federated : AccountKey → Result AccountState AccountRuleError
unfolding restore
new_federated key = restore key true true (pos 1) false (pos 1)

unfoldable pub active : AccountState → Bool
active s = s.enabled && s.member_active

-- `next.epoch.checked_add(1).ok_or(EpochExhausted)?`
bump : ℤ → Result ℤ AccountRuleError
bump epoch = ok_or (checked_add epoch (pos 1)) epoch_exhausted

unfoldable pub revoke_sessions : AccountState → Result AccountState AccountRuleError
unfolding active bump
revoke_sessions s = do
  reject_if (not (active s)) rejected
  epoch ← bump s.epoch
  ok (record s { epoch = epoch })

unfoldable pub matches_verification : AccountState → AccountState → Bool
unfolding active
matches_verification s expected =
    active s
    && key_eq s.key expected.key
    && s.epoch ==ℤ expected.epoch
    && bool_eq s.has_local_password expected.has_local_password
    && s.membership_epoch ==ℤ expected.membership_epoch

abbrev is_password : LocalChange → Bool
is_password password = true
is_password _ = false

-- the `match change` of `transition`, on the state with its new epoch
apply_change : AccountState → LocalChange → Result (AccountState × SecurityAction) AccountRuleError
unfolding bump
apply_change next (enable v) =
    ok (record next { enabled = v }, if v then account_enabled else account_disabled)
apply_change next (membership v) = do
  epoch ←
      (if not (bool_eq v next.member_active)
        then bump next.membership_epoch
        else ok next.membership_epoch)
  ok (
    record next { membership_epoch = epoch; member_active = v },
    if v then membership_enabled else membership_disabled,
  )
apply_change next password = ok (next, password_changed)

unfoldable pub transition :
    AccountState → LocalChange → Result (AccountState × SecurityAction) AccountRuleError
unfolding bump apply_change
transition s change = do
  reject_if (is_password change && not s.has_local_password) rejected
  epoch ← bump s.epoch
  apply_change (record s { epoch = epoch }) change

unfoldable pub change :
    AccountState → LocalChange → Result (AccountState × SecurityAction) AccountRuleError
unfolding transition
change s c = transition s c

unfoldable pub recover : AccountState → Result (AccountState × SecurityAction) AccountRuleError
unfolding bump
recover s = do
  reject_if (not s.has_local_password) rejected
  epoch ← bump s.epoch
  ok (record s { epoch = epoch }, password_recovered)
