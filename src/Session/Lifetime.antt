-- ===== src/Session/Lifetime.antt =====
-- crates/identity-core/src/session.rs: session policies and lifetimes, in seconds of `i64`.
pub mod Bounds
pub mod Renewal
use rss_identity.Common.{
  Bool, not, ◌&&◌, ◌||◌, if◌then◌else◌, is_none_or, Result, ok, err, ◌>>=◌, ◌>>◌, reject_if, ok_or,
}
use rss_identity.Common.Int.{ℤ, pos, ltb_ℤ, leb_ℤ, ◌==ℤ◌, checked_add, checked_sub, min_ℤ, max_ℤ}

pub data SessionError : Type 0 where
  session_error : SessionError

pub record SessionPolicy : Type 0 where
  pub idle : ℤ
  pub absolute : ℤ

unfoldable pub new_policy : ℤ → ℤ → Result SessionPolicy SessionError
new_policy idle_seconds absolute_seconds =
    if leb_ℤ idle_seconds (pos 0) || ltb_ℤ absolute_seconds idle_seconds
    then err session_error
    else ok (record { idle = idle_seconds; absolute = absolute_seconds })

pub record SessionLifetime : Type 0 where
  pub policy : SessionPolicy
  pub issued_at : ℤ
  pub idle_expires_at : ℤ
  pub absolute_expires_at : ℤ

unfoldable pub restore : ℤ → ℤ → ℤ → SessionPolicy → Result SessionLifetime SessionError
restore issued_at idle_expires_at absolute_expires_at policy =
    if leb_ℤ issued_at (pos 0)
      || leb_ℤ idle_expires_at issued_at
      || ltb_ℤ absolute_expires_at idle_expires_at
      || is_none_or (checked_sub absolute_expires_at issued_at)
          (λ duration. not (duration ==ℤ policy.absolute))
    then err session_error
    else ok (record {
      policy = policy;
      issued_at = issued_at;
      idle_expires_at = idle_expires_at;
      absolute_expires_at = absolute_expires_at;
    })

unfoldable pub new : ℤ → SessionPolicy → Result SessionLifetime SessionError
unfolding restore
new now policy = do
  idle ← ok_or (checked_add now policy.idle) session_error
  absolute ← ok_or (checked_add now policy.absolute) session_error
  restore now idle absolute policy

unfoldable pub valid_at : SessionLifetime → ℤ → Bool
valid_at l now =
    leb_ℤ l.issued_at now && ltb_ℤ now l.idle_expires_at && ltb_ℤ now l.absolute_expires_at

-- `&mut self`: the new lifetime; an error leaves the old one.
unfoldable pub renew : SessionLifetime → ℤ → Result SessionLifetime SessionError
unfolding valid_at
renew l now = do
  reject_if (not (valid_at l now)) session_error
  extended ← ok_or (checked_add now l.policy.idle) session_error
  ok (record l { idle_expires_at = max_ℤ l.idle_expires_at (min_ℤ extended l.absolute_expires_at) })

pub data AuthenticationSource : Type 0 where
  local_password oidc platform : AuthenticationSource
