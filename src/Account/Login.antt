-- ===== src/Account/Login.antt =====
-- crates/identity-core/src/account.rs: login keys, passwords and stored password encodings.
pub mod Canonical
use rss_identity.Common.{
  Bool, not, ◌||◌, map, ltb, if◌then◌else◌, length, any, all, is_empty, Result, ok, err,
}
use rss_identity.Common.Text.{Text, bytes, len, text_eq, is_control, to_ascii_lower, trim}
use rss_identity.Account.Kdf.{PasswordError, invalid, unavailable}

-- `str::is_ascii` and `str::to_ascii_lowercase`
abbrev pub is_ascii : Text → Bool
is_ascii s = all (λ b. ltb b 128) (bytes s)

abbrev pub to_ascii_lowercase : Text → Text
to_ascii_lowercase = map to_ascii_lower

unfoldable pub parse : Text → Result Text PasswordError
parse value =
    if is_empty value
      || ltb 128 (len value)
      || not (is_ascii value)
      || not (text_eq (trim value) value)
      || any is_control value
    then err invalid
    else ok (to_ascii_lowercase value)

-- `Password::new`: at most 1024 bytes, at least 15 characters
unfoldable pub new_password : Text → Result Text PasswordError
new_password value = if ltb 1024 (len value) || ltb (length value) 15 then err invalid else ok value

-- `PasswordEncoding::from_storage`
unfoldable pub from_storage : Text → Result Text PasswordError
from_storage value = if ltb 256 (len value) then err unavailable else ok value
