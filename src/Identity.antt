-- ===== src/Identity.antt =====
-- crates/identity-core/src/lib.rs: identifiers and names.
use rss_identity.Common.{
  not, ◌||◌, if◌then◌else◌, any, is_empty, Result, ok, err, ◌>>=◌, ◌>>◌, reject_if, ok_or,
}
use rss_identity.Common.Text.{Text, text_eq, is_control, trim}
use rss_identity.Common.Ids.{Uuid, is_nil}
use rss_identity.Common.Url.{Parsers}

pub data ValidationError : Type 0 where
  invalid_value : ValidationError

-- `InstanceId::parse`, `PrincipalId::parse` and `SessionId::parse`, which are one code
unfoldable pub parse_id : Parsers → Text → Result Uuid ValidationError
parse_id parsers value = do
  id ← ok_or (parsers.parse_uuid value) invalid_value
  reject_if (is_nil id) invalid_value
  ok id

-- `IssuerId::parse` and `ClientId::parse`, which are one code
unfoldable pub parse_name : Text → Result Text ValidationError
parse_name value =
    if is_empty value || not (text_eq (trim value) value) || any is_control value
    then err invalid_value
    else ok value
