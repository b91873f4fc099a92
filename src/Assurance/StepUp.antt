-- ===== src/Assurance/StepUp.antt =====
-- crates/identity-core/src/step_up.rs
use rss_identity.Common.{
  ℕ, Bool, not, ◌||◌, Option, none, some, List, ltb, if◌then◌else◌, all, is_empty,
}
use rss_identity.Common.Int.{ℤ, pos}
use rss_identity.Common.Text.{Text, codes, bytes, len, is_ascii_alphanumeric, contains}

abbrev pub operation_proof_seconds : ℤ
operation_proof_seconds = pos 300

pub record StepUpContext : Type 0 where
  pub purpose : Text
  pub digest : List ℕ

abbrev pub is_purpose_byte : ℕ → Bool
is_purpose_byte b = is_ascii_alphanumeric b || contains (codes "-_.:/") b

-- `none` is the error "invalid operation purpose".
unfoldable pub new : Text → List ℕ → Option StepUpContext
new purpose digest =
    if is_empty purpose || ltb 128 (len purpose) || not (all is_purpose_byte (bytes purpose))
    then none
    else some (record { purpose = purpose; digest = digest })
