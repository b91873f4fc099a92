-- ===== src/Federation/Errors.antt =====
-- crates/identity-core/src/federation.rs: the errors of federation and their diagnostics.

pub data ProviderStage : Type 0 where
  binding discovery jwks exchange claims_stage : ProviderStage

pub data ProviderReason : Type 0 where
  invalid_trust_anchor egress_denied tls_rejected unreachable timeout : ProviderReason
  invalid_response issuer_mismatch issuer_response_unsupported : ProviderReason
  code_rejected invalid_token : ProviderReason

pub record ProviderFailure : Type 0 where
  pub stage : ProviderStage
  pub reason : ProviderReason

pub data FederationError : Type 0 where
  configuration rejected conflict stale_configuration provider_limit_reached : FederationError
  unavailable claims : FederationError
  provider_failed : ProviderFailure → FederationError

abbrev pub provider_error : ProviderStage → ProviderReason → FederationError
provider_error stage reason = provider_failed (record { stage = stage; reason = reason })

unfoldable pub diagnostic : FederationError → ProviderFailure
diagnostic (provider_failed f) = f
diagnostic claims = record { stage = claims_stage; reason = invalid_token }
diagnostic unavailable = record { stage = discovery; reason = timeout }
diagnostic _ = record { stage = binding; reason = invalid_response }
