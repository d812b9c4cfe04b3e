-- ===== src/Domain.antt =====
-- The identifiers of control/protocol.rs that every component names, and the table of the
-- provider declarations that are allowed: crates/routing-service/src/domain/provider.rs.
use muxvia.Prelude.{Bool, true, false}

pub data Target : Type 0 where
  codex claude : Target

pub data ProviderProtocol : Type 0 where
  openai_responses anthropic_messages : ProviderProtocol

pub data ProviderAuthentication : Type 0 where
  openai_bearer anthropic_api_key anthropic_bearer codex_subscription : ProviderAuthentication

pub data RequestRecordOutcome : Type 0 where
  success upstream_error semantic_error transport_error route_unavailable : RequestRecordOutcome
  cancelled stream_error : RequestRecordOutcome

unfoldable pub target_eq : Target → Target → Bool
target_eq codex codex = true
target_eq claude claude = true
target_eq _ _ = false

unfoldable pub has_valid_provider_declaration :
    Target → ProviderProtocol → ProviderAuthentication → Bool
has_valid_provider_declaration codex openai_responses openai_bearer = true
has_valid_provider_declaration claude anthropic_messages anthropic_api_key = true
has_valid_provider_declaration claude anthropic_messages anthropic_bearer = true
has_valid_provider_declaration claude anthropic_messages codex_subscription = true
has_valid_provider_declaration _ _ _ = false

unfoldable pub has_valid_provider_authentication : Target → ProviderAuthentication → Bool
unfolding has_valid_provider_declaration
has_valid_provider_authentication codex a = has_valid_provider_declaration codex openai_responses a
has_valid_provider_authentication claude a =
    has_valid_provider_declaration claude anthropic_messages a
