-- ===== src/RoutePlan.antt =====
-- The vocabulary of the router, crates/routing-service/src/model/router.rs: plans and their members,
-- failures, results, the retry policy, and the environment of the loop. The clock, the preparation
-- of a request, the transport and what other requests do to the circuits while this one waits are
-- an environment, which passes a state of its own on.
use muxvia.Prelude.{ℕ, Bool, true, false, not, ◌&&◌, ◌||◌, Option, List, leb, ltb, ◌==◌}
use muxvia.Domain.{ProviderProtocol, ProviderAuthentication}
use muxvia.Text.{Text}
use muxvia.Http.{HttpLib}
use muxvia.Commitment.{UpstreamResponse}
use muxvia.Health.{RouteHealthOutcome, RouteHealthObservation, RouteHealthRuntime}

pub data SubscriptionProviderBinding : Type 0 where
  fixed : (account_id : Text) → SubscriptionProviderBinding
  follow_default : SubscriptionProviderBinding

pub record RoutePlanMemberSnapshot : Type 0 where
  pub provider_id : ℕ
  pub name : Text
  pub base_url : Text
  pub model : Text
  pub provider_credential : Option Text
  pub protocol : ProviderProtocol
  pub authentication : ProviderAuthentication
  pub subscription_binding : Option SubscriptionProviderBinding

pub record ActivatedRoutePlanSnapshot : Type 0 where
  pub id : ℕ
  pub epoch : ℕ
  pub members : List RoutePlanMemberSnapshot

pub record RouteAttemptIdentity : Type 0 where
  pub provider_id : ℕ
  pub provider_name : Text
  pub model : Text
  pub protocol : ProviderProtocol

pub data RouteResponseKind : Type 0 where
  native subscription_bridge : RouteResponseKind

pub record RoutedUpstream (http : HttpLib) : Type 0 where
  pub response : UpstreamResponse http
  pub provider_id : ℕ
  pub provider_name : Text
  pub model : Text
  pub protocol : ProviderProtocol
  pub semantic_failure : Bool
  pub response_kind : RouteResponseKind

pub data RouteAttemptFailure : Type 0 where
  configuration subscription_account_unavailable : RouteAttemptFailure
  subscription_account_needs_reauthorization subscription_bridge_invalid_request :
      RouteAttemptFailure
  subscription_bridge_count_tokens_unsupported : RouteAttemptFailure

unfoldable pub is_terminal : RouteAttemptFailure → Bool
is_terminal subscription_bridge_invalid_request = true
is_terminal subscription_bridge_count_tokens_unsupported = true
is_terminal _ = false

unfoldable pub observation_of : RouteAttemptFailure → RouteHealthOutcome
observation_of configuration = RouteHealthOutcome.configuration_failure
observation_of subscription_account_unavailable =
    RouteHealthOutcome.subscription_account_unavailable
observation_of subscription_account_needs_reauthorization =
    RouteHealthOutcome.subscription_account_needs_reauthorization
observation_of subscription_bridge_invalid_request =
    RouteHealthOutcome.subscription_bridge_invalid_request
observation_of subscription_bridge_count_tokens_unsupported =
    RouteHealthOutcome.subscription_bridge_count_tokens_unsupported

pub data Preparation (Request : Type 0) : Type 0 where
  prepared : Request → RouteResponseKind → Preparation Request
  refused : RouteAttemptFailure → Preparation Request

unfoldable pub retryable_status : ℕ → Bool
retryable_status code =
    code == 401
    || code == 403
    || code == 404
    || code == 408
    || code == 409
    || code == 429
    || code == 451
    || ((leb 500 code && leb code 599) && not (code == 501))

-- `StatusCode::is_success`
abbrev pub is_success : ℕ → Bool
is_success code = leb 200 code && ltb code 300

-- The surroundings of the router. `others` is what concurrent requests do during a wait.
pub record RouteEnv (http : HttpLib) : Type 1 where
  pub World : Type 0
  pub Request : Type 0
  pub now : World → ℕ × World
  pub build : RoutePlanMemberSnapshot → World → Preparation Request × World
  pub send : Request → World → Option (UpstreamResponse http) × World
  pub others : World → RouteHealthRuntime → RouteHealthRuntime

pub record PinnedRouteResult (http : HttpLib) : Type 0 where
  pub plan_id : ℕ
  pub plan_epoch : ℕ
  pub routed : Option (RoutedUpstream http)
  pub observations : List RouteHealthObservation
  pub failure : Option RouteAttemptFailure
  pub last_attempt : Option RouteAttemptIdentity

pub record Progress (http : HttpLib) (World : Type 0) : Type 0 where
  pub world : World
  pub health : RouteHealthRuntime
  pub last_response : Option (RoutedUpstream http)
  pub last_failure : Option RouteAttemptFailure
  pub last_attempt : Option RouteAttemptIdentity
  pub observations : List RouteHealthObservation

-- The loop goes on, or returns with a response or a failure.
pub data Attempted (http : HttpLib) (World : Type 0) : Type 0 where
  next : Progress http World → Attempted http World
  done :
      Progress http World
      → Option (RoutedUpstream http)
      → Option RouteAttemptFailure
      → Attempted http World
