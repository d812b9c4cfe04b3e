-- ===== src/Router.antt =====
-- The routing of one request along a pinned plan: `route_pinned_plan` of
-- crates/routing-service/src/model/router.rs, one function for each stage of a round of its loop.
pub mod Told
pub mod Attempts
pub mod Order
mod Tests
use muxvia.Prelude.{
  Bool, true, false, not, ◌||◌, Option, none, some, List, [], ◌∷◌, ◌++◌, if◌then◌else◌, ℕ,
}
use muxvia.Domain.{Target}
use muxvia.Json.{JsonLib}
use muxvia.Http.{HttpLib}
use muxvia.Commitment.{
  UpstreamResponse, PrimedResponse, committed, committed_failure, retried, prime_success_response,
  prime_subscription_bridge_response,
}
use muxvia.Health.{
  RouteHealthOutcome, RouteHealthRuntime, RouteAttemptPermit, admit, permit_success, permit_failure,
  drop_permit,
}
use muxvia.RoutePlan.{
  RoutePlanMemberSnapshot, ActivatedRoutePlanSnapshot, RouteAttemptIdentity, RouteResponseKind,
  native, subscription_bridge, RoutedUpstream, RouteAttemptFailure, is_terminal, observation_of,
  Preparation, prepared, refused, retryable_status, is_success, RouteEnv, PinnedRouteResult,
  Progress, Attempted, next, done,
}

module _ (json : JsonLib) (http : HttpLib) (env : RouteEnv http) (target : Target) where
  open env use {World, Request, now, build, send, others}

  -- What other requests do to the circuits while this one waits.
  wait_for : World → Progress http World → Progress http World
  wait_for w p = record p { world = w; health = others w p.health }

  pub fail_attempt :
      Progress http World → RouteAttemptPermit → RouteHealthOutcome → Progress http World
  fail_attempt p permit outcome =
      let (instant, w) = now p.world in
      let (h, seen) = permit_failure p.health permit instant outcome in
      record p { world = w; health = h; observations = p.observations ++ seen ∷ [] }

  succeed_attempt : Progress http World → RouteAttemptPermit → Progress http World
  succeed_attempt p permit =
      let (h, seen) = permit_success p.health permit in
      record p { health = h; observations = p.observations ++ seen ∷ [] }

  -- The request could not be prepared.
  pub after_refusal :
      RouteAttemptFailure → RouteAttemptPermit → Progress http World → Attempted http World
  unfolding fail_attempt is_terminal observation_of
  after_refusal failure permit p =
      let q = record (fail_attempt p permit (observation_of failure)) {
        last_failure = some failure;
      } in
      if is_terminal failure then done q none (some failure) else next q

  routed_by :
      RoutePlanMemberSnapshot
      → RouteResponseKind
      → Bool
      → UpstreamResponse http
      → RoutedUpstream http
  routed_by member kind failed response = record {
    response = response;
    provider_id = member.provider_id;
    provider_name = member.name;
    model = member.model;
    protocol = member.protocol;
    semantic_failure = failed;
    response_kind = kind;
  }

  -- The circuit learns the outcome of a response; a permit that is not used is dropped.
  pub settle_permit : Bool → ℕ → RouteAttemptPermit → Progress http World → Progress http World
  unfolding fail_attempt succeed_attempt retryable_status
  settle_permit failed status permit p =
      if failed
      then fail_attempt p permit RouteHealthOutcome.semantic_failure
      else if is_success status
      then succeed_attempt p permit
      else if retryable_status status
      then fail_attempt p permit RouteHealthOutcome.retryable_upstream_status
      else record p { health = drop_permit p.health permit }

  conclude :
      Bool
      → RoutePlanMemberSnapshot
      → RouteAttemptPermit
      → RouteResponseKind
      → Bool
      → UpstreamResponse http
      → Progress http World
      → Attempted http World
  unfolding settle_permit routed_by retryable_status
  conclude is_last member permit kind failed response p =
      let routed = routed_by member kind failed response in
      let q = settle_permit failed response.status permit p in
      if not (retryable_status response.status) || is_last
      then done q (some routed) none
      else next (record q { last_response = some routed })

  prime : RouteResponseKind → UpstreamResponse http → PrimedResponse http
  unfolding prime_success_response prime_subscription_bridge_response
  prime native response = prime_success_response json http response target
  prime subscription_bridge response = prime_subscription_bridge_response json http response

  after_priming :
      Bool
      → RoutePlanMemberSnapshot
      → RouteAttemptPermit
      → RouteResponseKind
      → PrimedResponse http
      → Progress http World
      → Attempted http World
  unfolding conclude fail_attempt
  after_priming is_last member permit kind (committed response) p =
      conclude is_last member permit kind false response p
  after_priming is_last member permit kind (committed_failure response) p =
      conclude is_last member permit kind true response p
  after_priming is_last member permit kind retried p =
      next (fail_attempt p permit RouteHealthOutcome.semantic_failure)

  after_send :
      Bool
      → RoutePlanMemberSnapshot
      → RouteAttemptPermit
      → RouteResponseKind
      → Option (UpstreamResponse http)
      → Progress http World
      → Attempted http World
  unfolding after_priming prime wait_for fail_attempt conclude
  after_send is_last member permit kind none p =
      next (fail_attempt p permit RouteHealthOutcome.transport_failure)
  after_send is_last member permit kind (some response) p =
      if is_success response.status
      then after_priming is_last member permit kind (prime kind response) (wait_for p.world p)
      else conclude is_last member permit kind false response p

  after_build :
      Bool
      → RoutePlanMemberSnapshot
      → RouteAttemptPermit
      → Preparation Request
      → Progress http World
      → Attempted http World
  unfolding after_send after_refusal wait_for
  after_build is_last member permit (refused failure) p = after_refusal failure permit p
  after_build is_last member permit (prepared request kind) p =
      let (response, w) = send request p.world in
      after_send is_last member permit kind response (wait_for w (record p { last_failure = none }))

  identity_of : RoutePlanMemberSnapshot → RouteAttemptIdentity
  identity_of member = record {
    provider_id = member.provider_id;
    provider_name = member.name;
    model = member.model;
    protocol = member.protocol;
  }

  after_admission :
      Bool
      → RoutePlanMemberSnapshot
      → Option RouteAttemptPermit
      → Progress http World
      → Attempted http World
  unfolding after_build wait_for identity_of
  after_admission is_last member none p = next p
  after_admission is_last member (some permit) p =
      let (preparation, w) = build member p.world in
      after_build is_last member permit preparation
        (wait_for w (record p { last_attempt = some (identity_of member) }))

  -- One round of the loop over the members of the plan.
  unfoldable pub route_member :
      Bool → RoutePlanMemberSnapshot → Progress http World → Attempted http World
  unfolding after_admission admit
  route_member is_last member p =
      let (instant, w) = now p.world in
      let (h, permit) = admit p.health target member.provider_id instant in
      after_admission is_last member permit (record p { world = w; health = h })

  is_empty : List RoutePlanMemberSnapshot → Bool
  is_empty [] = true
  is_empty (m ∷ ms) = false

  -- A round that returns ends the loop.
  unless_done :
      Attempted http World → (Progress http World → Attempted http World) → Attempted http World
  unless_done (done q routed failure) continue = done q routed failure
  unless_done (next q) continue = continue q

  route_members : List RoutePlanMemberSnapshot → Progress http World → Attempted http World
  unfolding route_member is_empty unless_done
  route_members [] p = done p p.last_response p.last_failure
  route_members (member ∷ members) p =
      unless_done (route_member (is_empty members) member p) (λ q. route_members members q)

  start : World → RouteHealthRuntime → Progress http World
  start w health = record {
    world = w;
    health = health;
    last_response = none;
    last_failure = none;
    last_attempt = none;
    observations = [];
  }

  result_of : ActivatedRoutePlanSnapshot → Attempted http World → PinnedRouteResult http
  result_of plan (done q routed failure) = record {
    plan_id = plan.id;
    plan_epoch = plan.epoch;
    routed = routed;
    observations = q.observations;
    failure = failure;
    last_attempt = q.last_attempt;
  }
  result_of plan (next q) = record {
    plan_id = plan.id;
    plan_epoch = plan.epoch;
    routed = q.last_response;
    observations = q.observations;
    failure = q.last_failure;
    last_attempt = q.last_attempt;
  }

  unfoldable pub route_pinned_plan :
      ActivatedRoutePlanSnapshot → World → RouteHealthRuntime → PinnedRouteResult http
  unfolding route_members start result_of
  route_pinned_plan plan w health = result_of plan (route_members plan.members (start w health))
