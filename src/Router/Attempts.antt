-- ===== src/Router/Attempts.antt =====
-- What the loop over the members observes, and what it says of the response that it hands on.
use muxvia.Prelude.{
  ◌≡◌, refl, sym, Bool, true, false, not, ◌||◌, Option, none, some, [], append-nil, if_both,
  if◌then◌else◌,
}
use muxvia.Domain.{Target}
use muxvia.Json.{JsonLib}
use muxvia.Http.{HttpLib}
use muxvia.Commitment.{UpstreamResponse, PrimedResponse, committed, committed_failure, retried}
use muxvia.Health.{RouteHealthOutcome, RouteAttemptPermit, admit}
use muxvia.RoutePlan.{
  RoutePlanMemberSnapshot, RouteResponseKind, Preparation, prepared, refused, retryable_status,
  is_success, RouteEnv, Progress, Attempted, next, done,
}
use muxvia.Router.{
  wait_for, routed_by, settle_permit, conclude, prime, after_priming, after_send, after_build,
  after_admission, route_member,
}
use muxvia.Router.Told.{
  granted_id, IsRetryable, Round, Told, fail_attempt-Round, after_refusal-Round, settle_permit-Told,
}

module _ (json : JsonLib) (http : HttpLib) (env : RouteEnv http) (target : Target) where
  abbrev RoundOf :
      RoutePlanMemberSnapshot → Progress http env.World → Attempted http env.World → Type 0
  RoundOf member p = Round json http env target member.provider_id p.observations

  abbrev Waits : Progress http env.World → Type 0
  Waits p = IsRetryable json http env target p.last_response

  module _ (is_last : Bool) (member : RoutePlanMemberSnapshot) (permit : RouteAttemptPermit)
      (own : permit.provider_id ≡ member.provider_id) where
    concluded :
        (kind : RouteResponseKind) (failed : Bool) (response : UpstreamResponse http)
        (p q : Progress http env.World) (retried last : Bool)
        → retryable_status response.status ≡ retried
        → Told json http env target member.provider_id p permit own failed response.status q
        → RoundOf member p (
            if not retried || last
            then done q (some (routed_by json http env target member kind failed response)) none
            else next (record q {
              last_response = some (routed_by json http env target member kind failed response);
            }))
    unfolding routed_by
    concluded kind failed response p q true false e (seen, o, s, good, bad) = (seen, o, s, bad e, e)
    concluded kind failed response p q true true e (seen, o, s, good, bad) = (seen, o, s, good)
    concluded kind failed response p q false last e (seen, o, s, good, bad) = (seen, o, s, good)

    conclude-Round :
        (kind : RouteResponseKind) (failed : Bool) (response : UpstreamResponse http)
        (p : Progress http env.World)
        → RoundOf member p
            (conclude json http env target is_last member permit kind failed response p)
    unfolding conclude
    conclude-Round kind failed response p =
        concluded kind failed response p
          (settle_permit json http env target failed response.status permit p)
          (retryable_status response.status) is_last refl
          (settle_permit-Told json http env target member.provider_id p permit own failed
            response.status)

    after_priming-Round :
        (kind : RouteResponseKind) (primed : PrimedResponse http) (p : Progress http env.World)
        → Waits p
        → RoundOf member p (after_priming json http env target is_last member permit kind primed p)
    unfolding after_priming
    after_priming-Round kind (committed response) p waiting = conclude-Round kind false response p
    after_priming-Round kind (committed_failure response) p waiting =
        conclude-Round kind true response p
    after_priming-Round kind retried p waiting =
        fail_attempt-Round json http env target member.provider_id p permit own
          RouteHealthOutcome.semantic_failure (λ e. cc) waiting

    after_send-Round :
        (kind : RouteResponseKind) (sent : Option (UpstreamResponse http))
        (p : Progress http env.World)
        → Waits p
        → RoundOf member p (after_send json http env target is_last member permit kind sent p)
    unfolding after_send wait_for
    after_send-Round kind none p waiting =
        fail_attempt-Round json http env target member.provider_id p permit own
          RouteHealthOutcome.transport_failure (λ e. cc) waiting
    after_send-Round kind (some response) p waiting =
        if_both (RoundOf member p) (is_success response.status) _ _
          (after_priming-Round kind (prime json http env target kind response)
            (wait_for json http env target p.world p) waiting)
          (conclude-Round kind false response p)

    after_build-Round :
        (preparation : Preparation env.Request) (p : Progress http env.World)
        → Waits p
        → RoundOf member p (after_build json http env target is_last member permit preparation p)
    unfolding after_build wait_for
    after_build-Round (refused failure) p waiting =
        after_refusal-Round json http env target member.provider_id p permit own failure waiting
    after_build-Round (prepared request kind) p waiting =
        after_send-Round kind (env.send request p.world).0 _ waiting

  after_admission-Round :
      (is_last : Bool) (member : RoutePlanMemberSnapshot) (permit : Option RouteAttemptPermit)
      (p : Progress http env.World)
      → ((granted : RouteAttemptPermit)
          → permit ≡ some granted
          → granted.provider_id ≡ member.provider_id)
      → Waits p
      → RoundOf member p (after_admission json http env target is_last member permit p)
  unfolding after_admission wait_for
  after_admission-Round is_last member none p own waiting =
      ([], sym (append-nil p.observations), tt, tt, waiting)
  after_admission-Round is_last member (some permit) p own waiting =
      after_build-Round is_last member permit (own permit refl) (env.build member p.world).0 _
        waiting

  pub route_member-Round :
      (is_last : Bool) (member : RoutePlanMemberSnapshot) (p : Progress http env.World)
      → Waits p
      → RoundOf member p (route_member json http env target is_last member p)
  unfolding route_member
  route_member-Round is_last member p waiting =
      after_admission-Round is_last member
        (admit p.health target member.provider_id (env.now p.world).0).1 _
        (granted_id p.health target member.provider_id (env.now p.world).0) waiting
