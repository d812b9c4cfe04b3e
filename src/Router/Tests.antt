-- ===== src/Router/Tests.antt =====
-- A request that the second member of a plan answers.
use muxvia.Prelude.{◌≡◌, refl, ◌∷◌, [], false, some, bytes_eq}
use muxvia.Domain.{codex}
use muxvia.Health.{default_runtime, permit_failure, store}
use muxvia.RoutePlan.{RoutedUpstream, native}
use muxvia.Router.{route_pinned_plan}
use muxvia.Router.Order.{
  Sublist, ids, FailBeforeLast, CommitsLast, route, route_pinned_plan-ordered,
  route_pinned_plan-CommitsLast,
}
use muxvia.Text.{codes, to_ascii_lowercase, trim, before}
use muxvia.Domain.{openai_responses}
use muxvia.Samples.{typed_json, listed_http, quiet_env, two_members, json_response}

abbrev second_answer : RoutedUpstream listed_http
second_answer = record {
  response = json_response;
  provider_id = 2;
  provider_name = codes "p";
  model = codes "m";
  protocol = openai_responses;
  semantic_failure = false;
  response_kind = native;
}

route_pinned_plan-ordered_example :
    Sublist
      (ids
        (route typed_json listed_http quiet_env codex two_members 0 default_runtime).observations)
      (1 ∷ 2 ∷ [])
    × FailBeforeLast
        (route typed_json listed_http quiet_env codex two_members 0 default_runtime).observations
route_pinned_plan-ordered_example =
    route_pinned_plan-ordered typed_json listed_http quiet_env codex two_members 0 default_runtime

answered :
    (route typed_json listed_http quiet_env codex two_members 0 default_runtime).routed
    ≡ some second_answer
unfolding route_pinned_plan permit_failure store bytes_eq to_ascii_lowercase trim before
answered = refl

route_pinned_plan-CommitsLast_example :
    CommitsLast typed_json listed_http quiet_env codex second_answer
      (route typed_json listed_http quiet_env codex two_members 0 default_runtime).observations
route_pinned_plan-CommitsLast_example =
    route_pinned_plan-CommitsLast typed_json listed_http quiet_env codex two_members 0
      default_runtime second_answer answered refl
