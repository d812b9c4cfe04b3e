-- ===== src/Router/Order.antt =====
-- The order of the attempts of one request, and the last of them.
use muxvia.Prelude.{
  ℕ, ◌≡◌, ap, sym, ◌∙◌, subst, true, Option, none, some, List, [], ◌∷◌, ◌++◌, append-nil,
  append_assoc, map, if◌then◌else◌,
}
use mathlib.Core.List.{map-append}
use muxvia.Domain.{Target}
use muxvia.Json.{JsonLib}
use muxvia.Http.{HttpLib}
use muxvia.Health.{RouteHealthOutcome, RouteHealthObservation, RouteHealthRuntime}
use muxvia.RoutePlan.{
  RoutePlanMemberSnapshot, ActivatedRoutePlanSnapshot, RoutedUpstream, is_success, RouteEnv,
  PinnedRouteResult, Progress, Attempted, next, done,
}
use muxvia.Router.{unless_done, route_members, start, result_of, route_pinned_plan}
use muxvia.Router.Told.{Failed, Seen, AllFailed, IsRetryable, Reply, Round, retryable-not-success}
use muxvia.Router.Attempts.{route_member-Round}

-- The ids are those of the second list with some left out.
pub data Sublist : List ℕ → List ℕ → Type 0 where
  nil : Sublist [] []
  keep : {xs ys : List ℕ} (x : ℕ) → Sublist xs ys → Sublist (x ∷ xs) (x ∷ ys)
  omit : {xs ys : List ℕ} (y : ℕ) → Sublist xs ys → Sublist xs (y ∷ ys)

pub none_of : (ys : List ℕ) → Sublist [] ys
none_of [] = nil
none_of (y ∷ ys) = omit y (none_of ys)

abbrev pub ids : List RouteHealthObservation → List ℕ
ids = map (λ o. o.provider_id)

abbrev pub member_ids : List RoutePlanMemberSnapshot → List ℕ
member_ids = map (λ m. m.provider_id)

-- Every observation but the last one is a failure.
abbrev pub FailBeforeLast : List RouteHealthObservation → Type 0
FailBeforeLast [] = Unit
FailBeforeLast (o ∷ []) = Unit
FailBeforeLast (o ∷ o' ∷ os) = Failed o × FailBeforeLast (o' ∷ os)

pub Seen-Sublist :
    (id : ℕ) (seen : List RouteHealthObservation) {xs ys : List ℕ}
    → Seen id seen
    → Sublist xs ys
    → Sublist (ids seen ++ xs) (id ∷ ys)
Seen-Sublist id [] s t = omit id t
Seen-Sublist id (o ∷ []) {xs} {ys} s t = subst (λ k. Sublist (k ∷ xs) (id ∷ ys)) (sym s) (keep id t)
Seen-Sublist id (o ∷ o' ∷ os) s t = absurd s

pub AllFailed-append :
    (xs ys : List RouteHealthObservation)
    → AllFailed xs
    → FailBeforeLast ys
    → FailBeforeLast (xs ++ ys)
AllFailed-append [] ys a f = f
AllFailed-append (x ∷ []) [] a f = tt
AllFailed-append (x ∷ []) (y ∷ ys) a f = (a.0, f)
AllFailed-append (x ∷ x' ∷ xs) ys a f = (a.0, AllFailed-append (x' ∷ xs) ys a.1 f)

pub Seen-FailBeforeLast :
    (id : ℕ) (seen : List RouteHealthObservation) → Seen id seen → FailBeforeLast seen
Seen-FailBeforeLast id [] s = tt
Seen-FailBeforeLast id (o ∷ []) s = tt
Seen-FailBeforeLast id (o ∷ o' ∷ os) s = absurd s

module _ (json : JsonLib) (http : HttpLib) (env : RouteEnv http) (target : Target) where
  -- The last observation is that of the response that is handed on, if that is a success.
  abbrev pub CommitsLast : RoutedUpstream http → List RouteHealthObservation → Type 0
  CommitsLast r seen =
      (before : List RouteHealthObservation) × (o : RouteHealthObservation) × (seen
        ≡ before ++ o ∷ [])
      × (o.provider_id ≡ r.provider_id)
      × (o.outcome ≡ (
          if r.semantic_failure
          then RouteHealthOutcome.semantic_failure
          else RouteHealthOutcome.success))

  abbrev LastReply : Option (RoutedUpstream http) → List RouteHealthObservation → Type 0
  LastReply none seen = Unit
  LastReply (some r) seen = is_success r.response.status ≡ true → CommitsLast r seen

  abbrev Loop :
      List RoutePlanMemberSnapshot → List RouteHealthObservation → Attempted http env.World → Type 0
  Loop members old (next q) = ⊥
  Loop members old (done q routed failure) =
      (seen : List RouteHealthObservation) × (q.observations ≡ old ++ seen)
      × Sublist (ids seen) (member_ids members)
      × FailBeforeLast seen
      × LastReply routed seen

  waiting_reply :
      (waiting : Option (RoutedUpstream http))
      → IsRetryable json http env target waiting
      → LastReply waiting []
  waiting_reply none h = tt
  waiting_reply (some r) h = λ good. cc (good, retryable-not-success r.response.status h)

  round-Reply :
      (routed : Option (RoutedUpstream http)) (seen : List RouteHealthObservation)
      → Reply json http env target routed seen
      → LastReply routed seen
  round-Reply none seen h = tt
  round-Reply (some r) seen h = λ good. let (o, e, i, k) = h good in ([], o, e, i, k)

  later_reply :
      (routed : Option (RoutedUpstream http)) (seen later : List RouteHealthObservation)
      → LastReply routed later
      → LastReply routed (seen ++ later)
  later_reply none seen later h = tt
  later_reply (some r) seen later h = λ good.
      let (before, o, e, i, k) = h good in
      (seen ++ before, o, ap (◌++◌ seen) e ∙ sym (append_assoc seen before (o ∷ [])), i, k)

  unless_done-Loop :
      (member : RoutePlanMemberSnapshot) (members : List RoutePlanMemberSnapshot)
      (old : List RouteHealthObservation) (a : Attempted http env.World)
      (continue : Progress http env.World → Attempted http env.World)
      → Round json http env target member.provider_id old a
      → ((q : Progress http env.World)
          → IsRetryable json http env target q.last_response
          → Loop members q.observations (continue q))
      → Loop (member ∷ members) old (unless_done json http env target a continue)
  unfolding unless_done
  unless_done-Loop member members old (done q routed failure) continue (seen, e, s, reply) after = (
    seen,
    e,
    subst (λ k. Sublist k (member_ids (member ∷ members))) (append-nil (ids seen))
        (Seen-Sublist member.provider_id seen s (none_of (member_ids members))),
    Seen-FailBeforeLast member.provider_id seen s,
    round-Reply routed seen reply,
  )
  unless_done-Loop member members old (next q) continue (seen, e, s, bad, waiting) after =
      append_loop (continue q) (after q waiting)
    where
      append_loop :
          (a : Attempted http env.World)
          → Loop members q.observations a
          → Loop (member ∷ members) old a
      append_loop (next r) h = absurd h
      append_loop (done r routed failure) (later, e', sub, f, reply) = (
        seen ++ later,
        e' ∙ ap (λ k. k ++ later) e ∙ append_assoc old seen later,
        subst (λ k. Sublist k (member_ids (member ∷ members)))
            (sym (map-append (λ o. o.provider_id) seen later))
            (Seen-Sublist member.provider_id seen s sub),
        AllFailed-append seen later bad f,
        later_reply routed seen later reply,
      )

  route_members-Loop :
      (members : List RoutePlanMemberSnapshot) (p : Progress http env.World)
      → IsRetryable json http env target p.last_response
      → Loop members p.observations (route_members json http env target members p)
  unfolding route_members
  route_members-Loop [] p waiting =
      ([], sym (append-nil p.observations), nil, tt, waiting_reply p.last_response waiting)
  route_members-Loop (member ∷ members) p waiting =
      unless_done-Loop member members p.observations _ _
        (route_member-Round json http env target _ member p waiting)
        (λ q h. route_members-Loop members q h)

  -- What a finished loop says of the plan that it ran through.
  module _ (plan : ActivatedRoutePlanSnapshot) (w : env.World) (health : RouteHealthRuntime) where
    abbrev pub route : PinnedRouteResult http
    route = route_pinned_plan json http env target plan w health

    result-Loop :
        (a : Attempted http env.World)
        → Loop plan.members [] a
        → let r = result_of json http env target plan a in
          Sublist (ids r.observations) (member_ids plan.members)
          × FailBeforeLast r.observations
          × LastReply r.routed r.observations
    unfolding result_of
    result-Loop (next q) h = absurd h
    result-Loop (done q routed failure) (seen, e, s, f, reply) = (
      subst (λ k. Sublist (ids k) (member_ids plan.members)) (sym e) s,
      subst FailBeforeLast (sym e) f,
      subst (LastReply routed) (sym e) reply,
    )

    route-Loop :
        Sublist (ids route.observations) (member_ids plan.members)
        × FailBeforeLast route.observations
        × LastReply route.routed route.observations
    unfolding route_pinned_plan start
    route-Loop =
        result-Loop
          (route_members json http env target plan.members (start json http env target w health))
          (route_members-Loop plan.members (start json http env target w health) tt)

    -- Whatever the clock, the transport and concurrent requests do: the attempts follow the order
    -- of the plan, with at most one for each of its entries, and every one but the last has failed.
    pub route_pinned_plan-ordered :
        Sublist (ids route.observations) (member_ids plan.members)
        × FailBeforeLast route.observations
    route_pinned_plan-ordered = (route-Loop.0, route-Loop.1)

    -- If the request is answered by an upstream response with a success status, then the attempt
    -- that yielded it is the last one of the request: no other member was tried after it. Its
    -- circuit was told of a success, or of a semantic failure if the response was committed as one.
    pub route_pinned_plan-CommitsLast :
        (r : RoutedUpstream http)
        → route.routed ≡ some r
        → is_success r.response.status ≡ true
        → CommitsLast r route.observations
    route_pinned_plan-CommitsLast r e good =
        (subst (λ k. LastReply k route.observations) e route-Loop.2) good
