-- ===== src/Router/Told.antt =====
-- What a circuit is told of an attempt, and what a round of the loop may observe.
use muxvia.Prelude.{
  ℕ, ◌≡◌, ◌≢◌, refl, sym, ◌∙◌, subst, Bool, true, false, Option, none, some, List, [], ◌∷◌, ◌++◌,
  append-nil, arith, inl, inr, Bool-cases, if◌then◌else◌,
}
use muxvia.Domain.{Target}
use muxvia.Json.{JsonLib}
use muxvia.Http.{HttpLib}
use muxvia.Health.{
  RouteHealthOutcome, RouteHealthObservation, RouteHealthRuntime, RouteAttemptPermit, admit,
  permit_success, permit_failure, drop_permit,
}
use muxvia.RoutePlan.{
  RoutedUpstream, RouteAttemptFailure, is_terminal, observation_of, retryable_status, is_success,
  RouteEnv, Progress, Attempted, next, done,
}
use muxvia.Router.{fail_attempt, succeed_attempt, after_refusal, settle_permit}

abbrev pub Failed : RouteHealthObservation → Type 0
Failed o = o.outcome ≢ RouteHealthOutcome.success

pub retryable-not-success :
    (status : ℕ) → retryable_status status ≡ true → is_success status ≡ false
unfolding retryable_status
retryable-not-success status h = ground arith

observation_of-failed : (f : RouteAttemptFailure) → observation_of f ≢ RouteHealthOutcome.success
unfolding observation_of
observation_of-failed f e = ground arith

-- A permit carries the provider that was asked for.
pub granted_id :
    (health : RouteHealthRuntime) (target : Target) (id now : ℕ) (permit : RouteAttemptPermit)
    → (admit health target id now).1 ≡ some permit
    → permit.provider_id ≡ id
unfolding admit
granted_id health target id now permit e = ground arith

-- What one round observes of its member: nothing, or one failure, or an attempt of any outcome.
abbrev pub Seen : ℕ → List RouteHealthObservation → Type 0
Seen id [] = Unit
Seen id (o ∷ []) = o.provider_id ≡ id
Seen id (o ∷ o' ∷ os) = ⊥

abbrev pub AllFailed : List RouteHealthObservation → Type 0
AllFailed [] = Unit
AllFailed (o ∷ os) = Failed o × AllFailed os

module _ (json : JsonLib) (http : HttpLib) (env : RouteEnv http) (target : Target) where
  abbrev pub State : Type 0
  State = Progress http env.World

  abbrev seen_failure : State → RouteAttemptPermit → RouteHealthOutcome → RouteHealthObservation
  seen_failure p permit outcome = (permit_failure p.health permit (env.now p.world).0 outcome).1

  fail_attempt-observations :
      (p : State) (permit : RouteAttemptPermit) (outcome : RouteHealthOutcome)
      → (fail_attempt json http env target p permit outcome).observations
        ≡ p.observations ++ seen_failure p permit outcome ∷ []
  unfolding fail_attempt
  fail_attempt-observations p permit outcome = refl

  seen_failure_fields :
      (p : State) (permit : RouteAttemptPermit) (outcome : RouteHealthOutcome)
      → ((seen_failure p permit outcome).provider_id ≡ permit.provider_id)
        × ((seen_failure p permit outcome).outcome ≡ outcome)
  unfolding permit_failure
  seen_failure_fields p permit outcome = (refl, refl)

  -- A response that waits for a fallback has a status that is retried.
  abbrev pub IsRetryable : Option (RoutedUpstream http) → Type 0
  IsRetryable none = Unit
  IsRetryable (some r) = retryable_status r.response.status ≡ true

  -- The last attempt is that of `r`, and its outcome is that of the response.
  abbrev pub Commits : RoutedUpstream http → List RouteHealthObservation → Type 0
  Commits r seen =
      (o : RouteHealthObservation) × (seen ≡ o ∷ [])
      × (o.provider_id ≡ r.provider_id)
      × (o.outcome ≡ (
          if r.semantic_failure
          then RouteHealthOutcome.semantic_failure
          else RouteHealthOutcome.success))

  abbrev pub Reply : Option (RoutedUpstream http) → List RouteHealthObservation → Type 0
  Reply none seen = Unit
  Reply (some r) seen = is_success r.response.status ≡ true → Commits r seen

  -- One round, of the member `id`, after the observations `old`.
  abbrev pub Round : ℕ → List RouteHealthObservation → Attempted http env.World → Type 0
  Round id old (next q) =
      (seen : List RouteHealthObservation) × (q.observations ≡ old ++ seen)
      × Seen id seen
      × AllFailed seen
      × IsRetryable q.last_response
  Round id old (done q routed failure) =
      (seen : List RouteHealthObservation) × (q.observations ≡ old ++ seen)
      × Seen id seen
      × Reply routed seen

  module _ (id : ℕ) (p : State) (permit : RouteAttemptPermit) (own : permit.provider_id ≡ id) where
    pub fail_attempt-Round :
        (outcome : RouteHealthOutcome)
        → outcome ≢ RouteHealthOutcome.success
        → IsRetryable p.last_response
        → Round id p.observations (next (fail_attempt json http env target p permit outcome))
    unfolding fail_attempt permit_failure
    fail_attempt-Round outcome bad waiting =
        (seen_failure p permit outcome ∷ [], refl, own, (bad, tt), waiting)

    pub after_refusal-Round :
        (failure : RouteAttemptFailure)
        → IsRetryable p.last_response
        → Round id p.observations (after_refusal json http env target failure permit p)
    unfolding after_refusal fail_attempt permit_failure
    after_refusal-Round failure waiting = elim (Bool-cases (is_terminal failure)) [
      | inl e ↦
          rw (e, after_refusal) (seen_failure p permit (observation_of failure) ∷ [], refl, own, tt)
      | inr e ↦
          rw (e, after_refusal)
            (
              seen_failure p permit (observation_of failure) ∷ [],
              refl,
              own,
              (observation_of-failed failure, tt),
              waiting,
            )
    ]

    -- What the circuit was told of a response with this status.
    abbrev pub Told : Bool → ℕ → State → Type 0
    Told failed status q =
        (seen : List RouteHealthObservation) × (q.observations ≡ p.observations ++ seen)
        × Seen id seen
        × (is_success status ≡ true
            → (o : RouteHealthObservation) × (seen ≡ o ∷ [])
              × (o.provider_id ≡ id)
              × (o.outcome ≡ (
                  if failed
                  then RouteHealthOutcome.semantic_failure
                  else RouteHealthOutcome.success)))
        × (retryable_status status ≡ true → AllFailed seen)

    Told-one :
        (failed : Bool) (status : ℕ) (q : State) (o : RouteHealthObservation)
        → q.observations ≡ p.observations ++ o ∷ []
        → o.provider_id ≡ id
        → o.outcome ≡ (
            if failed
            then RouteHealthOutcome.semantic_failure
            else if is_success status
            then RouteHealthOutcome.success
            else RouteHealthOutcome.retryable_upstream_status)
        → Told failed status q
    Told-one failed status q o e i k = (
      o ∷ [],
      e,
      i,
      (λ good. (o, refl, i, k ∙ successful failed (is_success status) good)),
      (λ bad. (
        retried_outcome failed (is_success status) o.outcome k (retryable-not-success status bad),
        tt,
      )),
    )
      where
        successful :
            (f g : Bool)
            → g ≡ true
            → (if f
                then RouteHealthOutcome.semantic_failure
                else if g
                then RouteHealthOutcome.success
                else RouteHealthOutcome.retryable_upstream_status)
              ≡ (if f then RouteHealthOutcome.semantic_failure else RouteHealthOutcome.success)
        successful true g h = refl
        successful false g h = rw h refl

        retried_outcome :
            (f g : Bool) (outcome : RouteHealthOutcome)
            → outcome ≡ (
                if f
                then RouteHealthOutcome.semantic_failure
                else if g
                then RouteHealthOutcome.success
                else RouteHealthOutcome.retryable_upstream_status)
            → g ≡ false
            → outcome ≢ RouteHealthOutcome.success
        retried_outcome f g outcome h bad e = ground arith

    settle_success :
        (status : ℕ)
        → is_success status ≡ true
        → settle_permit json http env target false status permit p
          ≡ succeed_attempt json http env target p permit
    unfolding settle_permit
    settle_success status e = rw e refl

    settle_retryable :
        (status : ℕ)
        → is_success status ≡ false
        → retryable_status status ≡ true
        → settle_permit json http env target false status permit p
          ≡ fail_attempt json http env target p permit RouteHealthOutcome.retryable_upstream_status
    unfolding settle_permit
    settle_retryable status e r = rw (e, r) refl

    settle_other :
        (status : ℕ)
        → is_success status ≡ false
        → retryable_status status ≡ false
        → settle_permit json http env target false status permit p
          ≡ record p { health = drop_permit p.health permit }
    unfolding settle_permit
    settle_other status e r = rw (e, r) refl

    pub settle_permit-Told :
        (failed : Bool) (status : ℕ)
        → Told failed status (settle_permit json http env target failed status permit p)
    unfolding fail_attempt succeed_attempt permit_failure permit_success
    settle_permit-Told true status =
        Told-one true status (settle_permit json http env target true status permit p)
          (seen_failure p permit RouteHealthOutcome.semantic_failure) (unfold settle_permit in refl)
          own refl
    settle_permit-Told false status = elim (Bool-cases (is_success status)) [
      | inl e ↦ subst (Told false status) (sym (settle_success status e)) (
          Told-one false status (succeed_attempt json http env target p permit)
            (permit_success p.health permit).1 refl own (rw e refl))
      | inr e ↦ elim (Bool-cases (retryable_status status)) [
        | inl r ↦ subst (Told false status) (sym (settle_retryable status e r)) (
            Told-one false status
              (fail_attempt json http env target p permit
                RouteHealthOutcome.retryable_upstream_status)
              (seen_failure p permit RouteHealthOutcome.retryable_upstream_status) refl own
              (rw e refl))
        | inr r ↦
            subst (Told false status) (sym (settle_other status e r))
              ([], sym (append-nil p.observations), tt, (λ good. cc (good, e)), (λ bad. tt))
      ]
    ]
