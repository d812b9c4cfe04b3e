-- ===== src/Health.antt =====
-- The route health runtime of crates/routing-service/src/model/router.rs: one circuit breaker
-- for each target and provider, and the permits of the attempts that are under way. Every
-- operation runs under the target's mutex, so it is one step. An instant is a number of
-- nanoseconds; a provider id is the number that its UUID encodes.
pub mod Store
pub mod Counters
pub mod Opening
pub mod Interleaving
pub mod Probes
mod Tests
use muxvia.Prelude.{
  ℕ, ◌-◌, Bool, true, false, not, ◌&&◌, ◌||◌, Option, none, some, ltb, leb, ◌==◌, if◌then◌else◌,
  u64_inc, u8_inc, u64_saturating_mul,
}
use muxvia.Domain.{Target, target_eq}

pub data RouteHealthOutcome : Type 0 where
  success transport_failure semantic_failure retryable_upstream_status : RouteHealthOutcome
  configuration_failure subscription_account_unavailable : RouteHealthOutcome
  subscription_account_needs_reauthorization : RouteHealthOutcome
  subscription_bridge_invalid_request : RouteHealthOutcome
  subscription_bridge_count_tokens_unsupported : RouteHealthOutcome

-- The three texts of `RouteHealthObservation.state`.
pub data HealthState : Type 0 where
  healthy degraded unavailable : HealthState

pub record RouteHealthObservation : Type 0 where
  pub provider_id : ℕ
  pub state : HealthState
  pub consecutive_successes : ℕ
  pub consecutive_failures : ℕ
  pub total_attempts : ℕ
  pub failed_attempts : ℕ
  pub outcome : RouteHealthOutcome

pub data CircuitPhase : Type 0 where
  closed : CircuitPhase
  opened : (since : ℕ) → CircuitPhase
  half_open : (successes : ℕ) (in_flight : Bool) → CircuitPhase

pub record Circuit : Type 0 where
  pub phase : CircuitPhase
  pub consecutive_successes : ℕ
  pub consecutive_failures : ℕ
  pub total_attempts : ℕ
  pub failed_attempts : ℕ

abbrev pub default_circuit : Circuit
default_circuit = record {
  phase = closed;
  consecutive_successes = 0;
  consecutive_failures = 0;
  total_attempts = 0;
  failed_attempts = 0;
}

-- The maps of the two targets.
abbrev pub RouteHealthRuntime : Type 0
RouteHealthRuntime = Target → ℕ → Option Circuit

abbrev pub default_runtime : RouteHealthRuntime
default_runtime target provider_id = none

-- `circuits.entry(provider_id).or_default()`
abbrev pub or_default : Option Circuit → Circuit
or_default none = default_circuit
or_default (some circuit) = circuit

abbrev pub entry_or_default : RouteHealthRuntime → Target → ℕ → Circuit
entry_or_default health target provider_id = or_default (health target provider_id)

unfoldable pub store : RouteHealthRuntime → Target → ℕ → Circuit → RouteHealthRuntime
unfolding target_eq
store health target provider_id circuit target' provider_id' =
    if target_eq target target' && provider_id == provider_id'
    then some circuit
    else health target' provider_id'

pub record RouteAttemptPermit : Type 0 where
  pub target : Target
  pub provider_id : ℕ
  pub half_open : Bool
  pub completed : Bool

-- `Duration::from_secs(60)`
abbrev pub open_period : ℕ
open_period = 60000000000

-- What `admit` does to the phase: the phase that it leaves, and, if it grants the permit,
-- whether that is a half-open one.
unfoldable pub admit_phase : CircuitPhase → ℕ → CircuitPhase × Option Bool
admit_phase closed now = (closed, some false)
admit_phase (opened since) now =
    if ltb (now - since) open_period then (opened since, none) else (half_open 0 true, some true)
admit_phase (half_open successes in_flight) now =
    if in_flight
    then (half_open successes in_flight, none)
    else (half_open successes true, some true)

pub permit_for : Target → ℕ → Option Bool → Option RouteAttemptPermit
permit_for target provider_id none = none
permit_for target provider_id (some half) =
    some
      (record { target = target; provider_id = provider_id; half_open = half; completed = false })

unfoldable pub admit :
    RouteHealthRuntime → Target → ℕ → ℕ → RouteHealthRuntime × Option RouteAttemptPermit
unfolding admit_phase permit_for
admit health target provider_id now =
    let circuit = entry_or_default health target provider_id in
    let step = admit_phase circuit.phase now in
    (
      store health target provider_id (record circuit { phase = step.0 }),
      permit_for target provider_id step.1,
    )

unfoldable pub observation : ℕ → Circuit → HealthState → RouteHealthOutcome → RouteHealthObservation
observation provider_id circuit state outcome = record {
  provider_id = provider_id;
  state = state;
  consecutive_successes = circuit.consecutive_successes;
  consecutive_failures = circuit.consecutive_failures;
  total_attempts = circuit.total_attempts;
  failed_attempts = circuit.failed_attempts;
  outcome = outcome;
}

unfoldable pub success_phase : CircuitPhase → CircuitPhase × HealthState
success_phase (half_open successes in_flight) =
    if leb 2 (u8_inc successes)
    then (closed, healthy)
    else (half_open (u8_inc successes) false, degraded)
success_phase _ = (closed, healthy)

unfoldable pub success_circuit : Circuit → Circuit
unfolding success_phase
success_circuit circuit = record circuit {
  phase = (success_phase circuit.phase).0;
  consecutive_successes = u64_inc circuit.consecutive_successes;
  consecutive_failures = 0;
  total_attempts = u64_inc circuit.total_attempts;
}

unfoldable pub record_success :
    RouteHealthRuntime → Target → ℕ → RouteHealthRuntime × RouteHealthObservation
unfolding success_circuit success_phase observation
record_success health target provider_id =
    let circuit = entry_or_default health target provider_id in
    let after = success_circuit circuit in
    (
      store health target provider_id after,
      observation provider_id after (success_phase circuit.phase).1 success,
    )

is_half_open : CircuitPhase → Bool
is_half_open (half_open successes in_flight) = true
is_half_open _ = false

-- The counters of `failure`, and its test.
unfoldable pub count_failure : Circuit → Circuit
count_failure circuit = record circuit {
  consecutive_successes = 0;
  consecutive_failures = u64_inc circuit.consecutive_failures;
  total_attempts = u64_inc circuit.total_attempts;
  failed_attempts = u64_inc circuit.failed_attempts;
}

unfoldable pub opens : Circuit → Bool
unfolding is_half_open
opens circuit =
    is_half_open circuit.phase
    || leb 4 circuit.consecutive_failures
    || (leb 10 circuit.total_attempts
        && leb (u64_saturating_mul circuit.total_attempts 6)
            (u64_saturating_mul circuit.failed_attempts 10))

unfoldable pub failure_circuit : Circuit → ℕ → Circuit
unfolding count_failure opens
failure_circuit circuit now =
    let counted = count_failure circuit in
    if opens counted then record counted { phase = opened now } else counted

unfoldable pub record_failure :
    RouteHealthRuntime
    → Target
    → ℕ
    → ℕ
    → RouteHealthOutcome
    → RouteHealthRuntime × RouteHealthObservation
unfolding failure_circuit observation
record_failure health target provider_id now outcome =
    let circuit = entry_or_default health target provider_id in
    let after = failure_circuit circuit now in
    (
      store health target provider_id after,
      observation provider_id after
          (if opens (count_failure circuit) then unavailable else degraded) outcome,
    )

-- `Drop::drop`
release_phase : CircuitPhase → CircuitPhase
release_phase (half_open successes in_flight) = half_open successes false
release_phase phase = phase

release_circuit : RouteHealthRuntime → Target → ℕ → Option Circuit → RouteHealthRuntime
unfolding release_phase
release_circuit health target provider_id none = health
release_circuit health target provider_id (some circuit) =
    store health target provider_id (record circuit { phase = release_phase circuit.phase })

unfoldable pub drop_permit : RouteHealthRuntime → RouteAttemptPermit → RouteHealthRuntime
unfolding release_circuit
drop_permit health permit =
    if not permit.half_open || permit.completed
    then health
    else release_circuit health permit.target permit.provider_id
        (health permit.target permit.provider_id)

-- A permit is consumed: it is marked as completed, recorded, and dropped.
unfoldable pub permit_success :
    RouteHealthRuntime → RouteAttemptPermit → RouteHealthRuntime × RouteHealthObservation
unfolding record_success drop_permit
permit_success health permit =
    let (health', seen) = record_success health permit.target permit.provider_id in
    (drop_permit health' (record permit { completed = true }), seen)

unfoldable pub permit_failure :
    RouteHealthRuntime
    → RouteAttemptPermit
    → ℕ
    → RouteHealthOutcome
    → RouteHealthRuntime × RouteHealthObservation
unfolding record_failure drop_permit
permit_failure health permit now outcome =
    let (health', seen) = record_failure health permit.target permit.provider_id now outcome in
    (drop_permit health' (record permit { completed = true }), seen)
