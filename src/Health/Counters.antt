-- ===== src/Health/Counters.antt =====
-- The counters of a circuit, over any history of admissions, completions and dropped permits.
use muxvia.Prelude.{
  ℕ, suc, ◌+◌, ◌≤◌, ◌<◌, ◌≡◌, refl, ◌∙◌, sym, subst, Option, none, some, List, [], ◌∷◌, arith, ◌⊎◌,
  inl, inr, length, u64_mod, Bool-cases, not, ◌||◌,
}
use muxvia.Domain.{Target}
use muxvia.Health.{
  RouteHealthRuntime, RouteHealthOutcome, RouteAttemptPermit, Circuit, CircuitPhase, closed, opened,
  half_open, default_circuit, default_runtime, store, admit, admit_phase, entry_or_default,
  or_default, release_circuit, release_phase, drop_permit, permit_success, permit_failure,
  success_circuit, success_phase, failure_circuit, count_failure, opens,
}
use muxvia.Health.Store.{
  permit_success-store, permit_failure-store, Key-cases, store-Apart, store_self,
}

-- What a phase says of the counters.
abbrev pub PhaseInv : CircuitPhase → ℕ → Type 0
PhaseInv closed failures = failures < 4
PhaseInv (opened since) failures = Unit {0}
PhaseInv (half_open successes in_flight) failures = successes < 2

pub record IsCounted (bound : ℕ) (c : Circuit) : Type 0 where
  pub attempts : c.total_attempts ≤ bound
  pub split : c.consecutive_successes + c.failed_attempts ≤ c.total_attempts
  pub recent : c.consecutive_failures ≤ c.failed_attempts
  pub streak : (c.consecutive_successes ≡ 0) ⊎ (c.consecutive_failures ≡ 0)
  pub phase_inv : PhaseInv c.phase c.consecutive_failures

default_circuit-IsCounted : IsCounted 0 default_circuit
default_circuit-IsCounted = ground arith

admit-IsCounted :
    {bound : ℕ} (c : Circuit) (phase : CircuitPhase) (now : ℕ)
    → c.phase ≡ phase
    → IsCounted bound c
    → IsCounted bound (record c { phase = (admit_phase phase now).0 })
unfolding admit_phase
admit-IsCounted c closed now e v = ground arith
admit-IsCounted c (opened since) now e v = ground arith
admit-IsCounted c (half_open successes in_flight) now e v = ground arith

success-IsCounted :
    {bound : ℕ} (c : Circuit) (phase : CircuitPhase)
    → c.phase ≡ phase
    → suc bound < u64_mod
    → IsCounted bound c
    → IsCounted (suc bound) (success_circuit c)
unfolding success_circuit success_phase
success-IsCounted c closed e h v = ground arith
success-IsCounted c (opened since) e h v = ground arith
success-IsCounted c (half_open successes in_flight) e h v = ground arith

failure-IsCounted :
    {bound : ℕ} (c : Circuit) (phase : CircuitPhase) (now : ℕ)
    → c.phase ≡ phase
    → suc bound < u64_mod
    → IsCounted bound c
    → IsCounted (suc bound) (failure_circuit c now)
unfolding failure_circuit count_failure opens
failure-IsCounted c closed now e h v = ground arith
failure-IsCounted c (opened since) now e h v = ground arith
failure-IsCounted c (half_open successes in_flight) now e h v = ground arith

release-IsCounted :
    {bound : ℕ} (c : Circuit) (phase : CircuitPhase)
    → c.phase ≡ phase
    → IsCounted bound c
    → IsCounted bound (record c { phase = release_phase phase })
unfolding release_phase
release-IsCounted c closed e v = ground arith
release-IsCounted c (opened since) e v = ground arith
release-IsCounted c (half_open successes in_flight) e v = ground arith

IsCounted-mono : {a b : ℕ} {c : Circuit} → a ≤ b → IsCounted a c → IsCounted b c
IsCounted-mono h v = ground arith

-- One call on the runtime. A permit carries the key that it was issued for.
pub data Event : Type 0 where
  admits : Target → ℕ → (now : ℕ) → Event
  succeeds : RouteAttemptPermit → Event
  fails : RouteAttemptPermit → (now : ℕ) → RouteHealthOutcome → Event
  drops : RouteAttemptPermit → Event

unfoldable pub happen : RouteHealthRuntime → Event → RouteHealthRuntime
happen health (admits target provider_id now) = (admit health target provider_id now).0
happen health (succeeds permit) = (permit_success health permit).0
happen health (fails permit now outcome) = (permit_failure health permit now outcome).0
happen health (drops permit) = drop_permit health permit

unfoldable pub history : RouteHealthRuntime → List Event → RouteHealthRuntime
history health [] = health
history health (e ∷ es) = history (happen health e) es

abbrev AllCounted : ℕ → RouteHealthRuntime → Type 0
AllCounted bound health = (t : Target) (p : ℕ) → IsCounted bound (entry_or_default health t p)

store-AllCounted :
    {a b : ℕ} (health : RouteHealthRuntime) (t : Target) (p : ℕ) (c : Circuit)
    → a ≤ b
    → AllCounted a health
    → IsCounted b c
    → AllCounted b (store health t p c)
store-AllCounted {a} {b} health t p c h all v u q = elim (Key-cases t p u q) [
  | inl (et, ep) ↦
      subst (λ k. IsCounted b (or_default k)) (sym (store_self health t p c) ∙ ap₂' et ep) v
  | inr d ↦
      subst (λ k. IsCounted b (or_default k)) (sym (store-Apart health t p c u q d))
        (IsCounted-mono h (all u q))
]
  where
    ap₂' : t ≡ u → p ≡ q → store health t p c t p ≡ store health t p c u q
    ap₂' et ep = λ i. store health t p c (et i) (ep i)

drop-AllCounted :
    {bound : ℕ} (health : RouteHealthRuntime) (permit : RouteAttemptPermit)
    → AllCounted bound health
    → AllCounted bound (drop_permit health permit)
unfolding drop_permit
drop-AllCounted {bound} health permit all =
    elim (Bool-cases (not permit.half_open || permit.completed)) [
      | inl e ↦ rw (e, drop_permit) all
      | inr e ↦
          rw (e, drop_permit)
            (release (health permit.target permit.provider_id)
              (all permit.target permit.provider_id))
    ]
  where
    release :
        (found : Option Circuit)
        → IsCounted bound (or_default found)
        → AllCounted bound (release_circuit health permit.target permit.provider_id found)
    release none v = all
    release (some c) v =
        store-AllCounted health permit.target permit.provider_id _ (omega arith) all
          (release-IsCounted c c.phase refl v)

happen-AllCounted :
    {bound : ℕ} (health : RouteHealthRuntime) (e : Event)
    → suc bound < u64_mod
    → AllCounted bound health
    → AllCounted (suc bound) (happen health e)
unfolding happen admit
happen-AllCounted health (admits t p now) h all =
    store-AllCounted health t p _ (omega arith) all
      (IsCounted-mono (omega arith) (admit-IsCounted _ _ now refl (all t p)))
happen-AllCounted health (succeeds permit) h all = rw permit_success-store (
    store-AllCounted health permit.target permit.provider_id _ (omega arith) all
      (success-IsCounted _ _ refl h (all permit.target permit.provider_id)))
happen-AllCounted health (fails permit now outcome) h all = rw permit_failure-store (
    store-AllCounted health permit.target permit.provider_id _ (omega arith) all
      (failure-IsCounted _ _ now refl h (all permit.target permit.provider_id)))
happen-AllCounted health (drops permit) h all =
    λ t p. IsCounted-mono (omega arith) (drop-AllCounted health permit all t p)

history-AllCounted :
    {bound : ℕ} (health : RouteHealthRuntime) (es : List Event)
    → bound + length es < u64_mod
    → AllCounted bound health
    → AllCounted (bound + length es) (history health es)
unfolding history
history-AllCounted {bound} health [] h all = λ t p. IsCounted-mono (omega arith) (all t p)
history-AllCounted {bound} health (e ∷ es) h all = λ t p. IsCounted-mono (omega arith) (
    history-AllCounted {bound = suc bound} (happen health e) es (omega arith)
      (happen-AllCounted health e (omega arith) all) t p)

-- After any history of fewer than 2^64 calls, in any order and with any permits, every circuit's
-- counters agree: the attempts are at most the calls, the failed ones and the present run of
-- successes fit into them, the present run of failures fits into the failed ones, one of the two
-- runs is empty, a closed circuit has fewer than four failures in a row, and a half-open one
-- fewer than two successful probes.
pub history-IsCounted :
    (es : List Event) (t : Target) (p : ℕ)
    → length es < u64_mod
    → IsCounted (length es) (entry_or_default (history default_runtime es) t p)
history-IsCounted es t p h = IsCounted-mono (omega arith) (
    history-AllCounted {bound = 0} default_runtime es (omega arith)
      (λ u q. default_circuit-IsCounted) t p)
