-- ===== src/Health/Opening.antt =====
-- When a circuit opens, how long it refuses, and how it closes again.
use muxvia.Prelude.{
  ℕ, ◌+◌, ◌-◌, ◌*◌, ◌≤◌, ◌<◌, ◌≡◌, refl, ap, ◌∙◌, Bool, true, false, none, some, arith, ◌⊎◌, inl,
  inr, Bool-cases, ltb,
}
use muxvia.Domain.{Target}
use muxvia.Health.{
  RouteHealthRuntime, RouteHealthOutcome, RouteAttemptPermit, healthy, degraded, unavailable,
  Circuit, CircuitPhase, closed, opened, half_open, open_period, admit, admit_phase, permit_for,
  entry_or_default, permit_success, permit_failure, success_circuit, success_phase, failure_circuit,
  count_failure, opens,
}
use muxvia.Health.Store.{entry-admit, entry-permit_success, entry-permit_failure}

abbrev pub IsHalfOpen : CircuitPhase → Type 0
IsHalfOpen closed = ⊥
IsHalfOpen (opened since) = ⊥
IsHalfOpen (half_open successes in_flight) = Unit

-- The release policy for opening a circuit, on the counters before the failure: a probe failed,
-- or it is the fourth failure in a row, or at least six in ten of ten or more attempts failed.
abbrev pub MustOpen : Circuit → Type 0
MustOpen c =
    IsHalfOpen c.phase
    ⊎ (3 ≤ c.consecutive_failures)
    ⊎ ((9 ≤ c.total_attempts) × ((c.total_attempts + 1) * 6 ≤ (c.failed_attempts + 1) * 10))

-- The counters are far enough from the limits of u64 for the products of the test.
abbrev InRange : Circuit → Type 0
InRange c =
    (c.total_attempts < 1000000000000000000)
    × (c.failed_attempts ≤ c.total_attempts)
    × (c.consecutive_failures ≤ c.failed_attempts)

opens→MustOpen :
    (c : Circuit) (phase : CircuitPhase)
    → c.phase ≡ phase
    → InRange c
    → opens (count_failure c) ≡ true
    → MustOpen c
unfolding opens count_failure
opens→MustOpen c closed e v h = ground arith
opens→MustOpen c (opened since) e v h = ground arith
opens→MustOpen c (half_open s f) e v h = ground arith

MustOpen→opens :
    (c : Circuit) (phase : CircuitPhase)
    → c.phase ≡ phase
    → InRange c
    → MustOpen c
    → opens (count_failure c) ≡ true
unfolding opens count_failure
MustOpen→opens c closed e v h = ground arith
MustOpen→opens c (opened since) e v h = ground arith
MustOpen→opens c (half_open s f) e v h = ground arith

module _ (health : RouteHealthRuntime) (permit : RouteAttemptPermit) where
  abbrev circuit_of : RouteHealthRuntime → Circuit
  circuit_of h = entry_or_default h permit.target permit.provider_id

  -- A failed attempt opens its circuit, from the time of the failure, and reports `unavailable`
  -- if the policy says so; if not, it reports `degraded` and leaves the phase as it was. The
  -- counters are assumed to agree and to be below 10^18.
  pub permit_failure-MustOpen :
      (now : ℕ) (outcome : RouteHealthOutcome)
      → InRange (circuit_of health)
      → (MustOpen (circuit_of health)
          × ((permit_failure health permit now outcome).1.state ≡ unavailable)
          × ((circuit_of (permit_failure health permit now outcome).0).phase ≡ opened now))
        ⊎ ((¬ MustOpen (circuit_of health))
            × ((permit_failure health permit now outcome).1.state ≡ degraded)
            × ((circuit_of (permit_failure health permit now outcome).0).phase
                ≡ (circuit_of health).phase))
  unfolding permit_failure failure_circuit
  permit_failure-MustOpen now outcome v =
      elim (Bool-cases (opens (count_failure (circuit_of health)))) [
        | inl e ↦ inl (
          opens→MustOpen (circuit_of health) (circuit_of health).phase refl v e,
          rw e refl,
          ap (λ c. c.phase) (entry-permit_failure health permit now outcome) ∙ rw e refl,
        )
        | inr e ↦ inr (
          (λ m. cc (MustOpen→opens (circuit_of health) (circuit_of health).phase refl v m)),
          rw e refl,
          ap (λ c. c.phase) (entry-permit_failure health permit now outcome)
              ∙ rw (e, failure_circuit) refl,
        )
      ]

-- The permits for the circuit of `t` and `p`.
abbrev pub issued : Target → ℕ → Bool → RouteAttemptPermit
issued t p half = record { target = t; provider_id = p; half_open = half; completed = false }

module _ (health : RouteHealthRuntime) (t : Target) (p : ℕ) where
  abbrev phase_in : RouteHealthRuntime → CircuitPhase
  phase_in h = (entry_or_default h t p).phase

  pub admit_result :
      (now : ℕ) {phase : CircuitPhase}
      → phase_in health ≡ phase
      → ((admit health t p now).1 ≡ permit_for t p (admit_phase phase now).1)
        × (phase_in (admit health t p now).0 ≡ (admit_phase phase now).0)
  unfolding admit
  admit_result now e = (
    ap (λ q. permit_for t p (admit_phase q now).1) e,
    ap (λ c. c.phase) (entry-admit health t p now) ∙ ap (λ q. (admit_phase q now).0) e,
  )

  pub success_result :
      (half : Bool) {phase : CircuitPhase}
      → phase_in health ≡ phase
      → ((permit_success health (issued t p half)).1.state ≡ (success_phase phase).1)
        × (phase_in (permit_success health (issued t p half)).0 ≡ (success_phase phase).0)
  unfolding permit_success success_circuit
  success_result half e = (
    ap (λ q. (success_phase q).1) e,
    ap (λ c. c.phase) (entry-permit_success health (issued t p half))
        ∙ ap (λ q. (success_phase q).0) e,
  )

  half_open-refuses :
      (successes : ℕ)
      → phase_in health ≡ half_open successes true
      → (now : ℕ) → (admit health t p now).1 ≡ none
  unfolding admit_phase permit_for
  half_open-refuses successes e now = (admit_result now e).0

module _ (health : RouteHealthRuntime) (t : Target) (p since : ℕ) where
  -- An open circuit refuses every attempt for sixty seconds, and after that it admits one probe;
  -- while that probe is under way no other attempt is admitted, at any time.
  pub opened-admit :
      (now : ℕ)
      → (entry_or_default health t p).phase ≡ opened since
      → ((now < since + open_period)
          × ((admit health t p now).1 ≡ none)
          × ((entry_or_default (admit health t p now).0 t p).phase ≡ opened since))
        ⊎ ((since + open_period ≤ now)
            × ((admit health t p now).1 ≡ some (issued t p true))
            × ((again : ℕ) → (admit (admit health t p now).0 t p again).1 ≡ none))
  unfolding admit_phase permit_for
  opened-admit now e = elim (Bool-cases (ltb (now - since) open_period)) [
    | inl early ↦ inl (
      ground arith,
      (admit_result health t p now e).0 ∙ rw early refl,
      (admit_result health t p now e).1 ∙ rw early refl,
    )
    | inr late ↦ inr (
      ground arith,
      (admit_result health t p now e).0 ∙ rw late refl,
      half_open-refuses (admit health t p now).0 t p 0
          ((admit_result health t p now e).1 ∙ rw late refl),
    )
  ]

-- The runtimes of a recovery: two probes, one after the other, that both succeed.
module _ (health : RouteHealthRuntime) (t : Target) (p : ℕ) where
  abbrev pub probed : ℕ → RouteHealthRuntime
  probed first = (admit health t p first).0

  abbrev pub half_recovered : ℕ → RouteHealthRuntime
  half_recovered first = (permit_success (probed first) (issued t p true)).0

  abbrev pub probed_again : ℕ → ℕ → RouteHealthRuntime
  probed_again first second = (admit (half_recovered first) t p second).0

  abbrev pub recovered : ℕ → ℕ → RouteHealthRuntime
  recovered first second = (permit_success (probed_again first second) (issued t p true)).0

  -- Once sixty seconds have passed, a circuit that is open closes again after two successful
  -- probes, and no earlier: after the first one it reports `degraded` and grants a probe again,
  -- after the second one it reports `healthy`, and grants an ordinary permit at any time.
  pub recovery :
      (since first second : ℕ)
      → (entry_or_default health t p).phase ≡ opened since
      → since + open_period ≤ first
      → ((admit health t p first).1 ≡ some (issued t p true))
        × ((permit_success (probed first) (issued t p true)).1.state ≡ degraded)
        × ((admit (half_recovered first) t p second).1 ≡ some (issued t p true))
        × ((permit_success (probed_again first second) (issued t p true)).1.state ≡ healthy)
        × ((later : ℕ) → (admit (recovered first second) t p later).1 ≡ some (issued t p false))
  unfolding admit_phase permit_for success_phase
  recovery since first second e h =
      let late : ltb (first - since) open_period ≡ false = ground arith in
      let a = admit_result health t p first e in
      let in_probe : (entry_or_default (probed first) t p).phase ≡ half_open 0 true =
        a.1 ∙ rw late refl in
      let s = success_result (probed first) t p true in_probe in
      let b = admit_result (half_recovered first) t p second s.1 in
      let r = success_result (probed_again first second) t p true b.1 in
      (
        a.0 ∙ rw late refl,
        s.0,
        b.0,
        r.0,
        λ later. (admit_result (recovered first second) t p later r.1).0,
      )
