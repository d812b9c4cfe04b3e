-- ===== src/Health/Tests.antt =====
-- Runs of the circuit breaker: a circuit that three failures have brought to its limit, one that is
-- open since the time 5, and the two requests that share one circuit.
use muxvia.Prelude.{ℕ, ◌+◌, ◌≤◌, ◌<◌, ◌≡◌, refl, false, true, some, none, [], ◌∷◌, ◌⊎◌, arith}
use muxvia.Domain.{codex, claude, target_eq}
use muxvia.Health.{
  RouteHealthOutcome, RouteHealthRuntime, closed, opened, half_open, default_runtime,
  default_circuit, entry_or_default, admit, permit_success, permit_failure, unavailable, degraded,
  healthy, open_period,
}
use muxvia.Health.Counters.{admits, fails, IsCounted, history, history-IsCounted}
use muxvia.Health.Opening.{
  issued, MustOpen, permit_failure-MustOpen, opened-admit, recovery, probed, half_recovered,
  probed_again, recovered,
}
use muxvia.Health.Interleaving.{World, here, next, granted, probes}
use muxvia.Health.Probes.{Reach-one_probe, stale_success-two_probes}

abbrev three_failures : RouteHealthRuntime
three_failures codex id =
    some
      (record default_circuit { consecutive_failures = 3; total_attempts = 3; failed_attempts = 3 })
three_failures claude id = none

abbrev semantic : RouteHealthOutcome
semantic = RouteHealthOutcome.semantic_failure

history-IsCounted_example : IsCounted 2 (
    entry_or_default
      (history default_runtime (admits codex 7 0 ∷ fails (issued codex 7 false) 1 semantic ∷ []))
      codex
      7)
history-IsCounted_example =
    history-IsCounted (admits codex 7 0 ∷ fails (issued codex 7 false) 1 semantic ∷ []) codex 7
      (omega arith)

abbrev after_fourth : RouteHealthRuntime
after_fourth = (permit_failure three_failures (issued codex 7 false) 5 semantic).0

permit_failure-MustOpen_example :
    (MustOpen (entry_or_default three_failures codex 7)
      × ((permit_failure three_failures (issued codex 7 false) 5 semantic).1.state ≡ unavailable)
      × ((entry_or_default after_fourth codex 7).phase ≡ opened 5))
    ⊎ ((¬ MustOpen (entry_or_default three_failures codex 7))
        × ((permit_failure three_failures (issued codex 7 false) 5 semantic).1.state ≡ degraded)
        × ((entry_or_default after_fourth codex 7).phase ≡ closed))
permit_failure-MustOpen_example =
    permit_failure-MustOpen three_failures (issued codex 7 false) 5 semantic
      (omega arith, omega arith, omega arith)

abbrev open_since_5 : RouteHealthRuntime
open_since_5 codex id = some (record default_circuit { phase = opened 5 })
open_since_5 claude id = none

opened-admit_example :
    ((60000000005 < 5 + open_period)
      × ((admit open_since_5 codex 7 60000000005).1 ≡ none)
      × ((entry_or_default (admit open_since_5 codex 7 60000000005).0 codex 7).phase ≡ opened 5))
    ⊎ ((5 + open_period ≤ 60000000005)
        × ((admit open_since_5 codex 7 60000000005).1 ≡ some (issued codex 7 true))
        × ((again : ℕ) → (admit (admit open_since_5 codex 7 60000000005).0 codex 7 again).1 ≡ none))
opened-admit_example = opened-admit open_since_5 codex 7 5 60000000005 refl

recovery_example :
    ((admit open_since_5 codex 7 60000000005).1 ≡ some (issued codex 7 true))
    × ((permit_success (probed open_since_5 codex 7 60000000005) (issued codex 7 true)).1.state
        ≡ degraded)
    × ((admit (half_recovered open_since_5 codex 7 60000000005) codex 7 60000000006).1
        ≡ some (issued codex 7 true))
    × ((permit_success
          (probed_again open_since_5 codex 7 60000000005 60000000006)
          (issued codex 7 true)).1.state
        ≡ healthy)
    × ((later : ℕ)
        → (admit (recovered open_since_5 codex 7 60000000005 60000000006) codex 7 later).1
          ≡ some (issued codex 7 false))
recovery_example = recovery open_since_5 codex 7 5 60000000005 60000000006 refl (omega arith)

Reach-one_probe_example : probes codex 7 (issued codex 7 false ∷ []) ≤ 1
Reach-one_probe_example =
    Reach-one_probe
      {w = record {
        health = (admit default_runtime codex 7 0).0;
        held = issued codex 7 false ∷ [];
      }}
      codex 7 (next here (granted codex 7 0 false (unfold admit in refl) refl))

-- One request began before the circuit opened, the other one is its probe.
abbrev two_requests : World
two_requests = record {
  health = λ t p. some (record default_circuit { phase = half_open 0 true });
  held = issued codex 7 true ∷ issued codex 7 false ∷ [];
}

stale_success-two_probes_example :
    ((admit (permit_success two_requests.health (issued codex 7 false)).0 codex 7 1).1
      ≡ some (issued codex 7 true))
    × (probes codex 7 (issued codex 7 true ∷ issued codex 7 true ∷ []) ≡ 2)
stale_success-two_probes_example =
    stale_success-two_probes two_requests (issued codex 7 true ∷ []) [] codex 7 1 refl refl
      (unfold target_eq in refl)
