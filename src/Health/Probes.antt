-- ===== src/Health/Probes.antt =====
-- Attempts of concurrent requests as interleaved steps: how many probes of one circuit are under
-- way at once.
use muxvia.Prelude.{
  ℕ, ◌+◌, ◌≤◌, ◌≡◌, refl, ap, sym, ◌∙◌, subst, Bool, true, false, Option, none, some, List, [], ◌∷◌,
  ◌++◌, arith, inl, inr,
}
use muxvia.Domain.{Target}
use muxvia.Health.{
  RouteHealthRuntime, RouteAttemptPermit, Circuit, CircuitPhase, closed, opened, half_open,
  default_runtime, admit, admit_phase, permit_for, entry_or_default, or_default, permit_success,
  drop_permit, release_circuit, release_phase, success_circuit, success_phase, failure_circuit,
  count_failure, opens,
}
use muxvia.Health.Store.{
  Apart, Key-cases, store_self, store-Apart, admit-Apart, admit-permit, drop_permit-Apart,
  permit_success-store, permit_failure-store, entry-admit, entry-permit_success,
  entry-permit_failure,
}
use muxvia.Health.Opening.{issued, IsHalfOpen, admit_result, success_result}
use muxvia.Health.Interleaving.{
  World, Step, Reach, probes, probes-append, in_flight_of, probe_count, probes-issued_self,
  probes-issued-Apart, Sole, AllSole, here, next, granted, refused, succeeded, failed, dropped,
}

-- A claim about every key, from the key that an operation touches and the others.
by_key :
    (P : Target → ℕ → Type 0) (t : Target) (p : ℕ)
    → P t p
    → ((u : Target) (q : ℕ) → Apart t p u q → P u q)
    → (u : Target) (q : ℕ) → P u q
by_key P t p own others u q = elim (Key-cases t p u q) [
  | inl (et, ep) ↦ subst (λ v. P v q) et (subst (P t) ep own)
  | inr d ↦ others u q d
]

Sole-apart :
    (h h' : RouteHealthRuntime) (held held' : List RouteAttemptPermit) (u : Target) (q : ℕ)
    → h' u q ≡ h u q
    → probes u q held' ≡ probes u q held
    → Sole h held u q
    → Sole h' held' u q
Sole-apart h h' held held' u q e n s = n ∙ s ∙ ap (λ c. in_flight_of (or_default c).phase) (sym e)

-- A permit leaves the list, and its circuit no longer counts it.
consume-AllSole :
    (h h' : RouteHealthRuntime) (before after : List RouteAttemptPermit) (t : Target) (p : ℕ)
    (half : Bool)
    → ((u : Target) (q : ℕ) → Apart t p u q → h' u q ≡ h u q)
    → ((k : ℕ)
        → probe_count half + k ≡ in_flight_of (entry_or_default h t p).phase
        → k ≡ in_flight_of (entry_or_default h' t p).phase)
    → AllSole h (before ++ issued t p half ∷ after)
    → AllSole h' (before ++ after)
consume-AllSole h h' before after t p half others own all =
    by_key (Sole h' (before ++ after)) t p
      (own (probes t p (before ++ after)) (
        omega (
          arith,
          all t p,
          probes-append t p before after,
          probes-append t p before (issued t p half ∷ after),
          probes-issued_self t p half after,
        )))
      λ u q d.
        Sole-apart h h' (before ++ issued t p half ∷ after) (before ++ after) u q (others u q d)
          (omega (
            arith,
            probes-append u q before after,
            probes-append u q before (issued t p half ∷ after),
            probes-issued-Apart t p half u q after d,
          ))
          (all u q)

success_own :
    (c : Circuit) (phase : CircuitPhase) (half : Bool) (k : ℕ)
    → c.phase ≡ phase
    → ¬ ((half ≡ false) × IsHalfOpen phase)
    → probe_count half + k ≡ in_flight_of phase
    → k ≡ in_flight_of (success_circuit c).phase
unfolding success_circuit success_phase probe_count
success_own c closed half k e stale n = ground arith
success_own c (opened since) half k e stale n = ground arith
success_own c (half_open s f) true k e stale n = ground arith
success_own c (half_open s f) false k e stale n = absurd (stale (refl, tt))

failure_own :
    (c : Circuit) (phase : CircuitPhase) (half : Bool) (k now : ℕ)
    → c.phase ≡ phase
    → ¬ ((half ≡ false) × IsHalfOpen phase)
    → probe_count half + k ≡ in_flight_of phase
    → k ≡ in_flight_of (failure_circuit c now).phase
unfolding failure_circuit count_failure opens probe_count
failure_own c closed half k now e stale n = ground arith
failure_own c (opened since) half k now e stale n = ground arith
failure_own c (half_open s f) true k now e stale n = ground arith
failure_own c (half_open s f) false k now e stale n = absurd (stale (refl, tt))

release_own :
    (h : RouteHealthRuntime) (t : Target) (p : ℕ) (found : Option Circuit) (k : ℕ)
    → h t p ≡ found
    → probe_count true + k ≡ in_flight_of (or_default found).phase
    → k ≡ in_flight_of (or_default (release_circuit h t p found t p)).phase
unfolding release_circuit probe_count
release_own h t p none k e n = absurd (omega arith)
release_own h t p (some c) k e n =
    rw (store_self h t p (record c { phase = release_phase c.phase })) (released c.phase n)
  where
    released :
        (phase : CircuitPhase)
        → probe_count true + k ≡ in_flight_of phase
        → k ≡ in_flight_of (release_phase phase)
    released closed m = absurd (omega arith)
    released (opened since) m = absurd (omega arith)
    released (half_open s f) m = ground arith

drop_own :
    (h : RouteHealthRuntime) (t : Target) (p : ℕ) (half : Bool) (k : ℕ)
    → probe_count half + k ≡ in_flight_of (entry_or_default h t p).phase
    → k ≡ in_flight_of (entry_or_default (drop_permit h (issued t p half)) t p).phase
unfolding drop_permit
drop_own h t p true k n = release_own h t p (h t p) k refl n
drop_own h t p false k n = unfold probe_count in omega (arith, n)

grant_own :
    (t : Target) (p now k : ℕ) (half : Bool) (phase : CircuitPhase)
    → permit_for t p (admit_phase phase now).1 ≡ some (issued t p half)
    → k ≡ in_flight_of phase
    → probe_count half + k ≡ in_flight_of (admit_phase phase now).0
unfolding admit_phase permit_for probe_count
grant_own t p now k half closed g n = ground arith
grant_own t p now k half (opened since) g n = ground arith
grant_own t p now k half (half_open s f) g n = ground arith

refuse_own :
    (t : Target) (p now k : ℕ) (phase : CircuitPhase)
    → permit_for t p (admit_phase phase now).1 ≡ none
    → k ≡ in_flight_of phase
    → k ≡ in_flight_of (admit_phase phase now).0
unfolding admit_phase permit_for
refuse_own t p now k closed g n = ground arith
refuse_own t p now k (opened since) g n = ground arith
refuse_own t p now k (half_open s f) g n = ground arith

grant-AllSole :
    (h : RouteHealthRuntime) (held : List RouteAttemptPermit) (t : Target) (p now : ℕ) (half : Bool)
    → (admit h t p now).1 ≡ some (issued t p half)
    → AllSole h held
    → AllSole (admit h t p now).0 (issued t p half ∷ held)
grant-AllSole h held t p now half g all =
    let touched = (admit h t p now).0 in
    by_key (Sole touched (issued t p half ∷ held)) t p
      (probes-issued_self t p half held
        ∙ grant_own t p now _ half _ (sym (admit-permit h t p now) ∙ g) (all t p)
        ∙ ap (λ c. in_flight_of c.phase) (sym (entry-admit h t p now)))
      λ u q d.
        Sole-apart h touched held (issued t p half ∷ held) u q (admit-Apart h t p now u q d)
          (probes-issued-Apart t p half u q held d) (all u q)

refuse-AllSole :
    (h : RouteHealthRuntime) (held : List RouteAttemptPermit) (t : Target) (p now : ℕ)
    → (admit h t p now).1 ≡ none
    → AllSole h held
    → AllSole (admit h t p now).0 held
refuse-AllSole h held t p now g all =
    let touched = (admit h t p now).0 in
    by_key (Sole touched held) t p
      (refuse_own t p now _ _ (sym (admit-permit h t p now) ∙ g) (all t p)
        ∙ ap (λ c. in_flight_of c.phase) (sym (entry-admit h t p now)))
      λ u q d. Sole-apart h touched held held u q (admit-Apart h t p now u q d) refl (all u q)

abbrev WorldSole : World → Type 0
WorldSole w = AllSole w.health w.held

Step-WorldSole : {w w' : World} → Step w w' → WorldSole w → WorldSole w'
Step-WorldSole {w} (granted t p now half g e) all =
    subst WorldSole (sym e) (grant-AllSole w.health w.held t p now half g all)
Step-WorldSole {w} (refused t p now g e) all =
    subst WorldSole (sym e) (refuse-AllSole w.health w.held t p now g all)
Step-WorldSole {w} (succeeded before after t p half l fresh e) all = subst WorldSole (sym e) (
    consume-AllSole w.health _ before after t p half
      (λ u q d.
        ap (λ h. h u q) (permit_success-store w.health (issued t p half))
        ∙ store-Apart w.health t p _ u q d)
      (λ k n.
        success_own _ _ half k refl fresh n
        ∙ ap (λ c. in_flight_of c.phase) (sym (entry-permit_success w.health (issued t p half))))
      (subst (AllSole w.health) l all))
Step-WorldSole {w} (failed before after t p half now outcome l fresh e) all =
    subst WorldSole (sym e) (
      consume-AllSole w.health _ before after t p half
        (λ u q d.
          ap (λ h. h u q) (permit_failure-store w.health (issued t p half) now outcome)
          ∙ store-Apart w.health t p _ u q d)
        (λ k n.
          failure_own _ _ half k now refl fresh n
          ∙ ap (λ c. in_flight_of c.phase)
              (sym (entry-permit_failure w.health (issued t p half) now outcome)))
        (subst (AllSole w.health) l all))
Step-WorldSole {w} (dropped before after t p half l e) all = subst WorldSole (sym e) (
    consume-AllSole w.health _ before after t p half
      (λ u q d. drop_permit-Apart w.health (issued t p half) u q d)
      (λ k n. drop_own w.health t p half k n) (subst (AllSole w.health) l all))

Reach-WorldSole : {w w' : World} → Reach w w' → WorldSole w → WorldSole w'
Reach-WorldSole here all = all
Reach-WorldSole (next r s) all = Step-WorldSole s (Reach-WorldSole r all)

in_flight_of-le : (phase : CircuitPhase) → in_flight_of phase ≤ 1
in_flight_of-le closed = omega arith
in_flight_of-le (opened since) = omega arith
in_flight_of-le (half_open s f) = ground arith

abbrev pub idle_world : World
idle_world = record { health = default_runtime; held = [] }

-- However the attempts of concurrent requests interleave from the start, at most one probe of a
-- circuit is under way, provided that no ordinary permit is completed while its circuit is
-- half-open.
pub Reach-one_probe : {w : World} (t : Target) (p : ℕ) → Reach idle_world w → probes t p w.held ≤ 1
Reach-one_probe {w} t p r = omega (
  arith,
  Reach-WorldSole r (λ u q. refl) t p,
  in_flight_of-le (entry_or_default w.health t p).phase,
)

-- Without the proviso this fails. Whenever an ordinary permit is still held while the one probe of
-- its circuit is under way, its success makes the circuit grant a second probe, at any time, and
-- then two are under way.
pub stale_success-two_probes :
    (w : World) (before after : List RouteAttemptPermit) (t : Target) (p now : ℕ)
    → w.held ≡ before ++ issued t p false ∷ after
    → (entry_or_default w.health t p).phase ≡ half_open 0 true
    → probes t p w.held ≡ 1
    → ((admit (permit_success w.health (issued t p false)).0 t p now).1 ≡ some (issued t p true))
      × (probes t p (issued t p true ∷ (before ++ after)) ≡ 2)
unfolding success_phase admit_phase permit_for probe_count
stale_success-two_probes w before after t p now l e one = (
  (admit_result (permit_success w.health (issued t p false)).0 t p now
      (success_result w.health t p false e).1).0,
  omega (
    arith,
    ap (probes t p) l,
    probes-append t p before after,
    probes-append t p before (issued t p false ∷ after),
    probes-issued_self t p false after,
    probes-issued_self t p true (before ++ after),
  ),
)
