-- ===== src/Health/Interleaving.antt =====
-- Attempts of concurrent requests as interleaved steps, and the probes among the permits that they
-- hold.
use muxvia.Prelude.{
  ℕ, ◌+◌, ◌≡◌, Bool, false, ◌&&◌, none, some, List, [], ◌∷◌, ◌++◌, arith, inl, inr, ◌==◌,
  if◌then◌else◌,
}
use muxvia.Domain.{Target, target_eq}
use muxvia.Health.{
  RouteHealthRuntime, RouteHealthOutcome, RouteAttemptPermit, CircuitPhase, closed, opened,
  half_open, admit, entry_or_default, permit_success, permit_failure, drop_permit,
}
use muxvia.Health.Store.{Apart, target_eq_refl, target_eq-eq}
use muxvia.Health.Opening.{issued, IsHalfOpen}

-- The runtime and the permits that are held.
pub record World : Type 0 where
  pub health : RouteHealthRuntime
  pub held : List RouteAttemptPermit

-- An ordinary permit, issued before the circuit opened, that is used after it became half-open.
abbrev pub IsStale : RouteHealthRuntime → Target → ℕ → Bool → Type 0
IsStale health t p half = (half ≡ false) × IsHalfOpen (entry_or_default health t p).phase

pub data Step (w w' : World) : Type 0 where
  granted :
      (t : Target) (p now : ℕ) (half : Bool)
      → (admit w.health t p now).1 ≡ some (issued t p half)
      → w' ≡ record { health = (admit w.health t p now).0; held = issued t p half ∷ w.held }
      → Step w w'
  refused :
      (t : Target) (p now : ℕ)
      → (admit w.health t p now).1 ≡ none
      → w' ≡ record { health = (admit w.health t p now).0; held = w.held }
      → Step w w'
  succeeded :
      (before after : List RouteAttemptPermit) (t : Target) (p : ℕ) (half : Bool)
      → w.held ≡ before ++ issued t p half ∷ after
      → ¬ IsStale w.health t p half
      → w'
        ≡ record { health = (permit_success w.health (issued t p half)).0; held = before ++ after }
      → Step w w'
  failed :
      (before after : List RouteAttemptPermit) (t : Target) (p : ℕ) (half : Bool) (now : ℕ)
      (outcome : RouteHealthOutcome)
      → w.held ≡ before ++ issued t p half ∷ after
      → ¬ IsStale w.health t p half
      → w' ≡ record {
        health = (permit_failure w.health (issued t p half) now outcome).0;
        held = before ++ after;
      }
      → Step w w'
  dropped :
      (before after : List RouteAttemptPermit) (t : Target) (p : ℕ) (half : Bool)
      → w.held ≡ before ++ issued t p half ∷ after
      → w' ≡ record { health = drop_permit w.health (issued t p half); held = before ++ after }
      → Step w w'

pub data Reach (w : World) : World → Type 0 where
  here : Reach w w
  next : {u v : World} → Reach w u → Step u v → Reach w v

-- How many held permits are probes of the circuit of `t` and `p`.
abbrev pub is_probe : Target → ℕ → RouteAttemptPermit → Bool
is_probe t p permit = permit.half_open && (target_eq permit.target t && permit.provider_id == p)

abbrev pub probes : Target → ℕ → List RouteAttemptPermit → ℕ
probes t p [] = 0
probes t p (x ∷ xs) = (if is_probe t p x then 1 else 0) + probes t p xs

pub probes-append :
    (t : Target) (p : ℕ) (xs ys : List RouteAttemptPermit)
    → probes t p (xs ++ ys) ≡ probes t p xs + probes t p ys
probes-append t p [] ys = omega arith
probes-append t p (x ∷ xs) ys = omega (arith, probes-append t p xs ys)

-- The probes that a phase says are under way.
abbrev pub in_flight_of : CircuitPhase → ℕ
in_flight_of closed = 0
in_flight_of (opened since) = 0
in_flight_of (half_open successes in_flight) = if in_flight then 1 else 0

unfoldable pub probe_count : Bool → ℕ
probe_count half = if half then 1 else 0

pub probes-issued_self :
    (t : Target) (p : ℕ) (half : Bool) (xs : List RouteAttemptPermit)
    → probes t p (issued t p half ∷ xs) ≡ probe_count half + probes t p xs
unfolding probe_count
probes-issued_self t p half xs = ground (arith, target_eq_refl t)

pub probes-issued-Apart :
    (t : Target) (p : ℕ) (half : Bool) (u : Target) (q : ℕ) (xs : List RouteAttemptPermit)
    → Apart t p u q
    → probes u q (issued t p half ∷ xs) ≡ probes u q xs
probes-issued-Apart t p half u q xs (inl d) = ground (arith, target_eq-eq t u)
probes-issued-Apart t p half u q xs (inr d) = ground arith

abbrev pub Sole : RouteHealthRuntime → List RouteAttemptPermit → Target → ℕ → Type 0
Sole h held t p = probes t p held ≡ in_flight_of (entry_or_default h t p).phase

abbrev pub AllSole : RouteHealthRuntime → List RouteAttemptPermit → Type 0
AllSole h held = (t : Target) (p : ℕ) → Sole h held t p
