-- ===== src/Health/Store.antt =====
-- Reading the store of circuits after an operation, and what the operations leave alone.
use muxvia.Prelude.{
  ℕ, ◌≡◌, ◌≢◌, refl, ◌∙◌, ap, true, not, ◌||◌, Option, none, some, arith, ◌⊎◌, inl, inr, Bool-cases,
}
use muxvia.Domain.{Target, codex, claude, target_eq}
use muxvia.Health.{
  RouteHealthRuntime, RouteHealthOutcome, RouteAttemptPermit, Circuit, store, admit, permit_for,
  admit_phase, entry_or_default, or_default, release_circuit, drop_permit, permit_success,
  permit_failure, success_circuit, failure_circuit,
}

pub target_eq_refl : (t : Target) → target_eq t t ≡ true
unfolding target_eq
target_eq_refl codex = refl
target_eq_refl claude = refl

pub target_eq-eq : (t u : Target) → target_eq t u ≡ true → t ≡ u
unfolding target_eq
target_eq-eq t u e = ground arith

-- What was written is read back.
pub store_self :
    (health : RouteHealthRuntime) (t : Target) (p : ℕ) (c : Circuit)
    → store health t p c t p ≡ some c
unfolding store
store_self health t p c = ground (arith, target_eq_refl t)

pub entry-store :
    (health : RouteHealthRuntime) (t : Target) (p : ℕ) (c : Circuit)
    → entry_or_default (store health t p c) t p ≡ c
entry-store health t p c = ap or_default (store_self health t p c)

-- `(t , p)` and `(u , q)` are the keys of different circuits.
abbrev pub Apart : Target → ℕ → Target → ℕ → Type 0
Apart t p u q = (t ≢ u) ⊎ (p ≢ q)

pub Key-cases : (t : Target) (p : ℕ) (u : Target) (q : ℕ) → ((t ≡ u) × (p ≡ q)) ⊎ Apart t p u q
Key-cases codex p codex q = ground arith
Key-cases codex p claude q = ground arith
Key-cases claude p codex q = ground arith
Key-cases claude p claude q = ground arith

pub store-Apart :
    (health : RouteHealthRuntime) (t : Target) (p : ℕ) (c : Circuit) (u : Target) (q : ℕ)
    → Apart t p u q
    → store health t p c u q ≡ health u q
unfolding store
store-Apart health t p c u q (inl d) = ground (arith, target_eq-eq t u)
store-Apart health t p c u q (inr d) = ground arith

module _ (health : RouteHealthRuntime) where
  release_circuit-Apart :
      (t : Target) (p : ℕ) (found : Option Circuit) (u : Target) (q : ℕ)
      → Apart t p u q
      → release_circuit health t p found u q ≡ health u q
  unfolding release_circuit
  release_circuit-Apart t p none u q d = refl
  release_circuit-Apart t p (some c) u q d = store-Apart health t p _ u q d

  pub drop_permit-Apart :
      (permit : RouteAttemptPermit) (u : Target) (q : ℕ)
      → Apart permit.target permit.provider_id u q
      → drop_permit health permit u q ≡ health u q
  unfolding drop_permit
  drop_permit-Apart permit u q d = elim (Bool-cases (not permit.half_open || permit.completed)) [
    | inl e ↦ rw (e, drop_permit) refl
    | inr e ↦ rw (e, drop_permit) (release_circuit-Apart permit.target permit.provider_id _ u q d)
  ]

  pub drop_completed :
      (permit : RouteAttemptPermit) → permit.completed ≡ true → drop_permit health permit ≡ health
  unfolding drop_permit
  drop_completed permit e = ground arith

  pub admit-Apart :
      (t : Target) (p now : ℕ) (u : Target) (q : ℕ)
      → Apart t p u q
      → (admit health t p now).0 u q ≡ health u q
  unfolding admit
  admit-Apart t p now u q d = store-Apart health t p _ u q d

  pub admit-permit :
      (t : Target) (p now : ℕ)
      → (admit health t p now).1
        ≡ permit_for t p (admit_phase (entry_or_default health t p).phase now).1
  unfolding admit
  admit-permit t p now = refl

  pub entry-admit :
      (t : Target) (p now : ℕ)
      → entry_or_default (admit health t p now).0 t p ≡ record (entry_or_default health t p) {
        phase = (admit_phase (entry_or_default health t p).phase now).0;
      }
  unfolding admit
  entry-admit t p now = entry-store health t p _

-- A permit that is consumed changes the circuit of its own key.
module _ (health : RouteHealthRuntime) (permit : RouteAttemptPermit) where
  pub permit_success-store :
      (permit_success health permit).0
      ≡ store health permit.target permit.provider_id
          (success_circuit (entry_or_default health permit.target permit.provider_id))
  unfolding permit_success
  permit_success-store = drop_completed _ (record permit { completed = true }) refl

  pub permit_failure-store :
      (now : ℕ) (outcome : RouteHealthOutcome)
      → (permit_failure health permit now outcome).0
        ≡ store health permit.target permit.provider_id
            (failure_circuit (entry_or_default health permit.target permit.provider_id) now)
  unfolding permit_failure
  permit_failure-store now outcome = drop_completed _ (record permit { completed = true }) refl

  pub entry-permit_success :
      entry_or_default (permit_success health permit).0 permit.target permit.provider_id
      ≡ success_circuit (entry_or_default health permit.target permit.provider_id)
  entry-permit_success =
      ap (λ h. entry_or_default h permit.target permit.provider_id) permit_success-store
      ∙ entry-store health permit.target permit.provider_id _

  pub entry-permit_failure :
      (now : ℕ) (outcome : RouteHealthOutcome)
      → entry_or_default
          (permit_failure health permit now outcome).0
          permit.target
          permit.provider_id
        ≡ failure_circuit (entry_or_default health permit.target permit.provider_id) now
  entry-permit_failure now outcome =
      ap (λ h. entry_or_default h permit.target permit.provider_id)
        (permit_failure-store now outcome)
      ∙ entry-store health permit.target permit.provider_id _
