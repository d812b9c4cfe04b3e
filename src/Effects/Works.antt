-- ===== src/Effects/Works.antt =====
-- The steps of the actions of Effects whose calls work.
use muxvia.Prelude.{◌≡◌, ap, Option, none, some, List}
use muxvia.Effects.{ok, err, Fault, Run, returned, stopped, Action, ◌>>=◌, ◌>>◌, or_raise, attempt}

module _ {D E A : Type 0} where
  pub bind_works :
      {B : Type 0} (m : Action D E A) (f : A → Action D E B) (faults rest : List Fault) (d d' : D)
      (a : A)
      → m faults d ≡ returned (ok a) rest d'
      → (m >>= f) faults d ≡ f a rest d'
  unfolding ◌>>=◌
  bind_works {B = B} m f faults rest d d' a e = ap go e
    where
      go : Run D E A → Run D E B
      go run = elim run [
        | returned (ok a) rest d' ↦ f a rest d'
        | returned (err e) rest d' ↦ returned (err e) rest d'
        | stopped d' ↦ stopped d'
      ]

  pub seq_works :
      {B : Type 0} (m : Action D E A) (k : Action D E B) (faults rest : List Fault) (d d' : D)
      (a : A)
      → m faults d ≡ returned (ok a) rest d'
      → (m >> k) faults d ≡ k rest d'
  unfolding ◌>>◌
  seq_works m k faults rest d d' a e = bind_works m (λ _. k) faults rest d d' a e

  pub or_raise_works :
      {F : Type 0} (m : Action D E A) (failure : F) (faults rest : List Fault) (d d' : D) (a : A)
      → m faults d ≡ returned (ok a) rest d'
      → or_raise m failure faults d ≡ returned (ok a) rest d'
  unfolding or_raise
  or_raise_works {F = F} m failure faults rest d d' a e = ap go e
    where
      go : Run D E A → Run D F A
      go run = elim run [
        | returned (ok a) rest d' ↦ returned (ok a) rest d'
        | returned (err e) rest d' ↦ returned (err failure) rest d'
        | stopped d' ↦ stopped d'
      ]

  pub attempt_works :
      {F : Type 0} (m : Action D E A) (faults rest : List Fault) (d d' : D) (a : A)
      → m faults d ≡ returned (ok a) rest d'
      → attempt {F = F} m faults d ≡ returned (ok (some a)) rest d'
  unfolding attempt
  attempt_works {F = F} m faults rest d d' a e = ap go e
    where
      go : Run D E A → Run D F (Option A)
      go run = elim run [
        | returned (ok a) rest d' ↦ returned (ok (some a)) rest d'
        | returned (err e) rest d' ↦ returned (ok none) rest d'
        | stopped d' ↦ stopped d'
      ]
