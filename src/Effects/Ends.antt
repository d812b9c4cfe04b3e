-- ===== src/Effects/Ends.antt =====
-- Reasoning about the actions of Effects: what holds of every end of a run, whatever the
-- environment decides.
use muxvia.Prelude.{Option, none, some, List, [], ◌∷◌}
use muxvia.Effects.{
  Result, ok, err, Fault, works, fails, late, crash, Run, returned, stopped, Action, call, transact,
  ◌>>=◌, ◌>>◌, or_raise, attempt, failing,
}

-- A run that returns does so with a result and a `D` of `Q`; one that stops leaves a `D` of `S`.
module _ {D E A : Type 0} (Q : Result E A → D → Type 0) (S : D → Type 0) where
  pub data Ends : Run D E A → Type 0 where
    ends : {r : Result E A} {faults : List Fault} {d : D} → Q r d → Ends (returned r faults d)
    stops : {d : D} → S d → Ends (stopped d)

module _ {D E : Type 0} (S : D → Type 0) where
  -- What must hold after the first part of a bind, of a `map_err`, of an `attempt` and of a
  -- `failing`.
  unfoldable pub Then :
      {A B : Type 0} → (A → Action D E B) → (Result E B → D → Type 0) → Result E A → D → Type 0
  Then f Q (ok a) d = (faults : List Fault) → Ends Q S (f a faults d)
  Then f Q (err e) d = Q (err e) d

  pub bind-Ends :
      {A B : Type 0} (m : Action D E A) (f : A → Action D E B) (Q : Result E B → D → Type 0)
      (faults : List Fault) (d : D)
      → Ends (Then f Q) S (m faults d)
      → Ends Q S ((m >>= f) faults d)
  unfolding ◌>>=◌ Then
  bind-Ends m f Q faults d h = go (m faults d) h
    where
      go :
          (run : Run D E _)
          → Ends (Then f Q) S run
          → Ends Q S (elim run [
            | returned (ok a) rest d' ↦ f a rest d'
            | returned (err e) rest d' ↦ returned (err e) rest d'
            | stopped d' ↦ stopped d'
          ])
      go (returned (ok a) rest d') (ends q) = q rest
      go (returned (err e) rest d') (ends q) = ends q
      go (stopped d') (stops s) = stops s

  pub seq-Ends :
      {A B : Type 0} (m : Action D E A) (k : Action D E B) (Q : Result E B → D → Type 0)
      (faults : List Fault) (d : D)
      → Ends (Then (λ _. k) Q) S (m faults d)
      → Ends Q S ((m >> k) faults d)
  unfolding ◌>>◌
  seq-Ends m k Q faults d h = bind-Ends m (λ _. k) Q faults d h

module _ {D : Type 0} (S : D → Type 0) where
  unfoldable pub Raising :
      {E F A : Type 0} → F → (Result F A → D → Type 0) → Result E A → D → Type 0
  Raising failure Q (ok a) d = Q (ok a) d
  Raising failure Q (err e) d = Q (err failure) d

  pub or_raise-Ends :
      {E F A : Type 0} (m : Action D E A) (failure : F) (Q : Result F A → D → Type 0)
      (faults : List Fault) (d : D)
      → Ends (Raising failure Q) S (m faults d)
      → Ends Q S (or_raise m failure faults d)
  unfolding or_raise Raising
  or_raise-Ends {E = E} {F = F} {A = A} m failure Q faults d h = go (m faults d) h
    where
      go :
          (run : Run D E A)
          → Ends (Raising failure Q) S run
          → Ends Q S (elim run [
            | returned (ok a) rest d' ↦ returned (ok a) rest d'
            | returned (err e) rest d' ↦ returned (err failure) rest d'
            | stopped d' ↦ stopped d'
          ])
      go (returned (ok a) rest d') (ends q) = ends q
      go (returned (err e) rest d') (ends q) = ends q
      go (stopped d') (stops s) = stops s

  unfoldable pub Attempted :
      {E F A : Type 0} → (Result F (Option A) → D → Type 0) → Result E A → D → Type 0
  Attempted Q (ok a) d = Q (ok (some a)) d
  Attempted Q (err e) d = Q (ok none) d

  pub attempt-Ends :
      {E F A : Type 0} (m : Action D E A) (Q : Result F (Option A) → D → Type 0)
      (faults : List Fault) (d : D)
      → Ends (Attempted Q) S (m faults d)
      → Ends Q S (attempt m faults d)
  unfolding attempt Attempted
  attempt-Ends {E = E} {F = F} {A = A} m Q faults d h = go (m faults d) h
    where
      go :
          (run : Run D E A)
          → Ends (Attempted Q) S run
          → Ends Q S (elim run [
            | returned (ok a) rest d' ↦ returned (ok (some a)) rest d'
            | returned (err e) rest d' ↦ returned (ok none) rest d'
            | stopped d' ↦ stopped d'
          ])
      go (returned (ok a) rest d') (ends q) = ends q
      go (returned (err e) rest d') (ends q) = ends q
      go (stopped d') (stops s) = stops s

  unfoldable pub Failing : {E A : Type 0} → (Result E A → D → Type 0) → Result E E → D → Type 0
  Failing Q (ok e) d = Q (err e) d
  Failing Q (err e) d = Q (err e) d

  pub failing-Ends :
      {E A : Type 0} (m : Action D E E) (Q : Result E A → D → Type 0) (faults : List Fault) (d : D)
      → Ends (Failing Q) S (m faults d)
      → Ends Q S (failing m faults d)
  unfolding failing Failing
  failing-Ends {E = E} {A = A} m Q faults d h = go (m faults d) h
    where
      go :
          (run : Run D E E)
          → Ends (Failing Q) S run
          → Ends Q S (elim run [
            | returned (ok e) rest d' ↦ returned (err e) rest d'
            | returned (err e) rest d' ↦ returned (err e) rest d'
            | stopped d' ↦ stopped d'
          ])
      go (returned (ok a) rest d') (ends q) = ends q
      go (returned (err e) rest d') (ends q) = ends q
      go (stopped d') (stops s) = stops s

  -- A call works, fails without an effect, or fails after it; the process may stop before it.
  pub call-Ends :
      {E A : Type 0} (e : E) (op : D → Result E A × D) (Q : Result E A → D → Type 0)
      (faults : List Fault) (d : D)
      → Q (op d).0 (op d).1
      → Q (err e) d
      → Q (err e) (op d).1
      → S d
      → Ends Q S (call e op faults d)
  unfolding call
  call-Ends e op Q [] d done failed after s = ends done
  call-Ends e op Q (works ∷ faults) d done failed after s = ends done
  call-Ends e op Q (fails ∷ faults) d done failed after s = ends failed
  call-Ends e op Q (late ∷ faults) d done failed after s = ends after
  call-Ends e op Q (crash ∷ faults) d done failed after s = stops s

  pub transact-Ends :
      {E A : Type 0} (e : E) (op : D → Result E A × D) (Q : Result E A → D → Type 0)
      (faults : List Fault) (d : D)
      → Q (op d).0 (op d).1
      → Q (err e) d
      → S d
      → Ends Q S (transact e op faults d)
  unfolding transact call
  transact-Ends e op Q [] d done failed s = ends done
  transact-Ends e op Q (works ∷ faults) d done failed s = ends done
  transact-Ends e op Q (fails ∷ faults) d done failed s = ends failed
  transact-Ends e op Q (late ∷ faults) d done failed s = ends failed
  transact-Ends e op Q (crash ∷ faults) d done failed s = stops s
