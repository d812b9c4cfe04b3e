-- ===== src/Effects.antt =====
-- Fallible calls whose outcome the environment decides, and a process that may stop before any of
-- them: the async functions of the routing service that write files and the state store.
pub mod Ends
pub mod Works
use muxvia.Prelude.{Bool, true, false, Option, none, some, List, [], ◌∷◌}

pub data Result {ℓ} (E A : Type ℓ) : Type ℓ where
  ok : A → Result E A
  err : E → Result E A

-- What happens to one call: it works, fails without an effect, takes effect but reports an error,
-- or the process stops before it.
pub data Fault : Type 0 where
  works fails late crash : Fault

-- `D` is what outlives the process.
pub data Run (D E A : Type 0) : Type 0 where
  returned : Result E A → List Fault → D → Run D E A
  stopped : D → Run D E A

abbrev pub Action : Type 0 → Type 0 → Type 0 → Type 0
Action D E A = List Fault → D → Run D E A

module _ {D E A : Type 0} where
  abbrev pub pure : A → Action D E A
  pure a faults d = returned (ok a) faults d

  abbrev pub raise : E → Action D E A
  raise e faults d = returned (err e) faults d

  abbrev pub hand : List Fault → Result E A × D → Run D E A
  hand faults (r, d) = returned r faults d

  abbrev pub hand_late : E → List Fault → Result E A × D → Run D E A
  hand_late e faults (r, d) = returned (err e) faults d

  -- A call with the error that it reports if it fails.
  unfoldable pub call : E → (D → Result E A × D) → Action D E A
  call e op [] d = hand [] (op d)
  call e op (works ∷ faults) d = hand faults (op d)
  call e op (fails ∷ faults) d = returned (err e) faults d
  call e op (late ∷ faults) d = hand_late e faults (op d)
  call e op (crash ∷ faults) d = stopped d

  -- A call that only reads, or a transaction: an error that it reports leaves no effect.
  unfoldable pub transact : E → (D → Result E A × D) → Action D E A
  unfolding call
  transact e op (late ∷ faults) d = returned (err e) faults d
  transact e op faults d = call e op faults d

infixl 5 ◌>>=◌ ◌>>◌
unfoldable pub ◌>>=◌ : {D E A B : Type 0} → Action D E A → (A → Action D E B) → Action D E B
◌>>=◌ m f faults d = elim (m faults d) [
  | returned (ok a) rest d' ↦ f a rest d'
  | returned (err e) rest d' ↦ returned (err e) rest d'
  | stopped d' ↦ stopped d'
]

unfoldable pub ◌>>◌ : {D E A B : Type 0} → Action D E A → Action D E B → Action D E B
unfolding ◌>>=◌
m >> k = m >>= λ _. k

-- `map_err(|_| failure)`, where the failure ignores the error.
unfoldable pub or_raise : {D E F A : Type 0} → Action D E A → F → Action D F A
or_raise m failure faults d = elim (m faults d) [
  | returned (ok a) rest d' ↦ returned (ok a) rest d'
  | returned (err e) rest d' ↦ returned (err failure) rest d'
  | stopped d' ↦ stopped d'
]

-- A match on the result of a call; the error is forgotten, as `.ok()` does.
unfoldable pub attempt : {D E F A : Type 0} → Action D E A → Action D F (Option A)
attempt m faults d = elim (m faults d) [
  | returned (ok a) rest d' ↦ returned (ok (some a)) rest d'
  | returned (err e) rest d' ↦ returned (ok none) rest d'
  | stopped d' ↦ stopped d'
]

-- `match result { Ok(failure) | Err(failure) => Err(failure) }`
unfoldable pub failing : {D E A : Type 0} → Action D E E → Action D E A
failing m faults d = elim (m faults d) [
  | returned (ok e) rest d' ↦ returned (err e) rest d'
  | returned (err e) rest d' ↦ returned (err e) rest d'
  | stopped d' ↦ stopped d'
]
