-- ===== src/Prelude/Maps.antt =====
-- `BTreeMap<String, V>`: the pairs in the order of their keys, strings ordered by their bytes.
use Prim.Native.Nat.{compare, Ordering}
use mathlib.Core.Path.{◌≡◌, refl}
use mathlib.Core.Logic.{ite, inl, inr}
use mathlib.Core.Bool.{Bool, true, false, ◌&&◌}
use mathlib.Core.Option.{Option, none, some}
use mathlib.Core.List.{List, [], ◌∷◌}
use native.Mathlib.Omega.{arith}
use muxvia.Prelude.Tests.{if◌then◌else◌, Bool-cases}
use muxvia.Prelude.Lists.{Bytes, bytes_eq, bytes_eq_iff}

-- The decision of an equality as a test.
abbrev pub same {ℓ} : {A : Type ℓ} → Discrete A → A → A → Bool
same dec a b = ite (dec a b) true false

pub same_self {ℓ} : {A : Type ℓ} (dec : Discrete A) (a : A) → same dec a a ≡ true
same_self dec a = go (dec a a)
  where
    go : (e : Dec (a ≡ a)) → ite e true false ≡ true
    go (yes e) = refl
    go (no n) = absurd (n refl)

pub same→eq {ℓ} : {A : Type ℓ} (dec : Discrete A) (a b : A) → same dec a b ≡ true → a ≡ b
same→eq dec a b h = elim (dec a b) [ yes e ↦ e | no n ↦ ground arith ]

unfoldable pub bytes_lt : Bytes → Bytes → Bool
bytes_lt [] [] = false
bytes_lt [] (y ∷ ys) = true
bytes_lt (x ∷ xs) [] = false
bytes_lt (x ∷ xs) (y ∷ ys) = elim (compare x y) [
  | Ordering.lt ↦ true
  | Ordering.eq ↦ bytes_lt xs ys
  | Ordering.gt ↦ false
]

abbrev pub Map {ℓ} : Type ℓ → Type ℓ
Map V = List (Bytes × V)

module _ {ℓ} {V : Type ℓ} where
  unfoldable pub get : Bytes → Map V → Option V
  get k [] = none
  get k ((j, v) ∷ m) = if bytes_eq k j then some v else get k m

  unfoldable pub contains_key : Bytes → Map V → Bool
  contains_key k [] = false
  contains_key k ((j, v) ∷ m) = if bytes_eq k j then true else contains_key k m

  unfoldable pub insert : Bytes → V → Map V → Map V
  insert k v [] = (k, v) ∷ []
  insert k v ((j, w) ∷ m) =
      if bytes_eq k j
      then (k, v) ∷ m
      else (if bytes_lt k j then (k, v) ∷ (j, w) ∷ m else (j, w) ∷ insert k v m)

  unfoldable pub remove : Bytes → Map V → Map V
  remove k [] = []
  remove k ((j, w) ∷ m) = if bytes_eq k j then m else (j, w) ∷ remove k m

  unfoldable pub every : (Bytes → V → Bool) → Map V → Bool
  every p [] = true
  every p ((k, v) ∷ m) = p k v && every p m

  -- A key that is inserted is bound to its value.
  pub get-insert : (k : Bytes) (v : V) (m : Map V) → get k (insert k v m) ≡ some v
  unfolding get insert
  get-insert k v [] = ground (arith, (bytes_eq_iff k k))
  get-insert k v ((j, w) ∷ m) =
      ground (arith, (bytes_eq_iff k k), (bytes_eq_iff k j), get-insert k v m)

  -- Membership after an insertion.
  pub contains_key-insert :
      (i k : Bytes) (v : V) (m : Map V)
      → contains_key i m ≡ true
      → contains_key i (insert k v m) ≡ true
  unfolding contains_key insert
  contains_key-insert i k v [] h = ground arith
  contains_key-insert i k v ((j, w) ∷ m) h = ground (
    arith,
    (bytes_eq_iff i k),
    (bytes_eq_iff i j),
    (bytes_eq_iff k j),
    contains_key-insert i k v m,
  )

  pub contains_key-get :
      (k : Bytes) (m : Map V) (v : V) → get k m ≡ some v → contains_key k m ≡ true
  unfolding contains_key get
  contains_key-get k [] v h = ground arith
  contains_key-get k ((j, w) ∷ m) v h = ground (arith, contains_key-get k m v)

  pub every-insert :
      (p : Bytes → V → Bool) (k : Bytes) (v : V) (m : Map V)
      → p k v ≡ true
      → every p m ≡ true
      → every p (insert k v m) ≡ true
  unfolding every insert
  every-insert p k v [] h e = ground arith
  every-insert p k v ((j, w) ∷ m) h e = ground (arith, every-insert p k v m)

  pub every-remove :
      (p : Bytes → V → Bool) (k : Bytes) (m : Map V)
      → every p m ≡ true
      → every p (remove k m) ≡ true
  unfolding every remove
  every-remove p k [] e = refl
  every-remove p k ((j, w) ∷ m) e = ground (arith, every-remove p k m)

  pub every-get :
      (p : Bytes → V → Bool) (k : Bytes) (m : Map V) (v : V)
      → every p m ≡ true
      → get k m ≡ some v
      → p k v ≡ true
  unfolding every get
  every-get p k [] v e h = ground arith
  every-get p k ((j, w) ∷ m) v e h = elim (Bool-cases (bytes_eq k j)) [
    | inl q ↦ grind (arith, bytes_eq_iff k j)
    | inr q ↦ ground (arith, every-get p k m v)
  ]

  -- A key that is not removed stays.
  pub contains_key-remove :
      (i k : Bytes) (m : Map V)
      → contains_key i m ≡ true
      → bytes_eq i k ≡ false
      → contains_key i (remove k m) ≡ true
  unfolding contains_key remove
  contains_key-remove i k [] h e = h
  contains_key-remove i k ((j, w) ∷ m) h e = elim (Bool-cases (bytes_eq k j)) [
    | inl q ↦ grind (arith, bytes_eq_iff k j)
    | inr q ↦ ground (arith, contains_key-remove i k m)
  ]
