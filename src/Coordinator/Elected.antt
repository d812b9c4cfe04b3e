-- ===== src/Coordinator/Elected.antt =====
-- The account that `apply` makes the default after a deletion,
-- crates/routing-service/src/subscription/coordinator.rs.
use muxvia.Prelude.{
  ◌≡◌, refl, ap, sym, subst, ◌⊎◌, inl, inr, Bool, true, false, not, none, some, [], ◌∷◌, arith,
  bytes_lt, ◌<◌, bytes_eq_iff, Map, remove, every, Bool-cases, and_parts, if◌then◌else◌,
}
use mathlib.Core.List.{Memᴰ}
use muxvia.Text.{Text}
use muxvia.Accounts.{ℤ, pos, negsuc, ltz, SubscriptionAccountRecord, SubscriptionAccountDocument}
use muxvia.Coordinator.Changes.{delete_account_from, is_default, elect, elect_from, comes_before}

ltz_trans : (a b c : ℤ) → ltz a b ≡ true → ltz b c ≡ true → ltz a c ≡ true
unfolding ltz
ltz_trans (pos a) (pos b) (pos c) h k = ground arith
ltz_trans (pos a) (pos b) (negsuc c) h k = ground arith
ltz_trans (pos a) (negsuc b) c h k = ground arith
ltz_trans (negsuc a) (pos b) (pos c) h k = ground arith
ltz_trans (negsuc a) (pos b) (negsuc c) h k = ground arith
ltz_trans (negsuc a) (negsuc b) (pos c) h k = ground arith
ltz_trans (negsuc a) (negsuc b) (negsuc c) h k = ground arith

bytes_lt_trans : (a b c : Text) → bytes_lt a b ≡ true → bytes_lt b c ≡ true → bytes_lt a c ≡ true
unfolding bytes_lt
bytes_lt_trans (x ∷ a) (y ∷ b) (z ∷ c) h k = ground (arith, bytes_lt_trans a b c)
bytes_lt_trans [] (y ∷ b) (z ∷ c) h k = ground arith
bytes_lt_trans _ _ _ h k = ground arith

ltz_irrefl : (a : ℤ) → ltz a a ≡ false
unfolding ltz
ltz_irrefl (pos a) = ground arith
ltz_irrefl (negsuc a) = ground arith

bytes_lt_irrefl : (a : Text) → bytes_lt a a ≡ false
unfolding bytes_lt
bytes_lt_irrefl [] = refl
bytes_lt_irrefl (x ∷ a) = ground (arith, bytes_lt_irrefl a)

-- Two times of which neither is later behave as one.
ltz_cotrans : (a b c : ℤ) → ltz a c ≡ true → (ltz a b ≡ true) ⊎ (ltz b c ≡ true)
unfolding ltz
ltz_cotrans (pos a) (pos b) (pos c) h = ground arith
ltz_cotrans (pos a) (negsuc b) (pos c) h = ground arith
ltz_cotrans (negsuc a) (pos b) c h = ground arith
ltz_cotrans (negsuc a) (negsuc b) (pos c) h = ground arith
ltz_cotrans (negsuc a) (negsuc b) (negsuc c) h = ground arith
ltz_cotrans (pos a) b (negsuc c) h = ground arith

comes_before_irrefl : (x : Text × SubscriptionAccountRecord) → comes_before x x ≡ false
unfolding comes_before
comes_before_irrefl (i, a) = rw (ltz_irrefl a.authenticated_at, bytes_lt_irrefl i) refl

comes_before_trans :
    (x y z : Text × SubscriptionAccountRecord)
    → comes_before x y ≡ true
    → comes_before y z ≡ true
    → comes_before x z ≡ true
unfolding comes_before
comes_before_trans (i, a) (j, b) (k, c) h g = ground (
  arith,
  ltz_trans c.authenticated_at b.authenticated_at a.authenticated_at,
  ltz_cotrans c.authenticated_at a.authenticated_at b.authenticated_at,
  ltz_cotrans b.authenticated_at c.authenticated_at a.authenticated_at,
  ltz_cotrans a.authenticated_at b.authenticated_at c.authenticated_at,
  bytes_lt_trans i j k,
)

-- One round of `min_by`.
pub elect_round :
    (x y : Text × SubscriptionAccountRecord) (m : Map SubscriptionAccountRecord) (b : Bool)
    → comes_before y x ≡ b
    → elect_from x (y ∷ m) ≡ elect_from (if b then y else x) m
unfolding elect_from
elect_round x y m b e = ap (λ b. elect_from (if b then y else x) m) e

elect_from-Mem :
    (m : Map SubscriptionAccountRecord) (x : Text × SubscriptionAccountRecord)
    → Memᴰ (elect_from x m) (x ∷ m)
unfolding elect_from
elect_from-Mem [] x = Memᴰ.head refl
elect_from-Mem (y ∷ m) x = elim (Bool-cases (comes_before y x)) [
  | inl e ↦
      subst (λ z. Memᴰ z (x ∷ y ∷ m)) (sym (elect_round x y m true e))
        (Memᴰ.tail (elect_from-Mem m y))
  | inr e ↦
      subst (λ z. Memᴰ z (x ∷ y ∷ m)) (sym (elect_round x y m false e)) (skip (elect_from-Mem m x))
]
  where
    skip : {z : Text × SubscriptionAccountRecord} → Memᴰ z (x ∷ m) → Memᴰ z (x ∷ y ∷ m)
    skip (Memᴰ.head e) = Memᴰ.head e
    skip (Memᴰ.tail h) = Memᴰ.tail (Memᴰ.tail h)

-- What does not come before `x` does not come before what comes before `x`.
earlier :
    (x y z : Text × SubscriptionAccountRecord)
    → comes_before z x ≡ false
    → comes_before y x ≡ true
    → comes_before z y ≡ false
earlier x y z h e = ground (arith, comes_before_trans z y x)

asym : (x y : Text × SubscriptionAccountRecord) → comes_before y x ≡ true → comes_before x y ≡ false
asym x y e = ground (arith, comes_before_trans x y x, comes_before_irrefl x)

-- What does not come before the least so far does not come before the least in the end.
elect_from-least :
    (m : Map SubscriptionAccountRecord) (x z : Text × SubscriptionAccountRecord)
    → comes_before z x ≡ false
    → comes_before z (elect_from x m) ≡ false
unfolding elect_from
elect_from-least [] x z h = h
elect_from-least (y ∷ m) x z h = elim (Bool-cases (comes_before y x)) [
  | inl e ↦
      subst (λ w. comes_before z w ≡ false) (sym (elect_round x y m true e))
        (elect_from-least m y z (earlier x y z h e))
  | inr e ↦
      subst (λ w. comes_before z w ≡ false) (sym (elect_round x y m false e))
        (elect_from-least m x z h)
]

pub elect_from-every :
    (m : Map SubscriptionAccountRecord) (x : Text × SubscriptionAccountRecord)
    → every (λ j a. not (comes_before (j, a) (elect_from x m))) (x ∷ m) ≡ true
unfolding every elect_from
elect_from-every [] x = rw (comes_before_irrefl x) refl
elect_from-every (y ∷ m) x = elim (Bool-cases (comes_before y x)) [
  | inl e ↦
      subst (λ w. every (λ j a. not (comes_before (j, a) w)) (x ∷ y ∷ m) ≡ true)
        (sym (elect_round x y m true e))
        (rw (elect_from-least m y x (asym x y e)) (elect_from-every m y))
  | inr e ↦
      subst (λ w. every (λ j a. not (comes_before (j, a) w)) (x ∷ y ∷ m) ≡ true)
        (sym (elect_round x y m false e))
        (rw (elect_from-least m x x (comes_before_irrefl x), elect_from-least m x y e)
          (skipped (elect_from-every m x)))
]
  where
    skipped :
        every (λ j a. not (comes_before (j, a) (elect_from x m))) (x ∷ m) ≡ true
        → every (λ j a. not (comes_before (j, a) (elect_from x m))) m ≡ true
    skipped h =
        (and_parts (not (comes_before x (elect_from x m)))
          (every (λ j a. not (comes_before (j, a) (elect_from x m))) m) h).1

-- The time `a` is later than `b`.
abbrev pub IsLater : ℤ → ℤ → Type 0
IsLater (pos a) (pos b) = b < a
IsLater (pos a) (negsuc b) = Unit {0}
IsLater (negsuc a) (pos b) = ⊥
IsLater (negsuc a) (negsuc b) = a < b

-- A later authentication, or the same time and not the greater identity.
abbrev pub IsPreferred :
    Text × SubscriptionAccountRecord → Text × SubscriptionAccountRecord → Type 0
IsPreferred (i, a) (j, b) =
    IsLater a.authenticated_at b.authenticated_at
    ⊎ ((a.authenticated_at ≡ b.authenticated_at) × (bytes_lt j i ≡ false))

ltz-IsLater : (a b : ℤ) → ltz b a ≡ true → IsLater a b
unfolding ltz
ltz-IsLater (pos a) (pos b) h = ground arith
ltz-IsLater (pos a) (negsuc b) h = tt
ltz-IsLater (negsuc a) (pos b) h = cc h
ltz-IsLater (negsuc a) (negsuc b) h = ground arith

same_time : (a b : ℤ) → ltz a b ≡ false → ltz b a ≡ false → a ≡ b
unfolding ltz
same_time (pos a) (pos b) h k = let e : a ≡ b = ground arith in ap pos e
same_time (pos a) (negsuc b) h k = cc k
same_time (negsuc a) (pos b) h k = cc h
same_time (negsuc a) (negsuc b) h k = let e : a ≡ b = ground arith in ap negsuc e

comes_before-IsPreferred :
    (x y : Text × SubscriptionAccountRecord) → comes_before y x ≡ false → IsPreferred x y
unfolding comes_before
comes_before-IsPreferred (i, a) (j, b) h =
    elim (Bool-cases (ltz b.authenticated_at a.authenticated_at)) [
      | inl e ↦ inl (ltz-IsLater a.authenticated_at b.authenticated_at e)
      | inr e ↦ inr (same_time a.authenticated_at b.authenticated_at (ground arith) e, ground arith)
    ]

negated : (b : Bool) → not b ≡ true → b ≡ false
negated b h = ground arith

every-Mem :
    (p : Text → SubscriptionAccountRecord → Bool) (m : Map SubscriptionAccountRecord)
    (y : Text × SubscriptionAccountRecord)
    → every p m ≡ true
    → Memᴰ y m
    → p y.0 y.1 ≡ true
unfolding every
every-Mem p [] y h k = elim k [ ]
every-Mem p (x ∷ m) y h (Memᴰ.head e) =
    subst (λ z. p z.0 z.1 ≡ true) (sym e) (and_parts (p x.0 x.1) (every p m) h).0
every-Mem p (x ∷ m) y h (Memᴰ.tail k) = every-Mem p m y (and_parts (p x.0 x.1) (every p m) h).1 k

-- The document after the deletion of its default account: without another account it has no
-- default, and otherwise its default is one of the remaining accounts that is preferred to each of
-- them: its authentication is later, or at the same time and its identity not the greater one.
pub delete_account_from-Elects :
    (d : SubscriptionAccountDocument) (i : Text)
    → d.default_account_id ≡ some i
    → let rest = remove i d.accounts in
      let after = (delete_account_from d i).default_account_id in
      ((rest ≡ []) × (after ≡ none))
      ⊎ ((x : Text × SubscriptionAccountRecord) × (after ≡ some x.0)
          × Memᴰ x rest
          × ((y : Text × SubscriptionAccountRecord) → Memᴰ y rest → IsPreferred x y))
unfolding delete_account_from is_default elect
delete_account_from-Elects d i e = rw (e, (bytes_eq_iff i i).1 refl) (elected (remove i d.accounts))
  where
    elected :
        (rest : Map SubscriptionAccountRecord)
        → ((rest ≡ []) × (elect rest ≡ none))
          ⊎ ((x : Text × SubscriptionAccountRecord) × (elect rest ≡ some x.0)
              × Memᴰ x rest
              × ((y : Text × SubscriptionAccountRecord) → Memᴰ y rest → IsPreferred x y))
    elected [] = inl (refl, refl)
    elected (x ∷ m) = inr (
      elect_from x m,
      refl,
      elect_from-Mem m x,
      (λ y k. comes_before-IsPreferred (elect_from x m) y (
          negated _ (
            every-Mem (λ j a. not (comes_before (j, a) (elect_from x m))) (x ∷ m) y
              (elect_from-every m x) k))),
    )
