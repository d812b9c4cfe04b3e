-- ===== src/Priming/Settles.antt =====
-- Which event settles the fate of a byte string, as a relation: its first event that is not of the
-- lifecycle. The loops of the code are related to it, for any buffer and any offset.
use muxvia.Prelude.{
  ℕ, zero, suc, ◌+◌, ◌≤◌, ◌≡◌, refl, ap, sym, ◌∙◌, subst, Bool, true, false, List, [], ◌∷◌, ◌++◌,
  Bytes, length, take, drop, none, some, arith,
}
use mathlib.Core.Path.{ap₂}
use native.Mathlib.Nat.{zero-add}
use muxvia.Sse.{EventClass, is_lifecycle, find_boundary}
use muxvia.Sse.Boundary.{find_boundary-append, find_boundary_bounds}

module _ (classify : Bytes → EventClass) where
  -- The first event of `xs` ends at `i`.
  abbrev pub Event : Bytes → ℕ → ℕ → Bool → Type 0
  Event xs i s quiet =
      (find_boundary xs ≡ some (i, s)) × (is_lifecycle (classify (take i xs)) ≡ quiet)

  -- `c` is the class of the first event that is not of the lifecycle.
  pub data Settles (c : EventClass) : Bytes → Type 0 where
    here : {xs : Bytes} (i s : ℕ) → Event xs i s false → classify (take i xs) ≡ c → Settles c xs
    later :
        {xs : Bytes} (i s : ℕ) (ys : Bytes)
        → Event xs i s true
        → drop (i + s) xs ≡ ys
        → Settles c ys
        → Settles c xs

  -- There is no such event.
  pub data Pends : Bytes → Type 0 where
    stuck : {xs : Bytes} → find_boundary xs ≡ none → Pends xs
    skip :
        {xs : Bytes} (i s : ℕ) (ys : Bytes)
        → Event xs i s true
        → drop (i + s) xs ≡ ys
        → Pends ys
        → Pends xs

take-append {ℓ} :
    {A : Type ℓ} (n : ℕ) (xs ys : List A) → n ≤ length xs → take n (xs ++ ys) ≡ take n xs
take-append zero xs ys h = refl
take-append (suc n) [] ys h = absurd (omega arith)
take-append (suc n) (x ∷ xs) ys h = ap (◌∷◌ x) (take-append n xs ys (omega arith))

pub drop-append {ℓ} :
    {A : Type ℓ} (n : ℕ) (xs ys : List A) → n ≤ length xs → drop n (xs ++ ys) ≡ drop n xs ++ ys
drop-append zero xs ys h = refl
drop-append (suc n) [] ys h = absurd (omega arith)
drop-append (suc n) (x ∷ xs) ys h = drop-append n xs ys (omega arith)

pub drop-nil {ℓ} : {A : Type ℓ} (n : ℕ) → drop {A = A} n [] ≡ []
drop-nil zero = refl
drop-nil (suc n) = refl

pub drop-drop {ℓ} : {A : Type ℓ} (m n : ℕ) (xs : List A) → drop n (drop m xs) ≡ drop (m + n) xs
drop-drop zero n xs = rw zero-add
drop-drop (suc m) n [] = drop-nil n ∙ sym (drop-nil (suc m + n))
drop-drop (suc m) n (x ∷ xs) =
    let e : suc m + n ≡ suc (m + n) = omega arith in rw e (drop-drop m n xs)

module _ (classify : Bytes → EventClass) where
  pub Event-append :
      (xs ys : Bytes) (i s : ℕ) (quiet : Bool)
      → Event classify xs i s quiet
      → Event classify (xs ++ ys) i s quiet
  Event-append xs ys i s quiet (f, q) = (
    find_boundary-append xs ys (i, s) f,
    ap (λ e. is_lifecycle (classify e))
          (take-append i xs ys (omega (arith, find_boundary_bounds xs i s f)))
        ∙ q,
  )

  pub Event_drop :
      (xs ys : Bytes) (i s : ℕ) (quiet : Bool)
      → Event classify xs i s quiet
      → drop (i + s) (xs ++ ys) ≡ drop (i + s) xs ++ ys
  Event_drop xs ys i s quiet (f, q) = drop-append (i + s) xs ys (find_boundary_bounds xs i s f).1

  -- What has been settled is not changed by bytes that follow.
  pub Settles-append :
      {c : EventClass} {xs : Bytes} (ys : Bytes)
      → Settles classify c xs
      → Settles classify c (xs ++ ys)
  Settles-append {c} {xs} ys (here i s e k) =
      here i s (Event-append xs ys i s false e)
        (ap classify (take-append i xs ys (omega (arith, find_boundary_bounds xs i s e.0))) ∙ k)
  Settles-append {c} {xs} ys (later i s zs e d t) =
      later i s (zs ++ ys) (Event-append xs ys i s true e)
        (Event_drop xs ys i s true e ∙ ap (λ z. z ++ ys) d) (Settles-append ys t)

-- The relations are functional: a byte string has one settling event at most, and not both.
module _ (classify : Bytes → EventClass) where
  Event_unique :
      (xs : Bytes) (i s j u : ℕ) (p q : Bool)
      → Event classify xs i s p
      → Event classify xs j u q
      → (i ≡ j) × (s ≡ u) × (p ≡ q)
  Event_unique xs i s j u p q e f =
      let same : (i ≡ j) × (s ≡ u) = ground arith in
      (same.0, same.1, sym e.1 ∙ ap (λ k. is_lifecycle (classify (take k xs))) same.0 ∙ f.1)

  same_rest :
      (xs ys zs : Bytes) (i s j u : ℕ)
      → i ≡ j
      → s ≡ u
      → drop (i + s) xs ≡ ys
      → drop (j + u) xs ≡ zs
      → ys ≡ zs
  same_rest xs ys zs i s j u a b d e = sym d ∙ ap (λ k. drop k xs) (ap₂ ◌+◌ a b) ∙ e

  pub Settles-unique :
      {c d : EventClass} {xs : Bytes} → Settles classify c xs → Settles classify d xs → c ≡ d
  Settles-unique {xs = xs} (here i s e k) (here j u f l) =
      sym k ∙ ap (λ n. classify (take n xs)) (Event_unique xs i s j u false false e f).0 ∙ l
  Settles-unique {xs = xs} (here i s e k) (later j u ys f d t) =
      cc (Event_unique xs i s j u false true e f).2
  Settles-unique {xs = xs} (later i s ys e d t) (here j u f k) =
      cc (Event_unique xs i s j u true false e f).2
  Settles-unique {c} {d} {xs} (later i s ys e a t) (later j u zs f b v) =
      let same = Event_unique xs i s j u true true e f in
      Settles-unique t
        (subst (Settles classify d) (sym (same_rest xs ys zs i s j u same.0 same.1 a b)) v)

  pub Settles-not-Pends :
      {c : EventClass} {xs : Bytes} → Settles classify c xs → Pends classify xs → ⊥
  Settles-not-Pends (here i s e k) (stuck f) = cc (e.0, f)
  Settles-not-Pends {xs = xs} (here i s e k) (skip j u ys f d t) =
      cc (Event_unique xs i s j u false true e f).2
  Settles-not-Pends (later i s ys e d t) (stuck f) = cc (e.0, f)
  Settles-not-Pends {xs = xs} (later i s ys e a t) (skip j u zs f b v) =
      let same = Event_unique xs i s j u true true e f in
      Settles-not-Pends t
        (subst (Pends classify) (sym (same_rest xs ys zs i s j u same.0 same.1 a b)) v)
