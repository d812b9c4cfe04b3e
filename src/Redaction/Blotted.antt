-- ===== src/Redaction/Blotted.antt =====
-- What `redact` of crates/routing-service/src/model/request_recorder.rs leaves of the secrets,
-- described without its loops.
use muxvia.Prelude.{
  ℕ, zero, suc, ◌+◌, ◌-◌, ◌≤◌, ◌≡◌, refl, ap, sym, ◌∙◌, subst, ◌≢◌, true, false, List, [], ◌∷◌,
  ◌++◌, Bytes, length, drop, replicate, length-append, ltb, leb, if◌then◌else◌, arith, Bool-cases,
  Option-cases, inl, inr,
}
use mathlib.Core.List.{Memᴰ}
use muxvia.Text.{codes, starts_with, strip_prefix, is_some}
use muxvia.Redaction.{replacement, blot, blot_all, redact, longest_first, not_empty, insert_longest}
use muxvia.Redaction.Length.{blot_hit, blot_miss}
use muxvia.Auth.Bearer.{strip_prefix-append, strip_prefix-some}

-- The bytes that stand for a secret: asterisks, as many as the secret has bytes, of which the first
-- ten are the mark if there is room for it.
pub data Cover (secret : Bytes) : Bytes → Type 0 where
  stars : suc (length secret) ≤ 10 → Cover secret (replicate (length secret) b'*')
  mark : (n : ℕ) → length secret ≡ 10 + n → Cover secret (codes "[REDACTED]" ++ replicate n b'*')

-- From the left, each place where the secret stands is covered, and any other byte is kept.
pub data Blots (secret : Bytes) : Bytes → Bytes → Type 0 where
  blots_end : Blots secret [] []
  blots_secret :
      {cover rest out : Bytes}
      → Cover secret cover
      → Blots secret rest out
      → Blots secret (secret ++ rest) (cover ++ out)
  blots_other :
      {b : ℕ} {bs out : Bytes}
      → ((rest : Bytes) → b ∷ bs ≢ secret ++ rest)
      → Blots secret bs out
      → Blots secret (b ∷ bs) (b ∷ out)

-- One secret after the other.
pub data BlotsAll : List Bytes → Bytes → Bytes → Type 0 where
  blots_none : {bytes : Bytes} → BlotsAll [] bytes bytes
  blots_next :
      {secret bytes between out : Bytes} {secrets : List Bytes}
      → Blots secret bytes between
      → BlotsAll secrets between out
      → BlotsAll (secret ∷ secrets) bytes out

-- No secret is followed by a longer one.
abbrev pub Descending : List Bytes → Type 0
Descending [] = Unit {0}
Descending (secret ∷ secrets) =
    ((s : Bytes) → Memᴰ s secrets → length s ≤ length secret) × Descending secrets

-- The secrets, but for empty ones, are blotted out, longer ones first.
abbrev pub Redacts : List Bytes → Bytes → Bytes → Type 0
Redacts secrets bytes out =
    (ordered : List Bytes) × ((s : Bytes) → Memᴰ s secrets → s ≢ [] → Memᴰ s ordered)
    × ((s : Bytes) → Memᴰ s ordered → Memᴰ s secrets × (s ≢ []))
    × Descending ordered
    × BlotsAll ordered bytes out

replacement-Cover : (secret : Bytes) → Cover secret (replacement secret)
unfolding replacement
replacement-Cover secret = elim (Bool-cases (leb 10 (length secret))) [
  | inl long ↦ rw long (mark (length secret - 10) (ground arith))
  | inr short ↦ rw short (stars (ground arith))
]

drop-append : (xs ys : Bytes) → drop (length xs) (xs ++ ys) ≡ ys
drop-append [] ys = refl
drop-append (x ∷ xs) ys = drop-append xs ys

-- What a prefix test says.
starts_with-some :
    (secret bytes : Bytes)
    → starts_with secret bytes ≡ true
    → (rest : Bytes) × (bytes ≡ secret ++ rest)
unfolding starts_with
starts_with-some secret bytes e = elim (Option-cases (strip_prefix secret bytes)) [
  | inl q ↦ absurd (clash (sym (ap is_some q) ∙ e))
  | inr (rest, q) ↦ (rest, strip_prefix-some secret bytes rest q)
]
  where
    clash : false ≡ true → ⊥
    clash e = cc e

starts_with-none :
    (secret bytes : Bytes)
    → starts_with secret bytes ≡ false
    → (rest : Bytes) → bytes ≢ secret ++ rest
unfolding starts_with
starts_with-none secret bytes e rest q = clash (
    sym e
    ∙ ap (λ x. is_some (strip_prefix secret x)) q
    ∙ ap is_some (strip_prefix-append secret rest))
  where
    clash : false ≡ true → ⊥
    clash e = cc e

-- The round that passes a secret.
covered :
    (secret bytes rest : Bytes) (fuel : ℕ)
    → bytes ≡ secret ++ rest
    → Blots secret rest (blot secret fuel rest)
    → Blots secret bytes (replacement secret ++ blot secret fuel (drop (length secret) bytes))
covered secret bytes rest fuel q h =
    subst (λ x. Blots secret x (replacement secret ++ blot secret fuel (drop (length secret) x)))
      (sym q)
      (subst (λ r. Blots secret (secret ++ rest) (replacement secret ++ blot secret fuel r))
        (sym (drop-append secret rest)) (blots_secret (replacement-Cover secret) h))

blot-Blots :
    (s : ℕ) (ss : Bytes) (fuel : ℕ) (bytes : Bytes)
    → length bytes ≤ fuel
    → Blots (s ∷ ss) bytes (blot (s ∷ ss) fuel bytes)
unfolding blot
blot-Blots s ss zero [] h = blots_end
blot-Blots s ss (suc fuel) [] h = blots_end
blot-Blots s ss zero (b ∷ bs) h = ground arith
blot-Blots s ss (suc fuel) (b ∷ bs) h = elim (Bool-cases (starts_with (s ∷ ss) (b ∷ bs))) [
  | inl hit ↦
      let (rest, q) = starts_with-some (s ∷ ss) (b ∷ bs) hit in
      let len = ap length q ∙ length-append (s ∷ ss) rest in
      subst (Blots (s ∷ ss) (b ∷ bs)) (sym (blot_hit (s ∷ ss) fuel b bs hit))
        (covered (s ∷ ss) (b ∷ bs) rest fuel q (blot-Blots s ss fuel rest (omega arith)))
  | inr miss ↦ subst (Blots (s ∷ ss) (b ∷ bs)) (sym (blot_miss (s ∷ ss) fuel b bs miss)) (
      blots_other (starts_with-none (s ∷ ss) (b ∷ bs) miss) (blot-Blots s ss fuel bs (omega arith)))
]

abbrev NonEmpty : List Bytes → Type 0
NonEmpty secrets = (s : Bytes) → Memᴰ s secrets → s ≢ []

blot_all-BlotsAll :
    (secrets : List Bytes) (bytes : Bytes)
    → NonEmpty secrets
    → BlotsAll secrets bytes (blot_all secrets bytes)
unfolding blot_all
blot_all-BlotsAll [] bytes h = blots_none
blot_all-BlotsAll ([] ∷ secrets) bytes h = absurd (h [] (Memᴰ.head refl) refl)
blot_all-BlotsAll ((s ∷ ss) ∷ secrets) bytes h =
    blots_next (blot-Blots s ss (length bytes) bytes (omega arith))
      (blot_all-BlotsAll secrets _ (λ x k. h x (Memᴰ.tail k)))

-- The order is one of the same secrets.
insert-Mem :
    (x : Bytes) (secrets : List Bytes) (s : Bytes)
    → Memᴰ s (x ∷ secrets)
    → Memᴰ s (insert_longest x secrets)
unfolding insert_longest
insert-Mem x [] s h = h
insert-Mem x (y ∷ ys) s h = elim (Bool-cases (ltb (length x) (length y))) [
  | inl e ↦ rw e (inner (insert-Mem x ys s) h)
  | inr e ↦ rw e h
]
  where
    inner :
        (Memᴰ s (x ∷ ys) → Memᴰ s (insert_longest x ys))
        → Memᴰ s (x ∷ y ∷ ys)
        → Memᴰ s (y ∷ insert_longest x ys)
    inner go (Memᴰ.head e) = Memᴰ.tail (go (Memᴰ.head e))
    inner go (Memᴰ.tail (Memᴰ.head e)) = Memᴰ.head e
    inner go (Memᴰ.tail (Memᴰ.tail k)) = Memᴰ.tail (go (Memᴰ.tail k))

Mem-insert :
    (x : Bytes) (secrets : List Bytes) (s : Bytes)
    → Memᴰ s (insert_longest x secrets)
    → Memᴰ s (x ∷ secrets)
unfolding insert_longest
Mem-insert x [] s h = h
Mem-insert x (y ∷ ys) s h = elim (Bool-cases (ltb (length x) (length y))) [
  | inl e ↦
      outer (Mem-insert x ys s)
        (subst (Memᴰ s) (ap (λ b. if b then y ∷ insert_longest x ys else x ∷ y ∷ ys) e) h)
  | inr e ↦ subst (Memᴰ s) (ap (λ b. if b then y ∷ insert_longest x ys else x ∷ y ∷ ys) e) h
]
  where
    swap : Memᴰ s (x ∷ ys) → Memᴰ s (x ∷ y ∷ ys)
    swap (Memᴰ.head e) = Memᴰ.head e
    swap (Memᴰ.tail k) = Memᴰ.tail (Memᴰ.tail k)

    outer :
        (Memᴰ s (insert_longest x ys) → Memᴰ s (x ∷ ys))
        → Memᴰ s (y ∷ insert_longest x ys)
        → Memᴰ s (x ∷ y ∷ ys)
    outer go (Memᴰ.head e) = Memᴰ.tail (Memᴰ.head e)
    outer go (Memᴰ.tail k) = swap (go k)

longest-Mem : (secrets : List Bytes) (s : Bytes) → Memᴰ s secrets → Memᴰ s (longest_first secrets)
unfolding longest_first
longest-Mem [] s h = elim h [ ]
longest-Mem (x ∷ secrets) s (Memᴰ.head e) = insert-Mem x _ s (Memᴰ.head e)
longest-Mem (x ∷ secrets) s (Memᴰ.tail k) = insert-Mem x _ s (Memᴰ.tail (longest-Mem secrets s k))

Mem-longest : (secrets : List Bytes) (s : Bytes) → Memᴰ s (longest_first secrets) → Memᴰ s secrets
unfolding longest_first
Mem-longest [] s h = h
Mem-longest (x ∷ secrets) s h = later (Mem-longest secrets s) (Mem-insert x _ s h)
  where
    later :
        (Memᴰ s (longest_first secrets) → Memᴰ s secrets)
        → Memᴰ s (x ∷ longest_first secrets)
        → Memᴰ s (x ∷ secrets)
    later go (Memᴰ.head e) = Memᴰ.head e
    later go (Memᴰ.tail k) = Memᴰ.tail (go k)

insert-Descending :
    (x : Bytes) (secrets : List Bytes) → Descending secrets → Descending (insert_longest x secrets)
unfolding insert_longest
insert-Descending x [] h = ((λ s k. elim k [ ]), tt)
insert-Descending x (y ∷ ys) (below, h) = elim (Bool-cases (ltb (length x) (length y))) [
  | inl e ↦ rw e ((λ s k. under e s (Mem-insert x ys s k)), insert-Descending x ys h)
  | inr e ↦ rw e (over e, (below, h))
]
  where
    under : ltb (length x) (length y) ≡ true → (s : Bytes) → Memᴰ s (x ∷ ys) → length s ≤ length y
    under e s (Memᴰ.head q) = let n = ap length q in ground arith
    under e s (Memᴰ.tail k) = below s k

    over : ltb (length x) (length y) ≡ false → (s : Bytes) → Memᴰ s (y ∷ ys) → length s ≤ length x
    over e s (Memᴰ.head q) = let n = ap length q in ground arith
    over e s (Memᴰ.tail k) = let n = below s k in ground arith

longest-Descending : (secrets : List Bytes) → Descending (longest_first secrets)
unfolding longest_first
longest-Descending [] = tt
longest-Descending (x ∷ secrets) = insert-Descending x _ (longest-Descending secrets)

not_empty-Mem :
    (secrets : List Bytes) (s : Bytes) → Memᴰ s secrets → s ≢ [] → Memᴰ s (not_empty secrets)
unfolding not_empty
not_empty-Mem [] s h k = elim h [ ]
not_empty-Mem ([] ∷ secrets) s (Memᴰ.head e) h = absurd (h e)
not_empty-Mem ([] ∷ secrets) s (Memᴰ.tail k) h = not_empty-Mem secrets s k h
not_empty-Mem ((b ∷ bs) ∷ secrets) s (Memᴰ.head e) h = Memᴰ.head e
not_empty-Mem ((b ∷ bs) ∷ secrets) s (Memᴰ.tail k) h = Memᴰ.tail (not_empty-Mem secrets s k h)

cons_nil : {b : ℕ} {bs : Bytes} → b ∷ bs ≢ []
cons_nil e = cc e

Mem-not_empty :
    (secrets : List Bytes) (s : Bytes) → Memᴰ s (not_empty secrets) → Memᴰ s secrets × (s ≢ [])
unfolding not_empty
Mem-not_empty [] s h = elim h [ ]
Mem-not_empty ([] ∷ secrets) s h =
    let found = Mem-not_empty secrets s h in (Memᴰ.tail found.0, found.1)
Mem-not_empty ((b ∷ bs) ∷ secrets) s (Memᴰ.head e) = (Memᴰ.head e, (λ q. cons_nil (sym e ∙ q)))
Mem-not_empty ((b ∷ bs) ∷ secrets) s (Memᴰ.tail k) =
    let found = Mem-not_empty secrets s k in (Memᴰ.tail found.0, found.1)

pub redact-Redacts :
    (secrets : List Bytes) (input : Bytes) → Redacts secrets input (redact input secrets)
unfolding redact
redact-Redacts secrets input =
    let kept = not_empty secrets in
    let back : ((s : Bytes) → Memᴰ s (longest_first kept) → Memᴰ s secrets × (s ≢ [])) =
      λ s k. Mem-not_empty secrets s (Mem-longest kept s k) in
    (
      longest_first kept,
      (λ s k h. longest-Mem kept s (not_empty-Mem secrets s k h)),
      back,
      longest-Descending kept,
      blot_all-BlotsAll (longest_first kept) input (λ s k. (back s k).1),
    )
