-- ===== src/Priming/Signals.antt =====
-- The chunks and the faults of a body on their way through the priming,
-- crates/routing-service/src/model/commitment.rs.
use muxvia.Prelude.{
  ℕ, ◌≡◌, refl, ap, sym, ◌∙◌, List, [], ◌∷◌, ◌++◌, map, Bytes, append_assoc, append-nil, length,
  Bool-cases, inl, inr,
}
use mathlib.Core.List.{map-append}
use muxvia.Sse.{EventClass, productive, non_failure_terminal, convertible_failure}
use mathlib.Core.Path.{ap₂, subst}
use muxvia.Priming.Steps.{
  Scan-cases, prime_loop_late, prime_loop_over, prime_loop_decided, prime_loop_more, collect_late,
  collect_over, collect_more,
}
use muxvia.Priming.{
  Timing, Body, finish, fault, chunk, chain, scan_events, Primed, commit, commit_failure, retry,
  act_on, prime_loop, is_late, exceeds, BoundedCollection, complete, partial, broken,
  collect_bounded, after_collection,
}

-- What the reader of a body sees, without the division into chunks and the times.
pub data Signal : Type 0 where
  octet : ℕ → Signal
  interrupted : Signal

unfoldable pub signals : Body → List Signal
signals (finish t) = []
signals (fault t rest) = interrupted ∷ signals rest
signals (chunk t bytes rest) = map octet bytes ++ signals rest

pub flat : List Bytes → Bytes
flat [] = []
flat (bytes ∷ rest) = bytes ++ flat rest

flat-append : (xs ys : List Bytes) → flat (xs ++ ys) ≡ flat xs ++ flat ys
unfolding flat
flat-append [] ys = refl
flat-append (x ∷ xs) ys = rw (flat-append xs ys) (sym (append_assoc x (flat xs) (flat ys)))

signals-chain :
    (prefix : List Bytes) (rest : Body)
    → signals (chain prefix rest) ≡ map octet (flat prefix) ++ signals rest
unfolding signals chain flat
signals-chain [] rest = refl
signals-chain (x ∷ xs) rest =
    rw (signals-chain xs rest, map-append octet x (flat xs))
      (sym (append_assoc (map octet x) (map octet (flat xs)) (signals rest)))

-- A commitment hands on what the reader of the whole body would have seen.
abbrev pub HandsOn : List Signal → Primed → Type 0
HandsOn all (commit prefix rest) = signals (chain prefix rest) ≡ all
HandsOn all (commit_failure prefix rest) = signals (chain prefix rest) ≡ all
HandsOn all retry = Unit

pub act_on-HandsOn :
    (c : EventClass) (prefix : List Bytes) (rest : Body) {all : List Signal}
    → signals (chain prefix rest) ≡ all
    → HandsOn all (act_on c prefix rest)
unfolding act_on
act_on-HandsOn productive prefix rest e = e
act_on-HandsOn non_failure_terminal prefix rest e = e
act_on-HandsOn convertible_failure prefix rest e = e
act_on-HandsOn _ prefix rest e = tt

-- The chunks read so far, one more, and the rest.
signals_shift :
    (read : List Bytes) (bytes : Bytes) (rest : Body) (t : Timing)
    → map octet (flat (read ++ bytes ∷ [])) ++ signals rest
      ≡ map octet (flat read) ++ signals (chunk t bytes rest)
unfolding signals flat
signals_shift read bytes rest t =
    simp (flat-append, flat, map-append, append_assoc, append-nil) refl

pub prime_loop-HandsOn :
    (classify : Bytes → EventClass) (body : Body) (read : List Bytes) (semantic : Bytes)
    (parsed : ℕ)
    → HandsOn
        (map octet (flat read) ++ signals body)
        (prime_loop classify body read semantic parsed)
prime_loop-HandsOn classify (finish t) read semantic parsed = elim (Bool-cases (is_late t)) [
  | inl e ↦ unfold prime_loop in rw e (signals-chain read (finish t))
  | inr e ↦ unfold prime_loop in rw e tt
]
prime_loop-HandsOn classify (fault t rest) read semantic parsed = elim (Bool-cases (is_late t)) [
  | inl e ↦ unfold prime_loop in rw e (signals-chain read (fault t rest))
  | inr e ↦ unfold prime_loop in rw e tt
]
prime_loop-HandsOn classify (chunk t bytes rest) read semantic parsed =
    let all = map octet (flat read) ++ signals (chunk t bytes rest) in
    let later = prime_loop-HandsOn classify rest (read ++ bytes ∷ []) (semantic ++ bytes) in
    let moved = signals-chain (read ++ bytes ∷ []) rest ∙ signals_shift read bytes rest t in
    elim (Bool-cases (is_late t)) [
      | inl e ↦
          subst (HandsOn all) (sym (prime_loop_late t bytes rest classify read semantic parsed e))
            (signals-chain read (chunk t bytes rest))
      | inr e ↦ elim (Bool-cases (exceeds (length semantic) (length bytes))) [
        | inl x ↦
            subst (HandsOn all)
              (sym (prime_loop_over t bytes rest classify read semantic parsed e x)) moved
        | inr x ↦
            elim (Scan-cases
              (scan_events classify (length (semantic ++ bytes)) (semantic ++ bytes) parsed)) [
                | inl (n, m) ↦
                    subst (HandsOn all)
                      (sym (prime_loop_more t bytes rest classify read semantic parsed n e x m))
                      (subst
                        (λ s.
                          HandsOn s
                            (prime_loop classify rest (read ++ bytes ∷ []) (semantic ++ bytes) n))
                        (signals_shift read bytes rest t) (later n))
                | inr (c, d) ↦
                    subst (HandsOn all)
                      (sym (prime_loop_decided t bytes rest classify read semantic parsed c e x d))
                      (act_on-HandsOn c (read ++ bytes ∷ []) rest moved)
              ]
      ]
    ]

pub prime_loop_start-HandsOn :
    (classify : Bytes → EventClass) (body : Body)
    → HandsOn (signals body) (prime_loop classify body [] [] 0)
unfolding flat
prime_loop_start-HandsOn classify body = prime_loop-HandsOn classify body [] [] 0

-- What a collection has seen of the body.
abbrev Collects : List Signal → BoundedCollection → Type 0
Collects all (complete bytes) = map octet bytes ≡ all
Collects all (partial chunks rest) = signals (chain chunks rest) ≡ all
Collects all broken = Unit

collect_bounded-Collects :
    (body : Body) (held : Bytes) (chunks : List Bytes)
    → held ≡ flat chunks
    → Collects (map octet (flat chunks) ++ signals body) (collect_bounded body held chunks)
unfolding signals flat
collect_bounded-Collects (finish t) held chunks h = elim (Bool-cases (is_late t)) [
  | inl e ↦ unfold collect_bounded in rw e (signals-chain chunks (finish t))
  | inr e ↦ unfold collect_bounded in rw e (ap (map octet) h ∙ sym (append-nil _))
]
collect_bounded-Collects (fault t rest) held chunks h = elim (Bool-cases (is_late t)) [
  | inl e ↦ unfold collect_bounded in rw e (signals-chain chunks (fault t rest))
  | inr e ↦ unfold collect_bounded in rw e tt
]
collect_bounded-Collects (chunk t bytes rest) held chunks h =
    let all = map octet (flat chunks) ++ signals (chunk t bytes rest) in
    elim (Bool-cases (is_late t)) [
      | inl e ↦
          subst (Collects all) (sym (collect_late t bytes rest held chunks e))
            (signals-chain chunks (chunk t bytes rest))
      | inr e ↦ elim (Bool-cases (exceeds (length held) (length bytes))) [
        | inl x ↦
            subst (Collects all) (sym (collect_over t bytes rest held chunks e x))
              (signals-chain (chunks ++ bytes ∷ []) rest ∙ signals_shift chunks bytes rest t)
        | inr x ↦ subst (Collects all) (sym (collect_more t bytes rest held chunks e x)) (
            subst (λ s. Collects s (collect_bounded rest (held ++ bytes) (chunks ++ bytes ∷ [])))
              (signals_shift chunks bytes rest t)
              (collect_bounded-Collects rest (held ++ bytes) (chunks ++ bytes ∷ [])
                (held-flat held bytes chunks h)))
      ]
    ]
  where
    held-flat :
        (held bytes : Bytes) (chunks : List Bytes)
        → held ≡ flat chunks
        → held ++ bytes ≡ flat (chunks ++ bytes ∷ [])
    held-flat held bytes chunks h = rw flat-append (ap₂ ◌++◌ h (sym (append-nil bytes)))

-- A decision on a complete body that commits, if at all, to that body.
abbrev pub CommitsWhole : (Bytes → Primed) → Type 0
CommitsWhole decide = (bytes : Bytes) → HandsOn (map octet bytes) (decide bytes)

pub after_collection-HandsOn :
    (decide : Bytes → Primed) (body : Body)
    → CommitsWhole decide
    → HandsOn (signals body) (after_collection decide (collect_bounded body [] []))
unfolding flat
after_collection-HandsOn decide body whole =
    go (collect_bounded body [] []) (collect_bounded-Collects body [] [] refl)
  where
    go :
        (found : BoundedCollection)
        → Collects (signals body) found
        → HandsOn (signals body) (after_collection decide found)
    go (complete bytes) c =
        unfold after_collection in subst (λ s. HandsOn s (decide bytes)) c (whole bytes)
    go (partial chunks rest) c = unfold after_collection in c
    go broken c = unfold after_collection in tt
