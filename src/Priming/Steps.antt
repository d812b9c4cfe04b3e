-- ===== src/Priming/Steps.antt =====
-- One round of each loop, as equations.
use muxvia.Prelude.{
  ℕ, ◌≡◌, refl, true, false, List, [], ◌∷◌, ◌++◌, Bytes, length, arith, ◌⊎◌, inl, inr,
}
use muxvia.Sse.{EventClass}
use muxvia.Priming.{
  Timing, Body, chunk, Scan, more, decided, scan_events, Primed, commit, act_on, prime_loop,
  is_late, exceeds, BoundedCollection, partial, collect_bounded,
}

pub Scan-cases : (s : Scan) → ((n : ℕ) × (s ≡ more n)) ⊎ ((c : EventClass) × (s ≡ decided c))
Scan-cases (more n) = inl (n, refl)
Scan-cases (decided c) = inr (c, refl)

module _ (t : Timing) (bytes : Bytes) (rest : Body) where
  module _ (classify : Bytes → EventClass) (read : List Bytes) (semantic : Bytes) (parsed : ℕ) where
    abbrev round : Primed
    round = prime_loop classify (chunk t bytes rest) read semantic parsed

    abbrev scanned : Scan
    scanned = scan_events classify (length (semantic ++ bytes)) (semantic ++ bytes) parsed

    pub prime_loop_late : is_late t ≡ true → round ≡ commit read (chunk t bytes rest)
    unfolding prime_loop
    prime_loop_late e = ground arith

    pub prime_loop_over :
        is_late t ≡ false
        → exceeds (length semantic) (length bytes) ≡ true
        → round ≡ commit (read ++ bytes ∷ []) rest
    unfolding prime_loop
    prime_loop_over e x = ground arith

    pub prime_loop_decided :
        (c : EventClass)
        → is_late t ≡ false
        → exceeds (length semantic) (length bytes) ≡ false
        → scanned ≡ decided c
        → round ≡ act_on c (read ++ bytes ∷ []) rest
    unfolding prime_loop
    prime_loop_decided c e x d = ground arith

    pub prime_loop_more :
        (n : ℕ)
        → is_late t ≡ false
        → exceeds (length semantic) (length bytes) ≡ false
        → scanned ≡ more n
        → round ≡ prime_loop classify rest (read ++ bytes ∷ []) (semantic ++ bytes) n
    unfolding prime_loop
    prime_loop_more n e x d = ground arith

  module _ (held : Bytes) (chunks : List Bytes) where
    abbrev collected : BoundedCollection
    collected = collect_bounded (chunk t bytes rest) held chunks

    pub collect_late : is_late t ≡ true → collected ≡ partial chunks (chunk t bytes rest)
    unfolding collect_bounded
    collect_late e = ground arith

    pub collect_over :
        is_late t ≡ false
        → exceeds (length held) (length bytes) ≡ true
        → collected ≡ partial (chunks ++ bytes ∷ []) rest
    unfolding collect_bounded
    collect_over e x = ground arith

    pub collect_more :
        is_late t ≡ false
        → exceeds (length held) (length bytes) ≡ false
        → collected ≡ collect_bounded rest (held ++ bytes) (chunks ++ bytes ∷ [])
    unfolding collect_bounded
    collect_more e x = ground arith
