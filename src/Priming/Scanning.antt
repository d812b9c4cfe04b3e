-- ===== src/Priming/Scanning.antt =====
-- The loops over the events of a buffer, against the relations of Settles.
use muxvia.Prelude.{
  ℕ, zero, suc, ◌+◌, ◌-◌, ◌≤◌, ◌≡◌, refl, ap, sym, ◌∙◌, subst, true, false, List, [], ◌∷◌, ◌++◌,
  Bytes, length, take, drop, length-drop, none, some, arith, ◌⊎◌, inl, inr, Bool-cases,
  Option-cases,
}
use muxvia.Sse.{EventClass, is_lifecycle, find_boundary, next_event, slice}
use muxvia.Sse.Boundary.{find_boundary_bounds, find_none}
use muxvia.Priming.{Scan, more, decided, scan_events}
use muxvia.Priming.Settles.{
  Event, Settles, here, later, Pends, stuck, skip, Event-append, drop-nil, drop-drop, drop-append,
}

pub next_none :
    (bytes : Bytes) (parsed : ℕ)
    → find_boundary (drop parsed bytes) ≡ none
    → next_event bytes parsed ≡ none
unfolding next_event
next_none bytes parsed e = ground arith

pub next_some :
    (bytes : Bytes) (parsed i s : ℕ)
    → parsed ≤ length bytes
    → find_boundary (drop parsed bytes) ≡ some (i, s)
    → next_event bytes parsed ≡ some (parsed + i, s)
unfolding next_event
next_some bytes parsed i s h e = ground arith

pub slice_event :
    (bytes : Bytes) (parsed i : ℕ) → slice parsed (parsed + i) bytes ≡ take i (drop parsed bytes)
slice_event bytes parsed i = let e : parsed + i - parsed ≡ i = omega arith in rw e refl

pub drop_all {ℓ} : {A : Type ℓ} (n : ℕ) (xs : List A) → length xs ≤ n → drop n xs ≡ []
drop_all n [] h = drop-nil n
drop_all zero (x ∷ xs) h = absurd (omega arith)
drop_all (suc n) (x ∷ xs) h = drop_all n xs (omega arith)

module _ (classify : Bytes → EventClass) (fuel : ℕ) (bytes : Bytes) (parsed : ℕ) where
  scan_none :
      next_event bytes parsed ≡ none → scan_events classify (suc fuel) bytes parsed ≡ more parsed
  unfolding scan_events
  scan_none e = ground arith

  pub scan_quiet :
      (end s : ℕ)
      → next_event bytes parsed ≡ some (end, s)
      → is_lifecycle (classify (slice parsed end bytes)) ≡ true
      → scan_events classify (suc fuel) bytes parsed ≡ scan_events classify fuel bytes (end + s)
  unfolding scan_events
  scan_quiet end s e q = rw (e, scan_events) (rw (q, scan_events) refl)

  pub scan_loud :
      (end s : ℕ)
      → next_event bytes parsed ≡ some (end, s)
      → is_lifecycle (classify (slice parsed end bytes)) ≡ false
      → scan_events classify (suc fuel) bytes parsed ≡ decided (classify (slice parsed end bytes))
  unfolding scan_events
  scan_loud end s e q = rw (e, scan_events) (rw (q, scan_events) refl)

-- What a scan from `parsed` has found out. Where it goes on to `n`, the events in between are of the
-- lifecycle, also when bytes are appended.
abbrev pub Scanned : (Bytes → EventClass) → Bytes → ℕ → Scan → Type 0
Scanned classify bytes parsed (decided c) =
    Settles classify c (drop parsed bytes) × (is_lifecycle c ≡ false)
Scanned classify bytes parsed (more n) =
    (n ≤ length bytes)
    × Pends classify (drop n bytes)
    × ((ys : Bytes) (c : EventClass)
        → Settles classify c (drop n (bytes ++ ys))
        → Settles classify c (drop parsed (bytes ++ ys)))
    × ((ys : Bytes)
        → Pends classify (drop n (bytes ++ ys))
        → Pends classify (drop parsed (bytes ++ ys)))

module _ (classify : Bytes → EventClass) (bytes : Bytes) where
  stay :
      (parsed : ℕ)
      → parsed ≤ length bytes
      → find_boundary (drop parsed bytes) ≡ none
      → Scanned classify bytes parsed (more parsed)
  stay parsed h e = (h, stuck e, (λ ys c t. t), (λ ys t. t))

  -- The rest behind an event of the lifecycle, with bytes appended.
  behind :
      (parsed i s : ℕ) (ys : Bytes)
      → parsed ≤ length bytes
      → Event classify (drop parsed bytes) i s true
      → Event classify (drop parsed (bytes ++ ys)) i s true
        × (drop (i + s) (drop parsed (bytes ++ ys)) ≡ drop (parsed + i + s) (bytes ++ ys))
  behind parsed i s ys h e = (
    subst (λ z. Event classify z i s true) (sym (drop-append parsed bytes ys h))
        (Event-append classify (drop parsed bytes) ys i s true e),
    drop-drop parsed (i + s) (bytes ++ ys) ∙ ap (λ k. drop k (bytes ++ ys)) (assoc parsed i s),
  )
    where
      assoc : (a b c : ℕ) → a + (b + c) ≡ a + b + c
      assoc a b c = omega arith

  skip_quiet :
      (parsed i s : ℕ) (result : Scan)
      → parsed ≤ length bytes
      → Event classify (drop parsed bytes) i s true
      → Scanned classify bytes (parsed + i + s) result
      → Scanned classify bytes parsed result
  skip_quiet parsed i s (more n) h e (within, pending, settle, pend) = (
    within,
    pending,
    (λ ys c t. let b = behind parsed i s ys h e in later i s _ b.0 b.1 (settle ys c t)),
    (λ ys t. let b = behind parsed i s ys h e in skip i s _ b.0 b.1 (pend ys t)),
  )
  skip_quiet parsed i s (decided c) h e (t, loud) = (
    later i s _ e (drop-drop parsed (i + s) bytes ∙ ap (λ k. drop k bytes) (assoc parsed i s)) t,
    loud,
  )
    where
      assoc : (a b c : ℕ) → a + (b + c) ≡ a + b + c
      assoc a b c = omega arith

  pub scan_events-Scanned :
      (fuel parsed : ℕ)
      → parsed ≤ length bytes
      → length bytes - parsed ≤ fuel
      → Scanned classify bytes parsed (scan_events classify fuel bytes parsed)
  scan_events-Scanned zero parsed h enough =
      unfold scan_events in
      stay parsed h (ap find_boundary (drop_all parsed bytes (omega arith)) ∙ find_none)
  scan_events-Scanned (suc fuel) parsed h enough =
      elim (Option-cases (find_boundary (drop parsed bytes))) [
        | inl e ↦
            subst (Scanned classify bytes parsed)
              (sym (scan_none classify fuel bytes parsed (next_none bytes parsed e)))
              (stay parsed h e)
        | inr ((i, s), e) ↦
            by_class i s e (Bool-cases (is_lifecycle (classify (take i (drop parsed bytes)))))
              (λ k. scan_events-Scanned fuel (parsed + i + s) k)
      ]
    where
      by_class :
          (i s : ℕ)
          → find_boundary (drop parsed bytes) ≡ some (i, s)
          → (is_lifecycle (classify (take i (drop parsed bytes))) ≡ true)
            ⊎ (is_lifecycle (classify (take i (drop parsed bytes))) ≡ false)
          → (parsed + i + s ≤ length bytes
              → length bytes - (parsed + i + s) ≤ fuel
              → Scanned classify bytes
                  (parsed + i + s)
                  (scan_events classify fuel bytes (parsed + i + s)))
          → Scanned classify bytes parsed (scan_events classify (suc fuel) bytes parsed)
      by_class i s e (inl q) next =
          let room = find_boundary_bounds (drop parsed bytes) i s e in
          let len = length-drop parsed bytes in
          subst (Scanned classify bytes parsed)
            (sym (
              scan_quiet classify fuel bytes parsed (parsed + i) s (next_some bytes parsed i s h e)
                (ap (λ z. is_lifecycle (classify z)) (slice_event bytes parsed i) ∙ q)))
            (skip_quiet parsed i s _ h (e, q) (next (omega arith) (omega arith)))
      by_class i s e (inr q) next =
          subst (Scanned classify bytes parsed)
            (sym (
              scan_loud classify fuel bytes parsed (parsed + i) s (next_some bytes parsed i s h e)
                (ap (λ z. is_lifecycle (classify z)) (slice_event bytes parsed i) ∙ q)))
            (
              here i s (e, q) (ap classify (sym (slice_event bytes parsed i))),
              ap (λ z. is_lifecycle (classify z)) (slice_event bytes parsed i) ∙ q,
            )
