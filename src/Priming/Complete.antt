-- ===== src/Priming/Complete.antt =====
-- The loop of `classify_complete_sse`, crates/routing-service/src/model/commitment.rs, against the
-- same relations, and both loops.
use muxvia.Prelude.{
  ℕ, zero, suc, ◌+◌, ◌-◌, ◌≤◌, ◌≡◌, refl, ap, sym, ◌∙◌, Bool, true, false, not, [], Bytes, length,
  length-drop, drop, none, some, arith, ◌⊎◌, inl, inr, Bool-cases, Option-cases, ◌==◌,
  if◌then◌else◌,
}
use muxvia.Sse.{
  EventClass, lifecycle, malformed, is_lifecycle, find_boundary, next_event, slice, complete_loop,
  classify_complete,
}
use muxvia.Sse.Boundary.{find_boundary_bounds, find_none}
use muxvia.Priming.{Body, prime_loop}
use muxvia.Priming.Settles.{
  Event, here, later, stuck, skip, drop-drop, Settles-unique, Settles-not-Pends,
}
use muxvia.Priming.Scanning.{next_none, next_some, slice_event, drop_all}
use muxvia.Priming.Chunks.{
  IsTimely, bytes_before_fault, Verdict, retries, verdict, verdict_of, Judges, prime_loop-Judges,
}

lifecycle_only : (c : EventClass) → is_lifecycle c ≡ true → verdict_of c ≡ retries
unfolding is_lifecycle
lifecycle_only c e = ground arith

module _ (classify : Bytes → EventClass) (fuel : ℕ) (bytes : Bytes) (parsed : ℕ)
    (last : EventClass) where
  complete_none :
      next_event bytes parsed ≡ none
      → is_lifecycle last ≡ true
      → verdict_of (complete_loop classify (suc fuel) bytes parsed last) ≡ retries
  unfolding complete_loop
  complete_none e q = rw (e, complete_loop) (either (parsed == length bytes))
    where
      either : (b : Bool) → verdict_of (if not b then malformed else last) ≡ retries
      either true = lifecycle_only last q
      either false = refl

  complete_zero :
      is_lifecycle last ≡ true
      → verdict_of (complete_loop classify zero bytes parsed last) ≡ retries
  unfolding complete_loop
  complete_zero q = either (parsed == length bytes)
    where
      either : (b : Bool) → verdict_of (if not b then malformed else last) ≡ retries
      either true = lifecycle_only last q
      either false = refl

  pub complete_quiet :
      (end s : ℕ)
      → next_event bytes parsed ≡ some (end, s)
      → is_lifecycle (classify (slice parsed end bytes)) ≡ true
      → complete_loop classify (suc fuel) bytes parsed last
        ≡ complete_loop classify fuel bytes (end + s) (classify (slice parsed end bytes))
  unfolding complete_loop
  complete_quiet end s e q = rw (e, complete_loop) (rw (q, complete_loop) refl)

  pub complete_loud :
      (end s : ℕ)
      → next_event bytes parsed ≡ some (end, s)
      → is_lifecycle (classify (slice parsed end bytes)) ≡ false
      → complete_loop classify (suc fuel) bytes parsed last ≡ classify (slice parsed end bytes)
  unfolding complete_loop
  complete_loud end s e q = rw (e, complete_loop) (rw (q, complete_loop) refl)

module _ (classify : Bytes → EventClass) (bytes : Bytes) where
  abbrev Judged : ℕ → EventClass → Type 0
  Judged parsed result = Judges classify (drop parsed bytes) (verdict_of result)

  complete_loop-Judges :
      (fuel parsed : ℕ) (last : EventClass)
      → parsed ≤ length bytes
      → length bytes - parsed ≤ fuel
      → is_lifecycle last ≡ true
      → Judged parsed (complete_loop classify fuel bytes parsed last)
  complete_loop-Judges zero parsed last h enough q = inr (
    stuck (ap find_boundary (drop_all parsed bytes (omega arith)) ∙ find_none),
    complete_zero classify zero bytes parsed last q,
  )
  complete_loop-Judges (suc fuel) parsed last h enough q =
      elim (Option-cases (find_boundary (drop parsed bytes))) [
        | inl e ↦
            inr
              (stuck e, complete_none classify fuel bytes parsed last (next_none bytes parsed e) q)
        | inr ((i, s), e) ↦
            by_class i s e (Bool-cases (is_lifecycle (classify (slice parsed (parsed + i) bytes))))
              (complete_loop-Judges fuel (parsed + i + s)
                (classify (slice parsed (parsed + i) bytes)))
      ]
    where
      by_class :
          (i s : ℕ)
          → find_boundary (drop parsed bytes) ≡ some (i, s)
          → (is_lifecycle (classify (slice parsed (parsed + i) bytes)) ≡ true)
            ⊎ (is_lifecycle (classify (slice parsed (parsed + i) bytes)) ≡ false)
          → (parsed + i + s ≤ length bytes
              → length bytes - (parsed + i + s) ≤ fuel
              → is_lifecycle (classify (slice parsed (parsed + i) bytes)) ≡ true
              → Judged (parsed + i + s) (
                  complete_loop classify fuel bytes
                    (parsed + i + s)
                    (classify (slice parsed (parsed + i) bytes))))
          → Judged parsed (complete_loop classify (suc fuel) bytes parsed last)
      by_class i s e (inl k) next =
          let room = find_boundary_bounds (drop parsed bytes) i s e in
          let len = length-drop parsed bytes in
          let event : Event classify (drop parsed bytes) i s true =
            (e, ap (λ z. is_lifecycle (classify z)) (sym (slice_event bytes parsed i)) ∙ k) in
          let rest : drop (i + s) (drop parsed bytes) ≡ drop (parsed + i + s) bytes =
            drop-drop parsed (i + s) bytes ∙ ap (λ n. drop n bytes) (assoc parsed i s) in
          let step = ap verdict_of (
            complete_quiet classify fuel bytes parsed last (parsed + i) s
              (next_some bytes parsed i s h e) k) in
          elim (next (omega arith) (omega arith) k) [
            | inl (c, t, loud, v) ↦ inl (c, later i s _ event rest t, loud, step ∙ v)
            | inr (p, v) ↦ inr (skip i s _ event rest p, step ∙ v)
          ]
        where
          assoc : (a b c : ℕ) → a + (b + c) ≡ a + b + c
          assoc a b c = omega arith
      by_class i s e (inr k) next =
          let found = next_some bytes parsed i s h e in
          inl (
            _,
            here i s (e, ap (λ z. is_lifecycle (classify z)) (sym (slice_event bytes parsed i)) ∙ k)
                (ap classify (sym (slice_event bytes parsed i))),
            k,
            ap verdict_of (complete_loud classify fuel bytes parsed last (parsed + i) s found k),
          )

  classify_complete-Judges : Judged 0 (classify_complete classify bytes)
  unfolding classify_complete
  classify_complete-Judges =
      complete_loop-Judges (length bytes) 0 lifecycle (omega arith) (omega arith)
        (unfold is_lifecycle in refl)

Judges-unique :
    (classify : Bytes → EventClass) (xs : Bytes) (v w : Verdict)
    → Judges classify xs v
    → Judges classify xs w
    → v ≡ w
Judges-unique classify xs v w (inl (c, s, _, e)) (inl (d, t, _, f)) =
    e ∙ ap verdict_of (Settles-unique classify s t) ∙ sym f
Judges-unique classify xs v w (inl (c, s, _, e)) (inr (p, f)) =
    absurd (Settles-not-Pends classify s p)
Judges-unique classify xs v w (inr (p, e)) (inl (d, t, _, f)) =
    absurd (Settles-not-Pends classify t p)
Judges-unique classify xs v w (inr (p, e)) (inr (q, f)) = e ∙ sym f

-- For every classification of events and every division of the body into chunks: if the body
-- arrives in time and within the byte limit, the incremental loop commits, fails or retries as the
-- classification of the complete bytes says, those up to the first fault if there is one.
pub prime_loop-classify_complete :
    (classify : Bytes → EventClass) (body : Body)
    → IsTimely 0 body
    → verdict (prime_loop classify body [] [] 0)
      ≡ verdict_of (classify_complete classify (bytes_before_fault body))
prime_loop-classify_complete classify body timely =
    Judges-unique classify (bytes_before_fault body) _ _
      (prime_loop-Judges classify body [] [] 0 (omega arith) (stuck find_none) timely)
      (classify_complete-Judges classify (bytes_before_fault body))
