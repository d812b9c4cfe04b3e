-- ===== src/Priming/Terminating.antt =====
-- The loops over the events of a buffer, of `prime_sse` and `classify_complete_sse` of
-- crates/routing-service/src/model/commitment.rs, come to their end.
use muxvia.Prelude.{
  ℕ, zero, suc, ◌+◌, ◌-◌, ◌≤◌, ◌≡◌, refl, ap, sym, ◌∙◌, subst, ◌≢◌, ==_iff, true, false, not, Bytes,
  length, length-drop, drop, none, some, arith, inl, inr, Bool-cases, Option-cases, ◌==◌,
  if◌then◌else◌,
}
use muxvia.Sse.{
  EventClass, malformed, is_lifecycle, find_boundary, next_event, slice, complete_loop,
}
use muxvia.Sse.Boundary.{find_boundary_bounds, find_none}
use muxvia.Priming.{Scan, more, decided, scan_events}
use muxvia.Priming.Scanning.{next_none, next_some, drop_all, scan_quiet, scan_loud}
use muxvia.Priming.Complete.{complete_quiet, complete_loud}

-- The two loops as the source has them, without a bound on their rounds: a derivation is a run that
-- comes to an end, with its result.
module _ (classify : Bytes → EventClass) (bytes : Bytes) where
  pub data ScanRuns : ℕ → Scan → Type 0 where
    scan_waits : {parsed : ℕ} → next_event bytes parsed ≡ none → ScanRuns parsed (more parsed)
    scan_decides :
        {parsed : ℕ} (end s : ℕ)
        → next_event bytes parsed ≡ some (end, s)
        → is_lifecycle (classify (slice parsed end bytes)) ≡ false
        → ScanRuns parsed (decided (classify (slice parsed end bytes)))
    scan_continues :
        {parsed : ℕ} {result : Scan} (end s : ℕ)
        → next_event bytes parsed ≡ some (end, s)
        → is_lifecycle (classify (slice parsed end bytes)) ≡ true
        → ScanRuns (end + s) result
        → ScanRuns parsed result

  pub data CompleteRuns : ℕ → EventClass → EventClass → Type 0 where
    complete_ends :
        {parsed : ℕ} {last : EventClass}
        → next_event bytes parsed ≡ none
        → parsed ≡ length bytes
        → CompleteRuns parsed last last
    complete_breaks_off :
        {parsed : ℕ} {last : EventClass}
        → next_event bytes parsed ≡ none
        → parsed ≢ length bytes
        → CompleteRuns parsed last malformed
    complete_decides :
        {parsed : ℕ} {last : EventClass} (end s : ℕ)
        → next_event bytes parsed ≡ some (end, s)
        → is_lifecycle (classify (slice parsed end bytes)) ≡ false
        → CompleteRuns parsed last (classify (slice parsed end bytes))
    complete_continues :
        {parsed : ℕ} {last result : EventClass} (end s : ℕ)
        → next_event bytes parsed ≡ some (end, s)
        → is_lifecycle (classify (slice parsed end bytes)) ≡ true
        → CompleteRuns (end + s) (classify (slice parsed end bytes)) result
        → CompleteRuns parsed last result

module _ (classify : Bytes → EventClass) (bytes : Bytes) where
  -- No event is left to either loop.
  complete_stop :
      (fuel parsed : ℕ) (last : EventClass)
      → next_event bytes parsed ≡ none
      → complete_loop classify fuel bytes parsed last
        ≡ (if not (parsed == length bytes) then malformed else last)
  unfolding complete_loop
  complete_stop zero parsed last e = refl
  complete_stop (suc fuel) parsed last e = rw (e, complete_loop) refl

  scan_stop :
      (fuel parsed : ℕ)
      → next_event bytes parsed ≡ none
      → scan_events classify fuel bytes parsed ≡ more parsed
  unfolding scan_events
  scan_stop zero parsed e = refl
  scan_stop (suc fuel) parsed e = rw (e, scan_events) refl

  nothing_left : (parsed : ℕ) → length bytes ≤ parsed → next_event bytes parsed ≡ none
  nothing_left parsed h =
      next_none bytes parsed (ap find_boundary (drop_all parsed bytes h) ∙ find_none)

  -- A round goes forward.
  event_room :
      (parsed i s : ℕ)
      → parsed ≤ length bytes
      → find_boundary (drop parsed bytes) ≡ some (i, s)
      → (parsed + i + s ≤ length bytes) × (suc parsed ≤ parsed + i + s)
  event_room parsed i s h e =
      let room = find_boundary_bounds (drop parsed bytes) i s e in
      let len = length-drop parsed bytes in (omega arith, omega arith)

  complete_done :
      (fuel parsed : ℕ) (last : EventClass)
      → next_event bytes parsed ≡ none
      → CompleteRuns classify bytes parsed last (complete_loop classify fuel bytes parsed last)
  complete_done fuel parsed last e =
      subst (CompleteRuns classify bytes parsed last) (sym (complete_stop fuel parsed last e))
        (elim (Bool-cases (parsed == length bytes)) [
          | inl q ↦ rw q (complete_ends e ((==_iff parsed (length bytes)).0 q))
          | inr q ↦ rw q (
              complete_breaks_off e
                (λ same. absurd (clash (sym q ∙ (==_iff parsed (length bytes)).1 same))))
        ])
    where
      clash : false ≡ true → ⊥
      clash e = cc e

  scan_done :
      (fuel parsed : ℕ)
      → next_event bytes parsed ≡ none
      → ScanRuns classify bytes parsed (scan_events classify fuel bytes parsed)
  scan_done fuel parsed e =
      subst (ScanRuns classify bytes parsed) (sym (scan_stop fuel parsed e)) (scan_waits e)

  complete_loop-Runs :
      (fuel parsed : ℕ) (last : EventClass)
      → parsed ≤ length bytes
      → length bytes - parsed ≤ fuel
      → CompleteRuns classify bytes parsed last (complete_loop classify fuel bytes parsed last)
  complete_loop-Runs zero parsed last h enough =
      complete_done zero parsed last (nothing_left parsed (omega arith))
  complete_loop-Runs (suc fuel) parsed last h enough =
      elim (Option-cases (find_boundary (drop parsed bytes))) [
        | inl e ↦ complete_done (suc fuel) parsed last (next_none bytes parsed e)
        | inr ((i, s), e) ↦
            let found = next_some bytes parsed i s h e in
            let room = event_room parsed i s h e in
            elim (Bool-cases (is_lifecycle (classify (slice parsed (parsed + i) bytes)))) [
              | inl q ↦
                  subst (CompleteRuns classify bytes parsed last)
                    (sym (complete_quiet classify fuel bytes parsed last (parsed + i) s found q))
                    (complete_continues (parsed + i) s found q
                      (complete_loop-Runs fuel (parsed + i + s) _ room.0 (omega arith)))
              | inr q ↦
                  subst (CompleteRuns classify bytes parsed last)
                    (sym (complete_loud classify fuel bytes parsed last (parsed + i) s found q))
                    (complete_decides (parsed + i) s found q)
            ]
      ]

  scan_events-Runs :
      (fuel parsed : ℕ)
      → parsed ≤ length bytes
      → length bytes - parsed ≤ fuel
      → ScanRuns classify bytes parsed (scan_events classify fuel bytes parsed)
  scan_events-Runs zero parsed h enough = scan_done zero parsed (nothing_left parsed (omega arith))
  scan_events-Runs (suc fuel) parsed h enough =
      elim (Option-cases (find_boundary (drop parsed bytes))) [
        | inl e ↦ scan_done (suc fuel) parsed (next_none bytes parsed e)
        | inr ((i, s), e) ↦
            let found = next_some bytes parsed i s h e in
            let room = event_room parsed i s h e in
            elim (Bool-cases (is_lifecycle (classify (slice parsed (parsed + i) bytes)))) [
              | inl q ↦
                  subst (ScanRuns classify bytes parsed)
                    (sym (scan_quiet classify fuel bytes parsed (parsed + i) s found q))
                    (scan_continues (parsed + i) s found q
                      (scan_events-Runs fuel (parsed + i + s) room.0 (omega arith)))
              | inr q ↦
                  subst (ScanRuns classify bytes parsed)
                    (sym (scan_loud classify fuel bytes parsed (parsed + i) s found q))
                    (scan_decides (parsed + i) s found q)
            ]
      ]

-- From any place of a buffer, both loops over its events, written without a bound on their rounds,
-- have a run that ends, and its result is the one of the functions with as many rounds as bytes are
-- left, or more.
pub loops-terminate :
    (classify : Bytes → EventClass) (bytes : Bytes) (fuel parsed : ℕ) (last : EventClass)
    → parsed ≤ length bytes
    → length bytes - parsed ≤ fuel
    → ScanRuns classify bytes parsed (scan_events classify fuel bytes parsed)
      × CompleteRuns classify bytes parsed last (complete_loop classify fuel bytes parsed last)
loops-terminate classify bytes fuel parsed last h enough = (
  scan_events-Runs classify bytes fuel parsed h enough,
  complete_loop-Runs classify bytes fuel parsed last h enough,
)
