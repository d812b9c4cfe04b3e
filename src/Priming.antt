-- ===== src/Priming.antt =====
-- The loops of crates/routing-service/src/model/commitment.rs that read the start of an upstream
-- body, until it is clear whether the response is committed to the client. A body is the list of
-- what its stream yields, with the times that the loops see.
pub mod Steps
pub mod Signals
pub mod Settles
pub mod Scanning
pub mod Chunks
pub mod Complete
pub mod Terminating
mod Tests
use muxvia.Prelude.{
  ℕ, zero, suc, ◌+◌, ◌-◌, Bool, true, false, not, ◌&&◌, ◌||◌, Option, none, some, List, [], ◌∷◌,
  ◌++◌, Bytes, length, min, u64_max, ltb, leb, if◌then◌else◌, bytes_eq,
}
use muxvia.Sse.{
  EventClass, lifecycle, productive, non_failure_terminal, convertible_failure, failure, malformed,
  is_lifecycle, next_event, slice, classify_sse_event, classify_complete_sse,
}

-- `PRIMING_BYTE_LIMIT`, and `PRIMING_TIME_LIMIT` in nanoseconds.
abbrev pub priming_byte_limit : ℕ
priming_byte_limit = 1048576

abbrev pub priming_time_limit : ℕ
priming_time_limit = 250000000

-- When an item is asked for, since the priming began, and how long it lets wait.
pub record Timing : Type 0 where
  pub elapsed : ℕ
  pub wait : ℕ

abbrev pub at_once : Timing
at_once = record { elapsed = 0; wait = 0 }

pub data Body : Type 0 where
  finish : Timing → Body
  fault : Timing → Body → Body
  chunk : Timing → Bytes → Body → Body

-- `stream::iter(prefix.into_iter().map(Ok)).chain(body)`
unfoldable pub chain : List Bytes → Body → Body
chain [] body = body
chain (bytes ∷ prefix) body = chunk at_once bytes (chain prefix body)

-- The time limit has passed when the item is asked for, or before it arrives.
unfoldable pub is_late : Timing → Bool
is_late t = ltb priming_time_limit t.elapsed || ltb (priming_time_limit - t.elapsed) t.wait

unfoldable pub exceeds : ℕ → ℕ → Bool
exceeds held more = ltb priming_byte_limit (min (held + more) u64_max)

-- The inner loop of `prime_sse`: the buffered events that are complete.
pub data Scan : Type 0 where
  more : (parsed : ℕ) → Scan
  decided : EventClass → Scan

-- Each round goes forward by at least two bytes, so as many rounds as there are bytes are enough.
unfoldable pub scan_events : (Bytes → EventClass) → ℕ → Bytes → ℕ → Scan
unfolding is_lifecycle
scan_events classify zero bytes parsed = more parsed
scan_events classify (suc fuel) bytes parsed = elim (next_event bytes parsed) [
  | none ↦ more parsed
  | some (end, separator) ↦ elim (is_lifecycle (classify (slice parsed end bytes))) [
    | true ↦ scan_events classify fuel bytes (end + separator)
    | false ↦ decided (classify (slice parsed end bytes))
  ]
]

-- What the priming of a body leads to, with the chunks that were read and what is left.
pub data Primed : Type 0 where
  commit : List Bytes → Body → Primed
  commit_failure : List Bytes → Body → Primed
  retry : Primed

unfoldable pub act_on : EventClass → List Bytes → Body → Primed
act_on productive prefix rest = commit prefix rest
act_on non_failure_terminal prefix rest = commit prefix rest
act_on convertible_failure prefix rest = commit_failure prefix rest
act_on _ prefix rest = retry

-- The outer loop of `prime_sse`.
unfoldable pub prime_loop : (Bytes → EventClass) → Body → List Bytes → Bytes → ℕ → Primed
unfolding is_late exceeds scan_events act_on
prime_loop classify (finish t) buffered semantic parsed =
    if is_late t then commit buffered (finish t) else retry
prime_loop classify (fault t rest) buffered semantic parsed =
    if is_late t then commit buffered (fault t rest) else retry
prime_loop classify (chunk t bytes rest) buffered semantic parsed = elim (is_late t) [
  | true ↦ commit buffered (chunk t bytes rest)
  | false ↦ elim (exceeds (length semantic) (length bytes)) [
    | true ↦ commit (buffered ++ bytes ∷ []) rest
    | false ↦ elim (scan_events classify (length (semantic ++ bytes)) (semantic ++ bytes) parsed) [
      | decided class ↦ act_on class (buffered ++ bytes ∷ []) rest
      | more parsed' ↦ prime_loop classify rest (buffered ++ bytes ∷ []) (semantic ++ bytes) parsed'
    ]
  ]
]

-- `collect_bounded`, with what is left of the body.
pub data BoundedCollection : Type 0 where
  complete : Bytes → BoundedCollection
  partial : List Bytes → Body → BoundedCollection
  broken : BoundedCollection

unfoldable pub collect_bounded : Body → Bytes → List Bytes → BoundedCollection
unfolding is_late exceeds
collect_bounded (finish t) bytes chunks =
    if is_late t then partial chunks (finish t) else complete bytes
collect_bounded (fault t rest) bytes chunks =
    if is_late t then partial chunks (fault t rest) else broken
collect_bounded (chunk t new rest) bytes chunks = elim (is_late t) [
  | true ↦ partial chunks (chunk t new rest)
  | false ↦ elim (exceeds (length bytes) (length new)) [
    | true ↦ partial (chunks ++ new ∷ []) rest
    | false ↦ collect_bounded rest (bytes ++ new) (chunks ++ new ∷ [])
  ]
]

-- A body that has been read to its end.
abbrev pub exhausted : Body
exhausted = finish at_once

-- What follows the collection, given what becomes of a complete body.
unfoldable pub after_collection : (Bytes → Primed) → BoundedCollection → Primed
after_collection decide (complete bytes) = decide bytes
after_collection decide (partial chunks rest) = commit chunks rest
after_collection decide broken = retry
