-- ===== src/Sse.antt =====
-- The server-sent events of crates/routing-service/src/model/commitment.rs: where an event ends,
-- what one says, and the classification of a complete body.
pub mod Boundary
use muxvia.Prelude.{
  ℕ, zero, suc, ◌+◌, ◌-◌, ◌≤◌, Bool, true, false, not, ◌&&◌, ◌||◌, Option, none, some, List, [],
  ◌∷◌, ◌++◌, Bytes, bytes_eq, length, take, drop, leb, ◌==◌, if◌then◌else◌,
}
use muxvia.Domain.{Target, codex, claude}
use muxvia.Text.{
  Text, codes, from_utf8, lines, trim, trim_start, strip_prefix, starts_with, is_some,
}
use muxvia.Json.{JsonLib}
use mathlib.Core.Option

starts_crlf_pair : Bytes → Bool
unfolding starts_with strip_prefix
starts_crlf_pair bytes = starts_with (codes "\r\n\r\n") bytes

starts_lf_pair : Bytes → Bool
unfolding starts_with strip_prefix
starts_lf_pair bytes = starts_with (codes "\n\n") bytes

unfoldable pub shift_boundary : ℕ → ℕ × ℕ → ℕ × ℕ
shift_boundary n (i, separator) = (n + i, separator)

-- The first place of a blank line, from the front of the bytes, and the length of the line end.
unfoldable pub find_boundary : Bytes → Option (ℕ × ℕ)
unfolding starts_crlf_pair starts_lf_pair shift_boundary
find_boundary [] = none
find_boundary (b ∷ bs) =
    if starts_crlf_pair (b ∷ bs)
    then some (0, 4)
    else if starts_lf_pair (b ∷ bs)
    then some (0, 2)
    else Option.map (shift_boundary 1) (find_boundary bs)

-- The end of the event that starts at `from`, and the length of its separator.
unfoldable pub next_event : Bytes → ℕ → Option (ℕ × ℕ)
unfolding find_boundary shift_boundary
next_event bytes from =
    if leb from (length bytes)
    then Option.map (shift_boundary from) (find_boundary (drop from bytes))
    else none

-- `&bytes[from..end]`
abbrev pub slice : ℕ → ℕ → Bytes → Bytes
slice from end bytes = take (end - from) (drop from bytes)

pub data EventClass : Type 0 where
  lifecycle productive non_failure_terminal convertible_failure failure malformed : EventClass

unfoldable pub is_lifecycle : EventClass → Bool
is_lifecycle lifecycle = true
is_lifecycle _ = false

-- The fields of one event: the joined data lines, and the event name.
pub record EventFields : Type 0 where
  pub data_text : Text
  pub saw_data : Bool
  pub wire_event_type : Option Text

abbrev pub no_fields : EventFields
no_fields = record { data_text = []; saw_data = false; wire_event_type = none }

add_data : EventFields → Text → EventFields
add_data f value = record f {
  data_text = (if f.saw_data then f.data_text ++ b'\n' ∷ [] else f.data_text) ++ trim_start value;
  saw_data = true;
}

is_empty : Text → Bool
is_empty [] = true
is_empty (c ∷ cs) = false

-- The name must not be empty, nor given twice.
add_event : EventFields → Text → Option EventFields
unfolding is_empty
add_event f value =
    if is_empty value || is_some f.wire_event_type
    then none
    else some (record f { wire_event_type = some value })

add_line : EventFields → Text → Option EventFields
unfolding add_data add_event
add_line f line = elim (strip_prefix (codes "data:") line) [
  | some value ↦ some (add_data f value)
  | none ↦ elim (strip_prefix (codes "event:") line) [
    | some value ↦ add_event f (trim value)
    | none ↦ some f
  ]
]

unfoldable pub event_fields : EventFields → List Text → Option EventFields
unfolding add_line
event_fields f [] = some f
event_fields f (line ∷ rest) = elim (add_line f line) [ none ↦ none | some g ↦ event_fields g rest ]

unfoldable pub classify_codex : Text → Bool → EventClass
classify_codex event_type convertible =
    let names = λ (name : Text). bytes_eq event_type name in
    if (names (codes "error") || names (codes "response.failed")) && convertible
    then convertible_failure
    else if names (codes "response.incomplete") && convertible
    then non_failure_terminal
    else if names (codes "error")
        || names (codes "response.failed")
        || names (codes "response.incomplete")
    then failure
    else if names (codes "response.created")
        || names (codes "response.in_progress")
        || names (codes "response.queued")
    then lifecycle
    else if names (codes "response.completed")
    then non_failure_terminal
    else if starts_with (codes "response.") event_type
    then productive
    else malformed

unfoldable pub classify_claude : Text → EventClass
classify_claude event_type =
    let names = λ (name : Text). bytes_eq event_type name in
    if names (codes "error")
    then failure
    else if names (codes "message_start")
        || names (codes "ping")
        || names (codes "content_block_start")
    then lifecycle
    else if names (codes "message_stop")
    then non_failure_terminal
    else if names (codes "content_block_delta")
        || names (codes "content_block_stop")
        || names (codes "message_delta")
    then productive
    else malformed

unfoldable pub classify_type : Target → Text → Bool → EventClass
unfolding classify_codex classify_claude
classify_type codex event_type convertible = classify_codex event_type convertible
classify_type claude event_type convertible = classify_claude event_type

or_else : Option Text → Option Text → Option Text
or_else (some a) b = some a
or_else none b = b

-- The wire name and the JSON type must not contradict one another.
disagree : Option Text → Option Text → Bool
disagree (some wire) (some json) = not (bytes_eq wire json)
disagree _ _ = false

module _ (json : JsonLib) where
  open json use {Value, from_str, get, as_str}

  abbrev type_of : Value → Option Text
  type_of value = elim (get value (codes "type")) [ none ↦ none | some v ↦ as_str v ]

  classify_value : Target → Bool → Option Text → Value → EventClass
  unfolding disagree or_else
  classify_value target convertible wire value =
      if disagree wire (type_of value) then malformed else elim (or_else (type_of value) wire) [
        | none ↦ malformed
        | some event_type ↦ classify_type target event_type convertible
      ]

  classify_fields : Target → Bool → EventFields → EventClass
  unfolding classify_value
  classify_fields target convertible f =
      if not f.saw_data
      then (if is_some f.wire_event_type then malformed else lifecycle)
      else if bytes_eq f.data_text (codes "[DONE]")
      then non_failure_terminal
      else elim (from_str f.data_text) [
        | none ↦ malformed
        | some value ↦ classify_value target convertible f.wire_event_type value
      ]

  unfoldable pub classify_sse_event : Bytes → Target → Bool → EventClass
  unfolding classify_fields
  classify_sse_event bytes target convertible = elim (from_utf8 bytes) [
    | none ↦ malformed
    | some text ↦ elim (event_fields no_fields (lines text)) [
      | none ↦ malformed
      | some f ↦ classify_fields target convertible f
    ]
  ]

-- The loop of `classify_complete_sse`, over any classification of events. Each round goes forward
-- by at least two bytes, so as many rounds as there are bytes are enough.
unfoldable pub complete_loop : (Bytes → EventClass) → ℕ → Bytes → ℕ → EventClass → EventClass
unfolding is_lifecycle
complete_loop classify zero bytes parsed last =
    if not (parsed == length bytes) then malformed else last
complete_loop classify (suc fuel) bytes parsed last = elim (next_event bytes parsed) [
  | none ↦ if not (parsed == length bytes) then malformed else last
  | some (end, separator) ↦ elim (is_lifecycle (classify (slice parsed end bytes))) [
    | true ↦ complete_loop classify fuel bytes (end + separator) (classify (slice parsed end bytes))
    | false ↦ classify (slice parsed end bytes)
  ]
]

unfoldable pub classify_complete : (Bytes → EventClass) → Bytes → EventClass
unfolding complete_loop
classify_complete classify bytes = complete_loop classify (length bytes) bytes 0 lifecycle

unfoldable pub classify_complete_sse : JsonLib → Bytes → Target → Bool → EventClass
unfolding classify_complete
classify_complete_sse json bytes target convertible =
    classify_complete (λ event. classify_sse_event json event target convertible) bytes
