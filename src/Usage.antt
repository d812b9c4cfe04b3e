-- ===== src/Usage.antt =====
-- The parsers of token usage, the second half of crates/routing-service/src/model/request_recorder.rs.
-- They read the chunks of a response that go by, and keep one event at most.
pub mod Codex
pub mod Claude
pub mod Counted
use muxvia.Prelude.{
  ℕ, zero, suc, ◌+◌, ◌-◌, Bool, true, false, not, ◌&&◌, Option, none, some, List, [], ◌∷◌, ◌++◌,
  Bytes, length, take, drop, min, ltb, ◌==◌, if◌then◌else◌, u64_max,
}
use muxvia.Text.{Text, codes, strip_prefix}
use muxvia.Json.{JsonLib}
use muxvia.Pricing.{RequestUsage}

-- `MAX_USAGE_EVENT_BYTES`
abbrev pub max_usage_event_bytes : ℕ
max_usage_event_bytes = 262144

pub data StreamFormat : Type 0 where
  sse json : StreamFormat

-- `windows(2).position(|window| window == b"\n\n")`
unfoldable pub blank_line : Bytes → Option ℕ
blank_line [] = none
blank_line (a ∷ []) = none
blank_line (a ∷ b ∷ bs) =
    let rest = blank_line (b ∷ bs) in
    if a == 10 && b == 10 then some 0 else elim rest [ none ↦ none | some i ↦ some (suc i) ]

-- The `while` loop of both `push`: each round takes two bytes at least off the pending ones, so as
-- many rounds as there are bytes are enough.
unfoldable pub drain_events {ℓ} :
    {S : Type ℓ} → (observe : Bytes → S → S) → ℕ → Bytes → S → Bytes × S
unfolding blank_line
drain_events observe zero pending s = (pending, s)
drain_events observe (suc fuel) pending s = elim (blank_line pending) [
  | none ↦ (pending, s)
  | some end ↦
      drain_events observe fuel (drop (end + 2) pending) (observe (take (end + 2) pending) s)
]

-- `split(|byte| *byte == b'\n')`
add_first : ℕ → List Bytes → List Bytes
add_first b [] = (b ∷ []) ∷ []
add_first b (line ∷ lines) = (b ∷ line) ∷ lines

unfoldable pub split_lines : Bytes → List Bytes
unfolding add_first
split_lines [] = [] ∷ []
split_lines (b ∷ bs) = let rest = split_lines bs in if b == 10 then [] ∷ rest else add_first b rest

-- `value.strip_prefix(b" ").unwrap_or(value)`
without_space : Bytes → Bytes
without_space [] = []
without_space (b ∷ bs) = if b == 32 then bs else b ∷ bs

join_data : Bytes → Bytes → Bytes
join_data [] value = value
join_data (d ∷ data_bytes) value = (d ∷ data_bytes) ++ 10 ∷ value

data_lines : Bytes → List Bytes → Bytes
unfolding strip_prefix without_space join_data
data_lines data_bytes [] = data_bytes
data_lines data_bytes (line ∷ lines) = elim (strip_prefix (codes "data:") line) [
  | none ↦ data_lines data_bytes lines
  | some value ↦ data_lines (join_data data_bytes (without_space value)) lines
]

abbrev pub or_else {ℓ} : {A : Type ℓ} → Option A → Option A → Option A
or_else none o = o
or_else (some a) o = some a

abbrev pub bind {ℓ κ} : {A : Type ℓ} {B : Type κ} → Option A → (A → Option B) → Option B
bind none f = none
bind (some a) f = f a

abbrev pub or_zero : Option ℕ → ℕ
or_zero none = 0
or_zero (some n) = n

unfoldable pub is_sse : StreamFormat → Bool
is_sse sse = true
is_sse json = false

-- The chunk does not fit behind the pending bytes.
unfoldable pub overflows : Bytes → Bytes → Bool
overflows pending bytes = ltb max_usage_event_bytes (min (length pending + length bytes) u64_max)

module _ (lib : JsonLib) where
  open lib use {Value, from_slice, get, as_u64}

  unfoldable pub sse_value : Bytes → Option Value
  unfolding split_lines data_lines
  sse_value event = from_slice (data_lines [] (split_lines event))

  unfoldable pub number : Value → Text → Option ℕ
  number value key = bind (get value key) as_u64

  -- The usage object, below `response` or `message`, or at the top.
  unfoldable pub usage_of : Text → Value → Option Value
  usage_of outer value =
      or_else (bind (get value outer) λ inner. get inner (codes "usage"))
        (get value (codes "usage"))
