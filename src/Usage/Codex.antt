-- ===== src/Usage/Codex.antt =====
-- The usage in responses of the Codex target: `CodexUsageParser` of
-- crates/routing-service/src/model/request_recorder.rs.
use muxvia.Prelude.{
  ℕ, ◌-◌, Bool, true, not, ◌&&◌, Option, none, some, [], ◌++◌, Bytes, length, min, if◌then◌else◌,
}
use muxvia.Text.{Text, codes}
use muxvia.Json.{JsonLib}
use muxvia.Pricing.{RequestUsage}
use muxvia.Usage.{
  StreamFormat, drain_events, or_else, bind, or_zero, is_sse, overflows, sse_value, number,
  usage_of,
}

pub record CodexUsageParser : Type 0 where
  pub format : StreamFormat
  pub pending : Bytes
  pub usage : Option RequestUsage
  pub disabled : Bool

module _ (lib : JsonLib) where
  open lib use {Value, from_slice, get, as_u64}

  -- A member of the usage object, or else one of its details.
  unfoldable pub detailed : Value → Text → Text → ℕ
  detailed usage key detail = or_zero (
      bind
        (or_else (get usage key)
          (bind (get usage (codes "input_tokens_details")) λ details. get details detail))
        as_u64)

  -- The counts that the input is split into.
  unfoldable pub split_input : (input output cached creation : ℕ) → RequestUsage
  split_input input output cached creation =
      let cached = min cached input in
      let creation = min creation (input - cached) in
      record {
        input_tokens = input - cached - creation;
        cached_input_tokens = cached;
        cache_creation_input_tokens = creation;
        output_tokens = output;
      }

  unfoldable pub codex_counts : Value → Option ℕ → Option ℕ → Option RequestUsage
  unfolding split_input detailed
  codex_counts usage (some input) (some output) = some (
      split_input input output
        (detailed usage (codes "cache_read_input_tokens") (codes "cached_tokens"))
        (detailed usage (codes "cache_creation_input_tokens") (codes "cache_write_tokens")))
  codex_counts usage _ _ = none

  unfoldable pub codex_usage : Value → Option RequestUsage
  unfolding usage_of number codex_counts
  codex_usage value = bind (usage_of lib (codes "response") value) λ usage.
      codex_counts usage (number lib usage (codes "input_tokens"))
        (number lib usage (codes "output_tokens"))

  -- `CodexUsageParser::observe_value`
  unfoldable pub codex_observe_value : Option Value → Option RequestUsage → Option RequestUsage
  unfolding codex_usage
  codex_observe_value none usage = usage
  codex_observe_value (some value) usage = or_else (codex_usage value) usage

  -- `CodexUsageParser::observe_event`
  unfoldable pub codex_observe_event : Bytes → Option RequestUsage → Option RequestUsage
  unfolding sse_value codex_observe_value
  codex_observe_event event = codex_observe_value (sse_value lib event)

  -- `CodexUsageParser::push`
  unfoldable pub codex_push : CodexUsageParser → Bytes → CodexUsageParser
  unfolding overflows is_sse drain_events codex_observe_event
  codex_push parser bytes =
      if parser.disabled
      then parser
      else if overflows parser.pending bytes
      then record parser { pending = []; disabled = true }
      else if not (is_sse parser.format)
      then record parser { pending = parser.pending ++ bytes }
      else let (pending, usage) =
          drain_events codex_observe_event (length (parser.pending ++ bytes))
            (parser.pending ++ bytes) parser.usage in
        record parser { pending = pending; usage = usage }

  -- `CodexUsageParser::finish`
  unfoldable pub codex_finish : CodexUsageParser → Option RequestUsage
  unfolding is_sse codex_observe_value
  codex_finish parser =
      if not parser.disabled && not (is_sse parser.format)
      then codex_observe_value (from_slice parser.pending) parser.usage
      else parser.usage
