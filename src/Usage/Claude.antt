-- ===== src/Usage/Claude.antt =====
-- The usage in responses of the Claude target: `ClaudeUsageParser` of
-- crates/routing-service/src/model/request_recorder.rs.
use muxvia.Prelude.{
  ℕ, Bool, true, false, not, ◌&&◌, Option, none, some, [], ◌++◌, Bytes, length, if◌then◌else◌,
}
use muxvia.Text.{codes}
use muxvia.Json.{JsonLib}
use muxvia.Pricing.{RequestUsage}
use muxvia.Usage.{StreamFormat, drain_events, is_sse, overflows, sse_value, number, usage_of}

pub record ClaudeUsageParser : Type 0 where
  pub format : StreamFormat
  pub pending : Bytes
  pub usage : RequestUsage
  pub observed : Bool
  pub disabled : Bool

abbrev pub no_usage : RequestUsage
no_usage = record {
  input_tokens = 0;
  cached_input_tokens = 0;
  cache_creation_input_tokens = 0;
  output_tokens = 0;
}

module _ (lib : JsonLib) where
  open lib use {Value, from_slice, get, as_u64}

  -- A count that is there replaces the one before.
  replace : Option ℕ → (ℕ → RequestUsage → RequestUsage) → RequestUsage × Bool → RequestUsage × Bool
  replace none set s = s
  replace (some n) set (usage, observed) = (set n usage, true)

  claude_counts : Option Value → RequestUsage × Bool → RequestUsage × Bool
  unfolding replace number
  claude_counts none s = s
  claude_counts (some usage) s =
      replace (number lib usage (codes "output_tokens")) (λ n u. record u { output_tokens = n })
        (replace (number lib usage (codes "cache_creation_input_tokens"))
          (λ n u. record u { cache_creation_input_tokens = n })
          (replace (number lib usage (codes "cache_read_input_tokens"))
            (λ n u. record u { cached_input_tokens = n })
            (replace (number lib usage (codes "input_tokens"))
              (λ n u. record u { input_tokens = n }) s)))

  -- `ClaudeUsageParser::observe_value`
  unfoldable pub claude_observe_value : Option Value → RequestUsage × Bool → RequestUsage × Bool
  unfolding claude_counts usage_of
  claude_observe_value none s = s
  claude_observe_value (some value) s = claude_counts (usage_of lib (codes "message") value) s

  unfoldable pub claude_observe_event : Bytes → RequestUsage × Bool → RequestUsage × Bool
  unfolding sse_value claude_observe_value
  claude_observe_event event = claude_observe_value (sse_value lib event)

  -- `ClaudeUsageParser::push`
  unfoldable pub claude_push : ClaudeUsageParser → Bytes → ClaudeUsageParser
  unfolding overflows is_sse drain_events claude_observe_event
  claude_push parser bytes =
      if parser.disabled
      then parser
      else if overflows parser.pending bytes
      then record parser { pending = []; disabled = true }
      else if not (is_sse parser.format)
      then record parser { pending = parser.pending ++ bytes }
      else let (pending, s) =
          drain_events claude_observe_event (length (parser.pending ++ bytes))
            (parser.pending ++ bytes) (parser.usage, parser.observed) in
        record parser { pending = pending; usage = s.0; observed = s.1 }

  observed_usage : RequestUsage × Bool → Option RequestUsage
  observed_usage (usage, true) = some usage
  observed_usage (usage, false) = none

  -- `ClaudeUsageParser::finish`
  unfoldable pub claude_finish : ClaudeUsageParser → Option RequestUsage
  unfolding is_sse claude_observe_value observed_usage
  claude_finish parser = observed_usage (
      if not parser.disabled && not (is_sse parser.format)
      then claude_observe_value (from_slice parser.pending) (parser.usage, parser.observed)
      else (parser.usage, parser.observed))
