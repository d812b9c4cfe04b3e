-- ===== src/Observation/Bounds.antt =====
-- How much a usage parser holds, whatever passes by.
use muxvia.Prelude.{◌≤◌, ◌≡◌, refl, sym, subst, List, [], ◌∷◌, Bytes, length, arith}
use muxvia.Json.{JsonLib}
use muxvia.Usage.{max_usage_event_bytes}
use muxvia.Usage.Counted.{codex_push-bounded, claude_push-bounded}
use muxvia.Observation.{
  UsageParser, codex, claude, ResponseUsageFormat, codex_sse, codex_json, claude_sse, claude_json,
  new_parser, push,
}

abbrev pub pending_bytes : UsageParser → Bytes
pending_bytes (codex parser) = parser.pending
pending_bytes (claude parser) = parser.pending
pending_bytes UsageParser.unsupported = []

module _ (lib : JsonLib) where
  abbrev pub push_all : UsageParser → List Bytes → UsageParser
  push_all parser [] = parser
  push_all parser (chunk ∷ chunks) = push_all (push lib parser chunk) chunks

  push-bounded :
      (parser : UsageParser) (chunk : Bytes)
      → length (pending_bytes parser) ≤ max_usage_event_bytes
      → length (pending_bytes (push lib parser chunk)) ≤ max_usage_event_bytes
  unfolding push
  push-bounded (codex parser) chunk h = codex_push-bounded lib parser chunk h
  push-bounded (claude parser) chunk h = claude_push-bounded lib parser chunk h
  push-bounded UsageParser.unsupported chunk h = h

  pushes-bounded :
      (parser : UsageParser) (chunks : List Bytes)
      → length (pending_bytes parser) ≤ max_usage_event_bytes
      → length (pending_bytes (push_all parser chunks)) ≤ max_usage_event_bytes
  pushes-bounded parser [] h = h
  pushes-bounded parser (chunk ∷ chunks) h =
      pushes-bounded (push lib parser chunk) chunks (push-bounded parser chunk h)

  new_parser-empty : (format : ResponseUsageFormat) → pending_bytes (new_parser format) ≡ []
  unfolding new_parser
  new_parser-empty codex_sse = refl
  new_parser-empty codex_json = refl
  new_parser-empty claude_sse = refl
  new_parser-empty claude_json = refl
  new_parser-empty ResponseUsageFormat.unsupported = refl

  -- Whatever chunks a usage parser is given, of whatever sizes, it holds at most 262144 bytes of them.
  pub push_all-bounded :
      (format : ResponseUsageFormat) (chunks : List Bytes)
      → length (pending_bytes (push_all (new_parser format) chunks)) ≤ max_usage_event_bytes
  push_all-bounded format chunks = pushes-bounded (new_parser format) chunks (
      subst (λ bytes. length bytes ≤ max_usage_event_bytes) (sym (new_parser-empty format))
        (omega arith))
