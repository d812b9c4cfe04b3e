-- ===== src/Observation.antt =====
-- What the service observes of a response while it passes: the usage, and the payload of an error,
-- with its secrets blotted out. `UsageParser` and `ResponseObservation` of
-- crates/routing-service/src/model/request_recorder.rs; every method runs under the lock.
pub mod Payload
pub mod Bounds
pub mod Formats
mod Tests
use muxvia.Prelude.{
  ℕ, zero, suc, ◌+◌, ◌-◌, Bool, true, false, not, ◌&&◌, ◌||◌, Option, none, some, List, [], ◌∷◌,
  ◌++◌, Bytes, length, take, drop, replicate, min, max, ltb, leb, if◌then◌else◌, u64_max, bytes_eq,
}
use muxvia.Domain.{RequestRecordOutcome}
use muxvia.Text.{Text, codes, from_utf8, starts_with}
use muxvia.Json.{JsonLib}
use muxvia.Pricing.{RequestUsage}
use muxvia.Redaction.{redact}
use muxvia.Usage.{StreamFormat, sse, json, max_usage_event_bytes}
use muxvia.Usage.Codex.{CodexUsageParser, codex_push, codex_finish}
use muxvia.Usage.Claude.{ClaudeUsageParser, no_usage, claude_push, claude_finish}

pub data UsageParser : Type 0 where
  codex : CodexUsageParser → UsageParser
  claude : ClaudeUsageParser → UsageParser
  unsupported : UsageParser

pub data ResponseUsageFormat : Type 0 where
  codex_sse codex_json claude_sse claude_json unsupported : ResponseUsageFormat

codex_parser : StreamFormat → CodexUsageParser
codex_parser format = record { format = format; pending = []; usage = none; disabled = false }

claude_parser : StreamFormat → ClaudeUsageParser
claude_parser format = record {
  format = format;
  pending = [];
  usage = no_usage;
  observed = false;
  disabled = false;
}

-- `UsageParser::new`
unfoldable pub new_parser : ResponseUsageFormat → UsageParser
unfolding codex_parser claude_parser
new_parser codex_sse = codex (codex_parser sse)
new_parser codex_json = codex (codex_parser json)
new_parser claude_sse = claude (claude_parser sse)
new_parser claude_json = claude (claude_parser json)
new_parser ResponseUsageFormat.unsupported = UsageParser.unsupported

unfoldable pub push : JsonLib → UsageParser → Bytes → UsageParser
unfolding codex_push claude_push
push lib (codex parser) bytes = codex (codex_push lib parser bytes)
push lib (claude parser) bytes = claude (claude_push lib parser bytes)
push lib UsageParser.unsupported bytes = UsageParser.unsupported

unfoldable pub finish_usage : JsonLib → UsageParser → Option RequestUsage
unfolding codex_finish claude_finish
finish_usage lib (codex parser) = codex_finish lib parser
finish_usage lib (claude parser) = claude_finish lib parser
finish_usage lib UsageParser.unsupported = none

-- `MAX_ERROR_PAYLOAD_BYTES` and `MAX_COMPRESSED_OBSERVATION_BYTES`
abbrev pub max_error_payload_bytes : ℕ
max_error_payload_bytes = 65536

abbrev pub max_compressed_observation_bytes : ℕ
max_compressed_observation_bytes = 1048576

-- What is used of flate2 and serde_json, which are not part of the repository: the bytes that
-- `MultiGzDecoder::new(bytes).take(limit)` yields and whether they are complete, and the JSON text of
-- a string.
pub record ObservationLib : Type 0 where
  pub gunzip_prefix : (limit : ℕ) → Bytes → Bytes × Bool
  pub string_to_vec : Text → Option Bytes

pub record ResponseObservation : Type 0 where
  pub usage : UsageParser
  pub capture_error_payload : Bool
  pub error_payload : Bytes
  pub error_payload_limit : ℕ
  pub error_payload_truncated : Bool
  pub redactions : List Bytes
  pub gzip : Bool
  pub compressed : Bytes
  pub compressed_truncated : Bool

unfoldable pub longest : List Bytes → ℕ
longest [] = 0
longest (s ∷ secrets) = max (length s) (longest secrets)

-- `saturating_add` to the limit of a payload.
abbrev limit_for : ℕ → ℕ
limit_for n = min (max_error_payload_bytes + n) u64_max

module _ (lib : ObservationLib) where
  open lib use {gunzip_prefix, string_to_vec}

  -- The text of the string between its quotes, if that is another one.
  pub escaped_variant : Bytes → Option Bytes → List Bytes
  escaped_variant secret none = []
  escaped_variant secret (some encoded) =
      let escaped = take (length encoded - 2) (drop 1 encoded) in
      if not (leb 2 (length encoded)) || bytes_eq escaped secret then [] else escaped ∷ []

  pub encoded_secret : Option Text → Option Bytes
  encoded_secret none = none
  encoded_secret (some text) = string_to_vec text

  unfoldable pub redaction_variants : Bytes → List Bytes
  unfolding escaped_variant encoded_secret from_utf8
  redaction_variants secret = secret ∷ escaped_variant secret (encoded_secret (from_utf8 secret))

  unfoldable pub all_variants : List Bytes → List Bytes
  unfolding redaction_variants
  all_variants [] = []
  all_variants (secret ∷ secrets) = redaction_variants secret ++ all_variants secrets

  unfoldable pub new_observation : List Bytes → ResponseObservation
  unfolding all_variants longest
  new_observation redactions = record {
    usage = UsageParser.unsupported;
    capture_error_payload = false;
    error_payload = [];
    error_payload_limit = limit_for (longest (all_variants redactions));
    error_payload_truncated = false;
    redactions = all_variants redactions;
    gzip = false;
    compressed = [];
    compressed_truncated = false;
  }

  add_variants : List Bytes → ResponseObservation → ResponseObservation
  add_variants [] o = o
  add_variants (variant ∷ variants) o = add_variants variants (record o {
    error_payload_limit = max o.error_payload_limit (limit_for (length variant));
    redactions = o.redactions ++ variant ∷ [];
  })

  unfoldable pub add_redaction : ResponseObservation → Bytes → ResponseObservation
  unfolding add_variants redaction_variants
  add_redaction o [] = o
  add_redaction o (b ∷ bs) = add_variants (redaction_variants (b ∷ bs)) o

-- `StatusCode::is_success`
abbrev pub success_status : ℕ → Bool
success_status code = leb 200 code && ltb code 300

unfoldable pub configure :
    ResponseObservation → ResponseUsageFormat → ℕ → Bool → ResponseObservation
unfolding new_parser
configure o format status gzip = record o {
  usage = new_parser format;
  capture_error_payload = not (success_status status);
  gzip = gzip;
}

module _ (json_lib : JsonLib) where
  unfoldable pub observe : ResponseObservation → Bytes → ResponseObservation
  unfolding push
  observe o bytes =
      if o.gzip
      then (let remaining = max_compressed_observation_bytes - length o.compressed in
          record o {
            compressed = o.compressed ++ take (min (length bytes) remaining) bytes;
            compressed_truncated = o.compressed_truncated || ltb remaining (length bytes);
          })
      else if not o.capture_error_payload
      then record o { usage = push json_lib o.usage bytes }
      else (let remaining = o.error_payload_limit - length o.error_payload in
          record o {
            error_payload = o.error_payload ++ take (min (length bytes) remaining) bytes;
            error_payload_truncated = o.error_payload_truncated || ltb remaining (length bytes);
          })

  is_nil : Bytes → Bool
  is_nil [] = true
  is_nil (b ∷ bs) = false

  -- What `finish` does with the compressed bytes: with the payload of an error, and with a usage.
  decode_error : Bytes × Bool → ResponseObservation → ResponseObservation
  unfolding is_nil
  decode_error (decoded, decoded_complete) o =
      let payload = if not (is_nil decoded) || decoded_complete then decoded else o.error_payload in
      record o {
        error_payload = payload;
        error_payload_truncated =
            o.error_payload_truncated
            || o.compressed_truncated
            || not decoded_complete
            || ltb o.error_payload_limit (length payload);
      }

  decode_usage : Bytes × Bool → ResponseObservation → ResponseObservation
  unfolding push
  decode_usage (decoded, decoded_complete) o =
      if decoded_complete
        && not o.compressed_truncated
        && leb (length decoded) max_usage_event_bytes
      then record o { usage = push json_lib o.usage decoded }
      else o

  unfoldable pub decode_compressed : ObservationLib → ResponseObservation → ResponseObservation
  unfolding decode_error decode_usage
  decode_compressed lib o =
      if not o.gzip
      then o
      else if o.capture_error_payload
      then decode_error (lib.gunzip_prefix (o.error_payload_limit + 1) o.compressed) o
      else decode_usage (lib.gunzip_prefix (max_usage_event_bytes + 1) o.compressed) o

  is_upstream_error : RequestRecordOutcome → Bool
  is_upstream_error RequestRecordOutcome.upstream_error = true
  is_upstream_error _ = false

  -- The end of `finish`: the usage, the payload, and whether it is truncated.
  unfoldable pub report :
      ResponseObservation → RequestRecordOutcome → Option RequestUsage × Option Bytes × Bool
  unfolding finish_usage redact is_upstream_error
  report o outcome =
      if not (is_upstream_error outcome) then (finish_usage json_lib o.usage, none, false) else (
        finish_usage json_lib o.usage,
        some (take max_error_payload_bytes (redact o.error_payload o.redactions)),
        o.error_payload_truncated || ltb max_error_payload_bytes (length o.error_payload),
      )

  unfoldable pub finish :
      ObservationLib
      → ResponseObservation
      → RequestRecordOutcome
      → Option RequestUsage × Option Bytes × Bool
  unfolding decode_compressed report
  finish lib o outcome = report (decode_compressed lib o) outcome
