-- ===== src/Observation/Tests.antt =====
-- Observations of a failed response in two chunks, and of the usage in a JSON body.
use muxvia.Prelude.{
  ℕ, u64_max, ◌≡◌, ◌≤◌, ◌+◌, refl, false, some, none, [], ◌∷◌, Bytes, length, min, ltb, take,
  Option, bytes_eq, if◌then◌else◌, List,
}
use muxvia.Text.{Text, codes}
use muxvia.Json.{JsonLib}
use muxvia.Domain.{RequestRecordOutcome}
use muxvia.Pricing.{RequestUsage}
use muxvia.Usage.{max_usage_event_bytes}
use muxvia.Usage.Codex.{codex_usage}
use muxvia.Usage.Counted.{Splits, codex_usage-Splits}
use muxvia.Observation.{
  ResponseObservation, ResponseUsageFormat, max_error_payload_bytes, finish, new_parser,
}
use muxvia.Observation.Formats.{codex_format, claude_format}
use muxvia.Observation.Payload.{begun, observe_all, concat, finish-payload}
use muxvia.Redaction.Blotted.{Redacts}
use mathlib.Core.List.{Memᴰ}
use muxvia.Observation.Bounds.{push_all, pending_bytes, push_all-bounded}
use muxvia.Samples.{typed_json, unzipped}

abbrev chunks : List Bytes
chunks = codes "key=sec" ∷ codes "ret!" ∷ []

abbrev failed_response : ResponseObservation
failed_response = begun typed_json unzipped (codes "secret" ∷ []) ResponseUsageFormat.codex_json 500

finish-payload_example :
    let result =
      finish typed_json unzipped
        (observe_all typed_json failed_response chunks)
        RequestRecordOutcome.upstream_error in
    (shown : Bytes) × (result.1 ≡ some (take max_error_payload_bytes shown))
    × Redacts failed_response.redactions
        (take failed_response.error_payload_limit (concat chunks))
        shown
    × ((s : Bytes)
        → Memᴰ s (codes "secret" ∷ [])
        → Memᴰ s failed_response.redactions
          × (min (max_error_payload_bytes + length s) u64_max
              ≤ failed_response.error_payload_limit))
    × (length (take max_error_payload_bytes shown)
        ≡ min max_error_payload_bytes (length (concat chunks)))
    × (result.2 ≡ ltb max_error_payload_bytes (length (concat chunks)))
finish-payload_example =
    finish-payload typed_json unzipped (codes "secret" ∷ []) ResponseUsageFormat.codex_json 500
      chunks refl

push_all-bounded_example :
    length (pending_bytes (push_all typed_json (new_parser ResponseUsageFormat.codex_sse) chunks))
    ≤ max_usage_event_bytes
push_all-bounded_example = push_all-bounded typed_json ResponseUsageFormat.codex_sse chunks

-- Values that are a usage object at the top, with two counts.
abbrev counts_of : ℕ × ℕ → Text → Option (ℕ × ℕ)
counts_of value key =
    if bytes_eq key (codes "usage")
    then some value
    else if bytes_eq key (codes "input_tokens")
    then some (value.0, value.0)
    else if bytes_eq key (codes "output_tokens")
    then some (value.1, value.1)
    else none

abbrev counting_json : JsonLib
counting_json = record {
  Value = ℕ × ℕ;
  from_str = λ text. none;
  from_slice = λ bytes. none;
  get = counts_of;
  as_str = λ value. none;
  as_u64 = λ value. some value.0;
  is_object = λ value. false;
}

abbrev hundred : RequestUsage
hundred = record {
  input_tokens = 100;
  cached_input_tokens = 0;
  cache_creation_input_tokens = 0;
  output_tokens = 7;
}

codex_usage-Splits_example : Splits counting_json (100, 7) hundred
codex_usage-Splits_example =
    codex_usage-Splits counting_json (100, 7) hundred (unfold codex_usage bytes_eq in refl)

problem_json :
    claude_format (some (codes "application/problem+json; charset=utf-8"))
    ≡ ResponseUsageFormat.claude_json
unfolding claude_format bytes_eq
problem_json = refl

plain_text : codex_format (some (codes "text/plain")) ≡ ResponseUsageFormat.unsupported
unfolding codex_format bytes_eq
plain_text = refl
