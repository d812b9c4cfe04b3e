-- ===== src/Observation/Formats.antt =====
-- `ResponseUsageFormat` of crates/routing-service/src/model/request_recorder.rs: the format of the
-- usage by the content type of a response.
use muxvia.Prelude.{Option, none, some, bytes_eq, if◌then◌else◌}
use muxvia.Text.{Text, codes, trim, ends_with, before}
use muxvia.Observation.{ResponseUsageFormat}

unfoldable pub for_content_type :
    Option Text → (sse json : ResponseUsageFormat) → ResponseUsageFormat
unfolding trim before ends_with
for_content_type none sse json = ResponseUsageFormat.unsupported
for_content_type (some value) sse json = of_media_type (trim (before b';' value))
  where
    of_media_type : Text → ResponseUsageFormat
    of_media_type media_type =
        if bytes_eq media_type (codes "text/event-stream")
        then sse
        else if bytes_eq media_type (codes "application/json")
        then json
        else if ends_with (codes "+json") media_type
        then json
        else ResponseUsageFormat.unsupported

unfoldable pub codex_format : Option Text → ResponseUsageFormat
unfolding for_content_type
codex_format content_type =
    for_content_type content_type ResponseUsageFormat.codex_sse ResponseUsageFormat.codex_json

unfoldable pub claude_format : Option Text → ResponseUsageFormat
unfolding for_content_type
claude_format content_type =
    for_content_type content_type ResponseUsageFormat.claude_sse ResponseUsageFormat.claude_json
