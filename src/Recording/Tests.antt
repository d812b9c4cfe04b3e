-- ===== src/Recording/Tests.antt =====
-- A response whose stream breaks after one chunk.
use muxvia.Prelude.{refl, true, false, none, some, [], ◌∷◌}
use muxvia.Domain.{RequestRecordOutcome, codex, openai_responses}
use muxvia.Text.{codes}
use muxvia.Observation.{ResponseUsageFormat}
use muxvia.Observation.Payload.{begun}
use muxvia.Recording.{RequestRecordStart, RequestRecording, chunk, fault, new_record, recorded_body}
use muxvia.Recording.Once.{SentOnce, recorded_body-SentOnce}
use muxvia.Samples.{typed_json, unzipped}

abbrev started : RequestRecordStart
started = record {
  id = 1;
  target = codex;
  plan_id = 9;
  plan_epoch = 1;
  provider = none;
  model = codes "m";
  protocol = openai_responses;
  started_at_unix_ms = 5;
  status = some 200;
  semantic_failure = false;
  observation = begun typed_json unzipped [] ResponseUsageFormat.codex_sse 200;
}

abbrev recording : RequestRecording
recording = record { reserved = record { permit = true }; start = started }

recorded_body-SentOnce_example :
    SentOnce typed_json unzipped started RequestRecordOutcome.stream_error [] (
      recorded_body typed_json unzipped true
        (chunk (codes "x") ∷ fault 6 ∷ [])
        7
        (new_record recording)
        [])
recorded_body-SentOnce_example =
    recorded_body-SentOnce typed_json unzipped true (chunk (codes "x") ∷ fault 6 ∷ []) 7 recording
      [] refl
