-- ===== src/Recording.antt =====
-- The record of one request, from its reservation to its completion: `RequestRecording`,
-- `StreamingRecord` and `recorded_body` of crates/routing-service/src/model/request_recorder.rs. The
-- channel to the recorder is the list of what was sent into it.
pub mod Once
mod Tests
use muxvia.Prelude.{
  ℕ, Bool, true, false, not, Option, none, some, List, [], ◌∷◌, ◌++◌, Bytes, max, if◌then◌else◌,
}
use muxvia.Domain.{Target, ProviderProtocol, RequestRecordOutcome}
use muxvia.Text.{Text}
use muxvia.Json.{JsonLib}
use muxvia.Pricing.{RequestUsage}
use muxvia.RoutePlan.{RouteAttemptIdentity}
use muxvia.Observation.{
  ObservationLib, ResponseObservation, ResponseUsageFormat, configure, observe, finish,
  success_status,
}

pub record RecordedProvider : Type 0 where
  pub id : ℕ
  pub name : Text

pub record RequestRecordStart : Type 0 where
  pub id : ℕ
  pub target : Target
  pub plan_id : ℕ
  pub plan_epoch : ℕ
  pub provider : Option RecordedProvider
  pub model : Text
  pub protocol : ProviderProtocol
  pub started_at_unix_ms : ℕ
  pub status : Option ℕ
  pub semantic_failure : Bool
  pub observation : ResponseObservation

pub record RequestRecordCompletion : Type 0 where
  pub id : ℕ
  pub target : Target
  pub plan_id : ℕ
  pub plan_epoch : ℕ
  pub provider : Option RecordedProvider
  pub model : Text
  pub protocol : ProviderProtocol
  pub started_at_unix_ms : ℕ
  pub finished_at_unix_ms : ℕ
  pub outcome : RequestRecordOutcome
  pub http_status : Option ℕ
  pub usage : Option RequestUsage
  pub error_payload : Option Bytes
  pub error_payload_truncated : Bool

-- A place in the channel, until it is used.
pub record ReservedRequestRecord : Type 0 where
  pub permit : Bool

-- `ReservedRequestRecord::complete`
unfoldable pub complete :
    ReservedRequestRecord
    → RequestRecordCompletion
    → List RequestRecordCompletion
    → List RequestRecordCompletion
complete reserved completion sent = if reserved.permit then sent ++ completion ∷ [] else sent

completion_of :
    RequestRecordStart
    → ℕ
    → RequestRecordOutcome
    → Option RequestUsage × Option Bytes × Bool
    → RequestRecordCompletion
completion_of start now outcome (usage, payload, truncated) = record {
  id = start.id;
  target = start.target;
  plan_id = start.plan_id;
  plan_epoch = start.plan_epoch;
  provider = start.provider;
  model = start.model;
  protocol = start.protocol;
  started_at_unix_ms = start.started_at_unix_ms;
  finished_at_unix_ms = max now start.started_at_unix_ms;
  outcome = outcome;
  http_status = start.status;
  usage = usage;
  error_payload = payload;
  error_payload_truncated = truncated;
}

pub record RequestRecording : Type 0 where
  pub reserved : ReservedRequestRecord
  pub start : RequestRecordStart

-- `bind_attempt`; `bind_routed` reads the same fields of the routed response.
unfoldable pub bind_attempt : RequestRecording → RouteAttemptIdentity → RequestRecording
bind_attempt recording attempt = record recording {
  start = record recording.start {
    provider = some (record { id = attempt.provider_id; name = attempt.provider_name });
    model = attempt.model;
    protocol = attempt.protocol;
  };
}

unfoldable pub configure_response :
    RequestRecording → ℕ → Bool → ResponseUsageFormat → Bool → RequestRecording
unfolding configure
configure_response recording status semantic_failure format gzip = record recording {
  start = record recording.start {
    status = some status;
    semantic_failure = semantic_failure;
    observation = configure recording.start.observation format status gzip;
  };
}

-- `complete_terminal` of both types: no usage and no payload.
unfoldable pub complete_terminal :
    RequestRecording
    → ℕ
    → Option ℕ
    → RequestRecordOutcome
    → List RequestRecordCompletion
    → List RequestRecordCompletion
unfolding complete completion_of
complete_terminal recording now status outcome sent =
    complete recording.reserved
      (completion_of (record recording.start { status = status }) now outcome (none, none, false))
      sent

pub record StreamingRecord : Type 0 where
  pub reserved : Option ReservedRequestRecord
  pub start : Option RequestRecordStart
  pub terminated : Bool

unfoldable pub new_record : RequestRecording → StreamingRecord
new_record recording = record {
  reserved = some recording.reserved;
  start = some recording.start;
  terminated = false;
}

-- The outcome of a body that came to its end.
unfoldable pub outcome_of : RequestRecordStart → RequestRecordOutcome
outcome_of start = elim start.status [
  | none ↦ RequestRecordOutcome.route_unavailable
  | some status ↦
      if not (success_status status)
      then RequestRecordOutcome.upstream_error
      else if start.semantic_failure
      then RequestRecordOutcome.semantic_error
      else RequestRecordOutcome.success
]

chosen_outcome : Option RequestRecordOutcome → RequestRecordStart → RequestRecordOutcome
unfolding outcome_of
chosen_outcome none start = outcome_of start
chosen_outcome (some outcome) start = outcome

-- What the stream of a response yields, with the time at which it does.
pub data StreamItem : Type 0 where
  chunk : Bytes → StreamItem
  fault : (now : ℕ) → StreamItem
  finished : (now : ℕ) → StreamItem

module _ (json : JsonLib) (lib : ObservationLib) where
  observe_start : Option RequestRecordStart → Bytes → Option RequestRecordStart
  unfolding observe
  observe_start none bytes = none
  observe_start (some start) bytes =
      some (record start { observation = observe json start.observation bytes })

  -- `StreamingRecord::observe`
  unfoldable pub observe_record : StreamingRecord → Bytes → StreamingRecord
  unfolding observe_start
  observe_record r bytes = record r { start = observe_start r.start bytes }

  -- A record whose start is gone although its permit is not does not arise: the source panics there.
  finish_with :
      Option ReservedRequestRecord
      → Option RequestRecordStart
      → ℕ
      → Option RequestRecordOutcome
      → List RequestRecordCompletion
      → List RequestRecordCompletion
  unfolding complete completion_of chosen_outcome
  finish_with (some reserved) (some start) now outcome sent =
      let chosen = chosen_outcome outcome start in
      complete reserved (completion_of start now chosen (finish json lib start.observation chosen))
        sent
  finish_with _ _ now outcome sent = sent

  has_permit : Option ReservedRequestRecord → Bool
  has_permit none = false
  has_permit (some reserved) = true

  -- `StreamingRecord::finish`
  unfoldable pub finish_record :
      StreamingRecord
      → ℕ
      → Option RequestRecordOutcome
      → List RequestRecordCompletion
      → StreamingRecord × List RequestRecordCompletion
  unfolding finish_with has_permit
  finish_record r now outcome sent = if not (has_permit r.reserved) then (r, sent) else (
    record { reserved = none; start = none; terminated = true },
    finish_with r.reserved r.start now outcome sent,
  )

  -- `Drop::drop`
  unfoldable pub drop_record :
      StreamingRecord → ℕ → List RequestRecordCompletion → List RequestRecordCompletion
  unfolding finish_record has_permit
  drop_record r now sent =
      if has_permit r.reserved
      then (finish_record r now (some RequestRecordOutcome.cancelled) sent).1
      else sent

  -- `recorded_body`, polled for each of the items and dropped at the time `at`; the stream ends by
  -- itself at its end, and at the first poll after a fault.
  unfoldable pub recorded_body :
      Bool
      → List StreamItem
      → (at : ℕ) → StreamingRecord
      → List RequestRecordCompletion
      → List RequestRecordCompletion
  unfolding observe_record finish_record drop_record
  recorded_body observing [] at r sent = drop_record r at sent
  recorded_body observing (chunk bytes ∷ items) at r sent = elim r.terminated [
    | true ↦ drop_record r at sent
    | false ↦
        recorded_body observing items at (if observing then observe_record r bytes else r) sent
  ]
  recorded_body observing (fault now ∷ items) at r sent = elim r.terminated [
    | true ↦ drop_record r at sent
    | false ↦
        let (r', sent') = finish_record r now (some RequestRecordOutcome.stream_error) sent in
        recorded_body observing items at r' sent'
  ]
  recorded_body observing (finished now ∷ items) at r sent = elim r.terminated [
    | true ↦ drop_record r at sent
    | false ↦ let (r', sent') = finish_record r now none sent in drop_record r' at sent'
  ]
