-- ===== src/Recording/Once.antt =====
-- What `recorded_body` of crates/routing-service/src/model/request_recorder.rs sends to the recorder.
use muxvia.Prelude.{
  ℕ, ◌≤◌, ◌≡◌, refl, ap, sym, ◌∙◌, subst, Bool, true, false, Option, none, some, List, [], ◌∷◌,
  ◌++◌, Bytes, arith,
}
use muxvia.Domain.{RequestRecordOutcome}
use muxvia.Json.{JsonLib}
use muxvia.Observation.{ObservationLib, observe}
use muxvia.Recording.{
  RequestRecordStart, RequestRecordCompletion, RequestRecording, StreamingRecord, new_record,
  complete, completion_of, outcome_of, chosen_outcome, StreamItem, chunk, fault, finished,
  finish_record, recorded_body,
}

-- How a body that is polled so often ends for its client.
abbrev pub ending : RequestRecordStart → List StreamItem → RequestRecordOutcome
ending start [] = RequestRecordOutcome.cancelled
ending start (chunk bytes ∷ items) = ending start items
ending start (fault now ∷ items) = RequestRecordOutcome.stream_error
ending start (finished now ∷ items) = outcome_of start

-- The completion of that request with that outcome.
pub record Completes (start : RequestRecordStart) (outcome : RequestRecordOutcome)
    (c : RequestRecordCompletion) : Type 0 where
  pub same_id : c.id ≡ start.id
  pub same_status : c.http_status ≡ start.status
  pub its_outcome : c.outcome ≡ outcome
  pub in_order : c.started_at_unix_ms ≤ c.finished_at_unix_ms

module _ (json : JsonLib) (lib : ObservationLib) where
  abbrev pub SentOnce :
      RequestRecordStart
      → RequestRecordOutcome
      → List RequestRecordCompletion
      → List RequestRecordCompletion
      → Type 0
  SentOnce start outcome sent after =
      (c : RequestRecordCompletion) × Completes start outcome c × (after ≡ sent ++ c ∷ [])

  open_record : RequestRecordStart → StreamingRecord
  open_record start = record {
    reserved = some (record { permit = true });
    start = some start;
    terminated = false;
  }

  over : StreamingRecord
  over = record { reserved = none; start = none; terminated = true }

  finish-SentOnce :
      (start : RequestRecordStart) (now : ℕ) (outcome : Option RequestRecordOutcome)
      (sent : List RequestRecordCompletion)
      → SentOnce start
          (chosen_outcome outcome start)
          sent
          (finish_record json lib (open_record start) now outcome sent).1
  unfolding finish_record open_record complete completion_of
  finish-SentOnce start now outcome sent = (
    _,
    record { same_id = refl; same_status = refl; its_outcome = refl; in_order = omega arith },
    refl,
  )

  over-stays :
      (observing : Bool) (items : List StreamItem) (at : ℕ) (sent : List RequestRecordCompletion)
      → recorded_body json lib observing items at over sent ≡ sent
  unfolding recorded_body over
  over-stays observing [] at sent = refl
  over-stays observing (chunk bytes ∷ items) at sent = refl
  over-stays observing (fault now ∷ items) at sent = refl
  over-stays observing (finished now ∷ items) at sent = refl

  -- Observing changes nothing of what a completion is about.
  ending-observed :
      (start : RequestRecordStart) (bytes : Bytes) (items : List StreamItem)
      → ending (record start { observation = observe json start.observation bytes }) items
        ≡ ending start items
  unfolding outcome_of
  ending-observed start bytes [] = refl
  ending-observed start bytes (chunk b ∷ items) = ending-observed start bytes items
  ending-observed start bytes (fault now ∷ items) = refl
  ending-observed start bytes (finished now ∷ items) = refl

  observed-SentOnce :
      (start : RequestRecordStart) (bytes : Bytes) (items : List StreamItem)
      (sent after : List RequestRecordCompletion)
      → let seen = record start { observation = observe json start.observation bytes } in
        SentOnce seen (ending seen items) sent after
        → SentOnce start (ending start items) sent after
  observed-SentOnce start bytes items sent after (c, k, e) = (
    c,
    record {
      same_id = k.same_id;
      same_status = k.same_status;
      its_outcome = k.its_outcome ∙ ending-observed start bytes items;
      in_order = k.in_order;
    },
    e,
  )

  body-SentOnce :
      (observing : Bool) (items : List StreamItem) (at : ℕ) (start : RequestRecordStart)
      (sent : List RequestRecordCompletion)
      → SentOnce start
          (ending start items)
          sent
          (recorded_body json lib observing items at (open_record start) sent)
  unfolding recorded_body open_record chosen_outcome over
  body-SentOnce observing [] at start sent =
      finish-SentOnce start at (some RequestRecordOutcome.cancelled) sent
  body-SentOnce true (chunk bytes ∷ items) at start sent =
      observed-SentOnce start bytes items sent _ (
        body-SentOnce true items at
          (record start { observation = observe json start.observation bytes }) sent)
  body-SentOnce false (chunk bytes ∷ items) at start sent = body-SentOnce false items at start sent
  body-SentOnce observing (fault now ∷ items) at start sent =
      subst (SentOnce start RequestRecordOutcome.stream_error sent)
        (sym (over-stays observing items at _))
        (finish-SentOnce start now (some RequestRecordOutcome.stream_error) sent)
  body-SentOnce observing (finished now ∷ items) at start sent = finish-SentOnce start now none sent

  new_record-open :
      (recording : RequestRecording)
      → recording.reserved.permit ≡ true
      → new_record recording ≡ open_record recording.start
  unfolding new_record open_record
  new_record-open recording e =
      ap
        (λ b. record {
          reserved = some (record { permit = b });
          start = some recording.start;
          terminated = false;
        })
        e

  -- A recording that holds a place in the channel sends one completion, no more and no less, however
  -- its body goes on and whenever the client drops it: with the outcome of the first fault or of the
  -- end of the body, or as cancelled if the client drops it before, with the id and the status of
  -- the request, and not earlier than its start.
  pub recorded_body-SentOnce :
      (observing : Bool) (items : List StreamItem) (at : ℕ) (recording : RequestRecording)
      (sent : List RequestRecordCompletion)
      → recording.reserved.permit ≡ true
      → SentOnce recording.start
          (ending recording.start items)
          sent
          (recorded_body json lib observing items at (new_record recording) sent)
  recorded_body-SentOnce observing items at recording sent e =
      subst
        (λ r.
          SentOnce recording.start (ending recording.start items) sent
            (recorded_body json lib observing items at r sent))
        (sym (new_record-open recording e)) (body-SentOnce observing items at recording.start sent)
