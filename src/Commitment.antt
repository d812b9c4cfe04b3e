-- ===== src/Commitment.antt =====
-- The commitment of an upstream response, crates/routing-service/src/model/commitment.rs: by the
-- content type and the encoding, one of four ways to prime the body.
pub mod Intact
mod Tests
use muxvia.Prelude.{
  ℕ, ◌+◌, Bool, true, false, not, ◌||◌, Option, none, some, List, [], ◌∷◌, Bytes, length, ltb,
  if◌then◌else◌, bytes_eq,
}
use mathlib.Core.Option
use muxvia.Domain.{Target, codex, claude}
use muxvia.Text.{Text, codes, trim, before, to_ascii_lowercase, ends_with, is_some}
use muxvia.Json.{JsonLib}
use muxvia.Http.{HttpLib, first_of_list}
use muxvia.Sse.{EventClass, classify_sse_event, classify_complete_sse}
use muxvia.Priming.{
  Body, Primed, commit, commit_failure, retry, chain, act_on, prime_loop, collect_bounded,
  after_collection, exhausted, priming_byte_limit,
}

module _ (json : JsonLib) where
  open json use {Value, from_slice, get, as_str, is_object}

  text_member : Value → Text → Option Text
  text_member value key = elim (get value key) [ none ↦ none | some v ↦ as_str v ]

  text_is : Option Text → Text → Bool
  text_is none text = false
  text_is (some t) text = bytes_eq t text

  unfoldable pub valid_nonstreaming_value : Value → Target → Bool
  unfolding text_member text_is
  valid_nonstreaming_value value target =
      if not (is_object value)
      then false
      else if is_some (get value (codes "error"))
          || text_is (text_member value (codes "type")) (codes "error")
      then false
      else elim target [
        | codex ↦ not (
            text_is (text_member value (codes "status")) (codes "failed")
            || text_is (text_member value (codes "status")) (codes "incomplete"))
        | claude ↦ true
      ]

  -- `from_slice` and the test, on the bytes of a complete body.
  valid_json : Bytes → Target → Bool
  unfolding valid_nonstreaming_value
  valid_json bytes target = elim (from_slice bytes) [
    | none ↦ false
    | some value ↦ valid_nonstreaming_value value target
  ]

pub record UpstreamResponse (http : HttpLib) : Type 0 where
  pub status : ℕ
  pub headers : http.HeaderMap
  pub body : Body

pub data PrimedResponse (http : HttpLib) : Type 0 where
  committed : UpstreamResponse http → PrimedResponse http
  committed_failure : UpstreamResponse http → PrimedResponse http
  retried : PrimedResponse http

-- `committed_with_prefix` and `committed_failure_with_prefix`.
pub with_primed : {http : HttpLib} → UpstreamResponse http → Primed → PrimedResponse http
unfolding chain
with_primed r (commit prefix rest) = committed (record r { body = chain prefix rest })
with_primed r (commit_failure prefix rest) =
    committed_failure (record r { body = chain prefix rest })
with_primed r retry = retried

module _ (json : JsonLib) (http : HttpLib) where
  open http use {get_all, to_str, gunzip}

  unfoldable pub normalized_header : UpstreamResponse http → Text → Option Text
  normalized_header r name = elim (first_of_list (get_all r.headers name)) [
    | none ↦ none
    | some value ↦ Option.map (λ raw. to_ascii_lowercase (trim (before b';' raw))) (to_str value)
  ]

  -- The decoded bytes, unless the reader fails or there are too many.
  decoded : Bytes → Option Bytes
  decoded bytes = elim (gunzip (priming_byte_limit + 1) bytes) [
    | none ↦ none
    | some out ↦ if ltb priming_byte_limit (length out) then none else some out
  ]

  -- The decision on a complete body that is compressed.
  decide_compressed_sse : Target → Bool → Bytes → Primed
  unfolding decoded act_on
  decide_compressed_sse target convertible bytes = elim (decoded bytes) [
    | none ↦ retry
    | some out ↦ act_on (classify_complete_sse json out target convertible) (bytes ∷ []) exhausted
  ]

  prime_compressed_sse : Body → Target → Bool → Primed
  unfolding collect_bounded after_collection decide_compressed_sse
  prime_compressed_sse body target convertible =
      after_collection (decide_compressed_sse target convertible) (collect_bounded body [] [])

  decide_compressed_json : Target → Bytes → Primed
  unfolding decoded valid_json
  decide_compressed_json target bytes = elim (decoded bytes) [
    | none ↦ retry
    | some out ↦ if valid_json json out target then commit (bytes ∷ []) exhausted else retry
  ]

  prime_compressed_json : Body → Target → Primed
  unfolding collect_bounded after_collection decide_compressed_json
  prime_compressed_json body target =
      after_collection (decide_compressed_json target) (collect_bounded body [] [])

  abbrev is_gzip : Text → Bool
  is_gzip encoding = bytes_eq encoding (codes "gzip") || bytes_eq encoding (codes "x-gzip")

  abbrev event_class : Target → Bool → Bytes → EventClass
  event_class target convertible event = classify_sse_event json event target convertible

  -- `prime_sse`, by the content encoding.
  prime_sse_as : Option Text → UpstreamResponse http → Target → Bool → PrimedResponse http
  unfolding prime_compressed_sse prime_loop with_primed
  prime_sse_as none r target convertible =
      with_primed r (prime_loop (event_class target convertible) r.body [] [] 0)
  prime_sse_as (some encoding) r target convertible =
      if is_gzip encoding
      then with_primed r (prime_compressed_sse r.body target convertible)
      else if not (bytes_eq encoding (codes "identity"))
      then committed r
      else with_primed r (prime_loop (event_class target convertible) r.body [] [] 0)

  unfoldable pub prime_sse : UpstreamResponse http → Target → Bool → PrimedResponse http
  unfolding prime_sse_as normalized_header
  prime_sse r = prime_sse_as (normalized_header r (codes "content-encoding")) r

  decide_plain_json : Target → Bytes → Primed
  unfolding valid_json
  decide_plain_json target bytes =
      if valid_json json bytes target then commit (bytes ∷ []) exhausted else retry

  prime_plain_json : Body → Target → Primed
  unfolding collect_bounded after_collection decide_plain_json
  prime_plain_json body target =
      after_collection (decide_plain_json target) (collect_bounded body [] [])

  prime_json_as : Option Text → UpstreamResponse http → Target → PrimedResponse http
  unfolding prime_compressed_json prime_plain_json with_primed
  prime_json_as none r target = with_primed r (prime_plain_json r.body target)
  prime_json_as (some encoding) r target =
      if is_gzip encoding
      then with_primed r (prime_compressed_json r.body target)
      else with_primed r (prime_plain_json r.body target)

  unfoldable pub prime_json : UpstreamResponse http → Target → PrimedResponse http
  unfolding prime_json_as normalized_header
  prime_json r = prime_json_as (normalized_header r (codes "content-encoding")) r

  -- `prime_response`, by the content type.
  prime_response_as : Option Text → UpstreamResponse http → Target → Bool → PrimedResponse http
  unfolding prime_sse prime_json
  prime_response_as none r target convertible = retried
  prime_response_as (some content_type) r target convertible =
      if bytes_eq content_type (codes "text/event-stream")
      then prime_sse r target convertible
      else if bytes_eq content_type (codes "application/json")
          || ends_with (codes "+json") content_type
      then prime_json r target
      else retried

  unfoldable pub prime_response : UpstreamResponse http → Target → Bool → PrimedResponse http
  unfolding prime_response_as normalized_header
  prime_response r = prime_response_as (normalized_header r (codes "content-type")) r

  unfoldable pub prime_success_response : UpstreamResponse http → Target → PrimedResponse http
  unfolding prime_response
  prime_success_response r target = prime_response r target false

  unfoldable pub prime_subscription_bridge_response : UpstreamResponse http → PrimedResponse http
  unfolding prime_response
  prime_subscription_bridge_response r = prime_response r codex true
