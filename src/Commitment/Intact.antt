-- ===== src/Commitment/Intact.antt =====
-- What a commitment hands to the client.
use muxvia.Prelude.{
  ◌≡◌, refl, Bool, true, false, not, ◌||◌, Option, none, some, [], ◌∷◌, map, Bytes, append-nil,
  Bool-cases, Option-cases, inl, inr, bytes_eq, if◌then◌else◌,
}
use muxvia.Domain.{Target}
use muxvia.Text.{Text, codes, ends_with}
use muxvia.Json.{JsonLib}
use muxvia.Http.{HttpLib}
use muxvia.Priming.{Primed, commit, commit_failure, retry, chain, prime_loop, exhausted}
use muxvia.Priming.Signals.{
  octet, signals, HandsOn, CommitsWhole, prime_loop_start-HandsOn, after_collection-HandsOn,
  act_on-HandsOn,
}
use muxvia.Commitment.{
  UpstreamResponse, PrimedResponse, committed, committed_failure, retried, with_primed, decoded,
  valid_json, decide_compressed_sse, decide_compressed_json, decide_plain_json,
  prime_compressed_sse, prime_compressed_json, prime_plain_json, prime_sse_as, prime_json_as,
  prime_response_as, prime_sse, prime_json, prime_response, is_gzip, event_class,
}

-- The same status and headers, and a body that reads the same to its end.
abbrev pub SameResponse : {http : HttpLib} → UpstreamResponse http → UpstreamResponse http → Type 0
SameResponse {http} r r' =
    (r'.status ≡ r.status) × (r'.headers ≡ r.headers) × (signals r'.body ≡ signals r.body)

abbrev pub Intact : {http : HttpLib} → UpstreamResponse http → PrimedResponse http → Type 0
Intact r (committed r') = SameResponse r r'
Intact r (committed_failure r') = SameResponse r r'
Intact r retried = Unit

with_primed-Intact :
    {http : HttpLib} (r : UpstreamResponse http) (p : Primed)
    → HandsOn (signals r.body) p
    → Intact r (with_primed r p)
unfolding with_primed
with_primed-Intact r (commit prefix rest) h = (refl, refl, h)
with_primed-Intact r (commit_failure prefix rest) h = (refl, refl, h)
with_primed-Intact r retry h = tt

whole_body : (bytes : Bytes) → signals (chain (bytes ∷ []) exhausted) ≡ map octet bytes
unfolding chain signals
whole_body bytes = append-nil (map octet bytes)

module _ (json : JsonLib) (http : HttpLib) where
  compressed_sse_whole :
      (target : Target) (convertible : Bool)
      → CommitsWhole (decide_compressed_sse json http target convertible)
  compressed_sse_whole target convertible bytes = elim (Option-cases (decoded json http bytes)) [
    | inl e ↦ unfold decide_compressed_sse in rw (e, decide_compressed_sse) tt
    | inr (out, e) ↦
        unfold decide_compressed_sse in
        rw (e, decide_compressed_sse) (act_on-HandsOn _ (bytes ∷ []) exhausted (whole_body bytes))
  ]

  plain_json_whole : (target : Target) → CommitsWhole (decide_plain_json json http target)
  unfolding decide_plain_json
  plain_json_whole target bytes = elim (Bool-cases (valid_json json bytes target)) [
    | inl e ↦ rw e (whole_body bytes)
    | inr e ↦ rw e tt
  ]

  compressed_json_whole : (target : Target) → CommitsWhole (decide_compressed_json json http target)
  compressed_json_whole target bytes = elim (Option-cases (decoded json http bytes)) [
    | inl e ↦ unfold decide_compressed_json in rw (e, decide_compressed_json) tt
    | inr (out, e) ↦ elim (Bool-cases (valid_json json out target)) [
      | inl v ↦
          unfold decide_compressed_json in rw (e, decide_compressed_json, v) (whole_body bytes)
      | inr v ↦ unfold decide_compressed_json in rw (e, decide_compressed_json, v) tt
    ]
  ]

  module _ (r : UpstreamResponse http) (target : Target) where
    plain_sse-Intact :
        (convertible : Bool)
        → Intact r
            (with_primed r (prime_loop (event_class json http target convertible) r.body [] [] 0))
    plain_sse-Intact convertible =
        with_primed-Intact r _
          (prime_loop_start-HandsOn (event_class json http target convertible) r.body)

    gzip_sse-Intact :
        (convertible : Bool)
        → Intact r (with_primed r (prime_compressed_sse json http r.body target convertible))
    unfolding prime_compressed_sse
    gzip_sse-Intact convertible = with_primed-Intact r _ (
        after_collection-HandsOn (decide_compressed_sse json http target convertible) r.body
          (compressed_sse_whole target convertible))

    gzip_json-Intact : Intact r (with_primed r (prime_compressed_json json http r.body target))
    unfolding prime_compressed_json
    gzip_json-Intact = with_primed-Intact r _ (
        after_collection-HandsOn (decide_compressed_json json http target) r.body
          (compressed_json_whole target))

    plain_json-Intact : Intact r (with_primed r (prime_plain_json json http r.body target))
    unfolding prime_plain_json
    plain_json-Intact = with_primed-Intact r _ (
        after_collection-HandsOn (decide_plain_json json http target) r.body
          (plain_json_whole target))

    if-Intact :
        (b : Bool) (p q : PrimedResponse http)
        → Intact r p
        → Intact r q
        → Intact r (if b then p else q)
    if-Intact true p q h k = h
    if-Intact false p q h k = k

    prime_sse_as-Intact :
        (encoding : Option Text) (convertible : Bool)
        → Intact r (prime_sse_as json http encoding r target convertible)
    unfolding prime_sse_as
    prime_sse_as-Intact none convertible = plain_sse-Intact convertible
    prime_sse_as-Intact (some e) convertible =
        if-Intact (is_gzip json http e) _ _ (gzip_sse-Intact convertible) (
          if-Intact (not (bytes_eq e (codes "identity"))) _ _ (refl, refl, refl)
            (plain_sse-Intact convertible))

    prime_json_as-Intact :
        (encoding : Option Text) → Intact r (prime_json_as json http encoding r target)
    unfolding prime_json_as
    prime_json_as-Intact none = plain_json-Intact
    prime_json_as-Intact (some e) =
        if-Intact (is_gzip json http e) _ _ gzip_json-Intact plain_json-Intact

    prime_response_as-Intact :
        (content_type : Option Text) (convertible : Bool)
        → Intact r (prime_response_as json http content_type r target convertible)
    unfolding prime_response_as prime_sse prime_json
    prime_response_as-Intact none convertible = tt
    prime_response_as-Intact (some e) convertible =
        if-Intact (bytes_eq e (codes "text/event-stream")) _ _ (prime_sse_as-Intact _ convertible) (
          if-Intact (bytes_eq e (codes "application/json") || ends_with (codes "+json") e) _ _
            (prime_json_as-Intact _) tt)

-- Whatever the content type and the encoding are, and whenever the items of the body arrive: a
-- response that is committed to the client, as a success or as a failure, has the status and the
-- headers of the upstream response, and its body reads as that one does, byte for byte, with each
-- fault of the stream at its place.
pub prime_response-Intact :
    (json : JsonLib) (http : HttpLib) (r : UpstreamResponse http) (target : Target)
    (convertible : Bool)
    → Intact r (prime_response json http r target convertible)
unfolding prime_response
prime_response-Intact json http r target convertible =
    prime_response_as-Intact json http r target _ convertible
