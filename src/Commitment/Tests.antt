-- ===== src/Commitment/Tests.antt =====
-- A response with a JSON body.
use muxvia.Prelude.{false}
use muxvia.Domain.{codex}
use muxvia.Commitment.{prime_response}
use muxvia.Commitment.Intact.{Intact, prime_response-Intact}
use muxvia.Samples.{typed_json, listed_http, json_response}

prime_response-Intact_example :
    Intact json_response (prime_response typed_json listed_http json_response codex false)
prime_response-Intact_example =
    prime_response-Intact typed_json listed_http json_response codex false
