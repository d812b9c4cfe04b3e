-- ===== src/Auth/Tests.antt =====
-- A credential of 64 letters.
use muxvia.Prelude.{◌≡◌, refl, true, Bytes, [], ◌∷◌, bytes_eq, bytes_eq_iff, replicate}
use muxvia.Auth.{
  is_ascii, routing_credential_header, routing_credential_value_matches, routing_credential_matches,
}
use muxvia.Auth.Exact.{
  IsCredential, routing_credential_value_matches-eq, routing_credential_matches-Only,
}
use muxvia.Auth.{bearer_routing_credential_matches}
use muxvia.Auth.Bearer.{bearer_routing_credential_matches-Only}
use muxvia.Text.{codes}
use muxvia.Prelude.{◌++◌}
use muxvia.Samples.{plain_eq, listed_http}

abbrev secret : Bytes
secret = replicate 64 b'a'

secret-IsCredential : IsCredential secret
unfolding is_ascii
secret-IsCredential = (refl, refl)

routing_credential_value_matches-eq_example :
    routing_credential_value_matches plain_eq secret secret ≡ true
routing_credential_value_matches-eq_example =
    (routing_credential_value_matches-eq plain_eq bytes_eq_iff secret secret).1
      (refl, secret-IsCredential)

routing_credential_matches-Only_example :
    routing_credential_matches plain_eq listed_http
      ((routing_credential_header, secret) ∷ [])
      secret
    ≡ true
unfolding bytes_eq
routing_credential_matches-Only_example =
    (routing_credential_matches-Only plain_eq bytes_eq_iff listed_http
        ((routing_credential_header, secret) ∷ []) secret).1
      ((secret, refl, refl), secret-IsCredential)

bearer_routing_credential_matches-Only_example :
    bearer_routing_credential_matches plain_eq listed_http
      ((codes "authorization", codes "Bearer " ++ secret) ∷ [])
      secret
    ≡ true
unfolding bytes_eq
bearer_routing_credential_matches-Only_example =
    (bearer_routing_credential_matches-Only plain_eq bytes_eq_iff listed_http
        ((codes "authorization", codes "Bearer " ++ secret) ∷ []) secret).1
      ((codes "Bearer " ++ secret, refl, refl), secret-IsCredential)
