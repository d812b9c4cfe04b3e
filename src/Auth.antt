-- ===== src/Auth.antt =====
-- The check of the routing credential, crates/routing-service/src/model/auth.rs. The comparison in
-- constant time is that of the crate `subtle`, which is a parameter.
pub mod Exact
pub mod Bearer
mod Tests
use muxvia.Prelude.{
  ℕ, zero, suc, Bool, true, false, not, ◌&&◌, Option, none, some, List, [], ◌∷◌, Bytes, length, ltb,
  ◌==◌,
}
use muxvia.Text.{Text, codes, strip_prefix, is_some}
use muxvia.Http.{HttpLib}

-- `ROUTING_CREDENTIAL_LEN`
abbrev pub routing_credential_len : ℕ
routing_credential_len = 64

abbrev pub routing_credential_header : Text
routing_credential_header = codes "x-muxvia-routing-credential"

-- `bytes.get(index).copied().unwrap_or(0)`
unfoldable pub byte_or_zero : Bytes → ℕ → ℕ
byte_or_zero [] index = 0
byte_or_zero (b ∷ bs) zero = b
byte_or_zero (b ∷ bs) (suc index) = byte_or_zero bs index

-- The loop of `normalize_credential`: the bytes from `index`, as many as there are rounds left.
normalize_from : (rounds : ℕ) → (index : ℕ) → Bytes → Bytes
unfolding byte_or_zero
normalize_from zero index bytes = []
normalize_from (suc rounds) index bytes =
    byte_or_zero bytes index ∷ normalize_from rounds (suc index) bytes

unfoldable pub normalize_credential : Bytes → Bytes
unfolding normalize_from
normalize_credential = normalize_from routing_credential_len 0

unfoldable pub is_ascii : Bytes → Bool
is_ascii [] = true
is_ascii (b ∷ bs) = ltb b 128 && is_ascii bs

-- `subtle::ConstantTimeEq` on byte arrays.
pub record ConstantTime : Type 0 where
  pub ct_eq : Bytes → Bytes → Bool

unfoldable pub bytes_or_empty : Option Bytes → Bytes
bytes_or_empty none = []
bytes_or_empty (some bytes) = bytes

module _ (ct : ConstantTime) where
  -- The comparison of a candidate with the expected credential, in all three checks.
  unfoldable pub candidate_matches : Bytes → Bytes → Bool
  unfolding normalize_credential is_ascii
  candidate_matches bytes expected =
      ct.ct_eq (normalize_credential bytes) (normalize_credential expected)
      && (length bytes == routing_credential_len
          && (is_ascii (normalize_credential bytes)
              && (length expected == routing_credential_len
                  && is_ascii (normalize_credential expected))))

  unfoldable pub routing_credential_value_matches : Bytes → Bytes → Bool
  unfolding candidate_matches
  routing_credential_value_matches candidate expected = candidate_matches candidate expected

  module _ (http : HttpLib) where
    open http use {HeaderMap, HeaderValue, get_all, as_bytes}

    -- The first value, and whether there is another.
    unfoldable pub first_bytes : List HeaderValue → Option Bytes
    first_bytes [] = none
    first_bytes (v ∷ vs) = some (as_bytes v)

    unfoldable pub duplicate : List HeaderValue → Bool
    duplicate (v ∷ w ∷ vs) = true
    duplicate _ = false

    unfoldable pub routing_credential_matches : HeaderMap → Bytes → Bool
    unfolding candidate_matches first_bytes duplicate bytes_or_empty
    routing_credential_matches headers expected =
        let values = get_all headers routing_credential_header in
        (is_some (first_bytes values) && not (duplicate values))
        && candidate_matches (bytes_or_empty (first_bytes values)) expected

    unfoldable pub bearer_routing_credential_matches : HeaderMap → Bytes → Bool
    unfolding candidate_matches first_bytes duplicate bytes_or_empty strip_prefix
    bearer_routing_credential_matches headers expected =
        let values = get_all headers (codes "authorization") in
        let token =
          bytes_or_empty (strip_prefix (codes "Bearer ") (bytes_or_empty (first_bytes values))) in
        (is_some (first_bytes values) && not (duplicate values)) && candidate_matches token expected
