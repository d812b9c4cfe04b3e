-- ===== src/Headers.antt =====
-- Which headers are passed on, crates/routing-service/src/model/headers.rs. A header name is its
-- text in lower case, a set of names a list of them.
pub mod Forwarded
pub mod Requests
pub mod Connection
mod Tests
use muxvia.Prelude.{
  ℕ, Bool, true, false, not, ◌&&◌, ◌||◌, Option, none, some, List, [], ◌∷◌, ◌++◌, Bytes, bytes_eq,
  ◌==◌, if◌then◌else◌,
}
use mathlib.Core.Option
use muxvia.Domain.{
  ProviderAuthentication, openai_bearer, anthropic_api_key, anthropic_bearer, codex_subscription,
}
use muxvia.Text.{Text, codes, starts_with}
use muxvia.Http.{HttpLib}
use muxvia.Auth.{routing_credential_header}

abbrev pub hop_by_hop : List Text
hop_by_hop =
    codes "connection"
    ∷ codes "keep-alive"
    ∷ codes "proxy-authenticate"
    ∷ codes "proxy-authorization"
    ∷ codes "proxy-connection"
    ∷ codes "te"
    ∷ codes "trailer"
    ∷ codes "transfer-encoding"
    ∷ codes "upgrade"
    ∷ []

unfoldable pub contains : List Text → Text → Bool
unfolding bytes_eq
contains [] name = false
contains (n ∷ names) name = bytes_eq n name || contains names name

-- `u8::is_ascii_whitespace`
is_ascii_whitespace : ℕ → Bool
is_ascii_whitespace b = b == 32 || b == 9 || b == 10 || b == 12 || b == 13

trim_first : Bytes → Bytes
unfolding is_ascii_whitespace
trim_first [] = []
trim_first (b ∷ bs) = let rest = trim_first bs in if is_ascii_whitespace b then rest else b ∷ bs

-- A byte is dropped if everything behind it was.
trim_last_of : ℕ → Bytes → Bytes
unfolding is_ascii_whitespace
trim_last_of b [] = if is_ascii_whitespace b then [] else b ∷ []
trim_last_of b (next ∷ rest) = b ∷ next ∷ rest

trim_last : Bytes → Bytes
unfolding trim_last_of
trim_last [] = []
trim_last (b ∷ bs) = trim_last_of b (trim_last bs)

unfoldable pub trim_ascii_whitespace : Bytes → Bytes
unfolding trim_first trim_last
trim_ascii_whitespace value = trim_last (trim_first value)

-- `split(|byte| *byte == b',')`: the parts, an empty one included.
add_byte : ℕ → List Bytes → List Bytes
add_byte b [] = (b ∷ []) ∷ []
add_byte b (part ∷ parts) = (b ∷ part) ∷ parts

unfoldable pub split_commas : Bytes → List Bytes
unfolding add_byte
split_commas [] = [] ∷ []
split_commas (b ∷ bs) =
    let rest = split_commas bs in if b == b',' then [] ∷ rest else add_byte b rest

module _ (http : HttpLib) where
  open http use {
    HeaderMap, HeaderValue, new_map, iter, get_all, append, insert, name_from_bytes, value_from_str,
    as_bytes,
  }

  pub add_name : Option Text → List Text → List Text
  add_name none names = names
  add_name (some name) names = name ∷ names

  -- The names that a list of tokens adds.
  pub token_names : List Bytes → List Text
  unfolding trim_ascii_whitespace add_name
  token_names [] = []
  token_names (token ∷ tokens) =
      add_name (name_from_bytes (trim_ascii_whitespace token)) (token_names tokens)

  pub connection_names : List HeaderValue → List Text
  unfolding token_names split_commas
  connection_names [] = []
  connection_names (value ∷ values) =
      token_names (split_commas (as_bytes value)) ++ connection_names values

  unfoldable pub blocked_names : HeaderMap → List Text
  unfolding connection_names
  blocked_names headers = hop_by_hop ++ connection_names (get_all headers (codes "connection"))

  -- The loop of `copy_except`.
  unfoldable pub copy_entries : List (Text × HeaderValue) → List Text → HeaderMap → HeaderMap
  unfolding contains starts_with
  copy_entries [] blocked copied = copied
  copy_entries ((name, value) ∷ rest) blocked copied =
      if not (contains blocked name) && not (starts_with (codes "proxy-") name)
      then copy_entries rest blocked (append copied name value)
      else copy_entries rest blocked copied

  unfoldable pub copy_except : HeaderMap → List Text → HeaderMap
  unfolding copy_entries
  copy_except headers blocked = copy_entries (iter headers) blocked new_map

  abbrev pub request_blocked : List Text
  request_blocked =
      codes "host" ∷ codes "content-length" ∷ codes "authorization" ∷ routing_credential_header ∷ []

  unfoldable pub forward_request_headers : HeaderMap → Text → Option HeaderMap
  unfolding copy_except blocked_names
  forward_request_headers incoming provider_credential =
      let forwarded = copy_except incoming (blocked_names incoming ++ request_blocked) in
      Option.map (insert forwarded (codes "authorization"))
        (value_from_str (codes "Bearer " ++ provider_credential))

  abbrev pub claude_blocked : List Text
  claude_blocked =
      codes "host"
      ∷ codes "content-length"
      ∷ codes "content-encoding"
      ∷ codes "authorization"
      ∷ codes "x-api-key"
      ∷ routing_credential_header
      ∷ []

  -- The `match` on the authentication, with the value of the credential.
  authenticate : ProviderAuthentication → Text → HeaderMap → HeaderValue → Option HeaderMap
  authenticate anthropic_api_key credential forwarded value =
      some (insert forwarded (codes "x-api-key") value)
  authenticate anthropic_bearer credential forwarded value =
      Option.map (insert forwarded (codes "authorization"))
        (value_from_str (codes "Bearer " ++ credential))
  authenticate openai_bearer credential forwarded value = none
  authenticate codex_subscription credential forwarded value = none

  authenticate_with :
      ProviderAuthentication → Text → HeaderMap → Option HeaderValue → Option HeaderMap
  unfolding authenticate
  authenticate_with authentication credential forwarded none = none
  authenticate_with authentication credential forwarded (some value) =
      authenticate authentication credential forwarded value

  unfoldable pub forward_claude_request_headers :
      HeaderMap → ProviderAuthentication → Text → Option HeaderMap
  unfolding copy_except blocked_names authenticate_with
  forward_claude_request_headers incoming authentication provider_credential =
      let forwarded = copy_except incoming (blocked_names incoming ++ claude_blocked) in
      authenticate_with authentication provider_credential forwarded
        (value_from_str provider_credential)

  unfoldable pub forward_response_headers : HeaderMap → HeaderMap
  unfolding copy_except blocked_names
  forward_response_headers incoming =
      copy_except incoming (blocked_names incoming ++ codes "content-length" ∷ [])
