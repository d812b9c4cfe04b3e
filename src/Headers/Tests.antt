-- ===== src/Headers/Tests.antt =====
-- Header maps that are lists keep the laws of header maps.
use muxvia.Prelude.{
  ◌≡◌, ◌≢◌, refl, ap, ◌∙◌, sym, true, false, some, [], ◌∷◌, ◌++◌, List, bytes_eq, bytes_eq_iff,
  if◌then◌else◌, Bool-cases, inl, inr, Bool,
}
use muxvia.Domain.{anthropic_bearer}
use muxvia.Text.{Text, codes, starts_with}
use muxvia.Headers.{
  blocked_names, request_blocked, forward_request_headers, forward_claude_request_headers,
  forward_response_headers,
}
use muxvia.Headers.Forwarded.{IsHeaderMap, values_under, passed, get_all-forward_response_headers}
use muxvia.Headers.Requests.{
  OneCredential, forward_request_headers-Bearer, forward_claude_request_headers-OneCredential,
}
use muxvia.Auth.{routing_credential_header}
use muxvia.Headers.{split_commas, trim_ascii_whitespace}
use muxvia.Headers.Connection.{forward_response_headers-connection}
use muxvia.Samples.{listed_http, values_of, without}

values_of-values_under :
    (m : List (Text × Text)) (k : Text) → values_of m k ≡ values_under listed_http m k
values_of-values_under [] k = refl
values_of-values_under ((n, v) ∷ m) k = elim (Bool-cases (bytes_eq n k)) [
  | inl e ↦ rw e (ap (◌∷◌ v) (values_of-values_under m k))
  | inr e ↦ rw e (values_of-values_under m k)
]

append_behind :
    (b c : Bool) (v' v : Text) (xs r : List Text)
    → r ≡ (if c then xs ++ v ∷ [] else xs)
    → (if b then v' ∷ r else r)
      ≡ (if c then (if b then v' ∷ xs else xs) ++ v ∷ [] else (if b then v' ∷ xs else xs))
append_behind false c v' v xs r e = e
append_behind true true v' v xs r e = ap (◌∷◌ v') e
append_behind true false v' v xs r e = ap (◌∷◌ v') e

values_of-append :
    (m : List (Text × Text)) (n v k : Text)
    → values_of (m ++ (n, v) ∷ []) k
      ≡ (if bytes_eq n k then values_of m k ++ v ∷ [] else values_of m k)
values_of-append [] n v k = refl
values_of-append ((n', v') ∷ m) n v k =
    append_behind (bytes_eq n' k) (bytes_eq n k) v' v (values_of m k) _ (values_of-append m n v k)

without_same : (m : List (Text × Text)) (n : Text) → values_of (without m n) n ≡ []
without_same [] n = refl
without_same ((n', v') ∷ m) n = elim (Bool-cases (bytes_eq n' n)) [
  | inl e ↦ rw e (without_same m n)
  | inr e ↦ rw (e, e) (without_same m n)
]

without_other :
    (m : List (Text × Text)) (n k : Text)
    → bytes_eq n k ≡ false
    → values_of (without m n) k ≡ values_of m k
without_other [] n k d = refl
without_other ((n', v') ∷ m) n k d = elim (Bool-cases (bytes_eq n' n)) [
  | inl e ↦ rw (e, ap (λ x. bytes_eq x k) ((bytes_eq_iff n' n).0 e) ∙ d) (without_other m n k d)
  | inr e ↦ rw e (ap (λ r. if bytes_eq n' k then v' ∷ r else r) (without_other m n k d))
]

values_of-insert :
    (m : List (Text × Text)) (n v k : Text)
    → values_of ((n, v) ∷ without m n) k ≡ (if bytes_eq n k then v ∷ [] else values_of m k)
values_of-insert m n v k = elim (Bool-cases (bytes_eq n k)) [
  | inl e ↦
      rw e (
        ap (◌∷◌ v) (ap (values_of (without m n)) (sym ((bytes_eq_iff n k).0 e)) ∙ without_same m n))
  | inr e ↦ rw e (without_other m n k e)
]

listed-IsHeaderMap : IsHeaderMap listed_http
listed-IsHeaderMap = record {
  get_all-new_map = λ k. refl;
  get_all-iter = values_of-values_under;
  get_all-append = values_of-append;
  get_all-insert = values_of-insert;
}

abbrev incoming : List (Text × Text)
incoming =
    (codes "authorization", codes "Bearer x")
    ∷ (codes "connection", codes "a, b")
    ∷ (codes "b", codes "1")
    ∷ (codes "c", codes "2")
    ∷ []

get_all-forward_response_headers_example :
    values_of (forward_response_headers listed_http incoming) (codes "b")
    ≡ passed listed_http
        (blocked_names listed_http incoming ++ codes "content-length" ∷ [])
        (codes "b")
        (codes "1" ∷ [])
unfolding bytes_eq
get_all-forward_response_headers_example =
    get_all-forward_response_headers listed_http listed-IsHeaderMap incoming (codes "b")

abbrev to_codex : List (Text × Text)
to_codex = (codes "authorization", codes "Bearer y") ∷ (codes "c", codes "2") ∷ []

to_codex_forwarded : forward_request_headers listed_http incoming (codes "y") ≡ some to_codex
unfolding forward_request_headers bytes_eq starts_with
to_codex_forwarded = refl

forward_request_headers-Bearer_example :
    ((v : Text) × (some (codes "Bearer y") ≡ some v)
      × (values_of to_codex (codes "authorization") ≡ v ∷ []))
    × (values_of to_codex routing_credential_header ≡ [])
    × ((k : Text)
        → codes "authorization" ≢ k
        → values_of to_codex k
          ≡ passed listed_http
              (blocked_names listed_http incoming ++ request_blocked listed_http)
              k
              (values_of incoming k))
forward_request_headers-Bearer_example =
    forward_request_headers-Bearer listed_http listed-IsHeaderMap incoming to_codex (codes "y")
      to_codex_forwarded

to_claude_forwarded :
    forward_claude_request_headers listed_http incoming anthropic_bearer (codes "y") ≡ some to_codex
unfolding forward_claude_request_headers bytes_eq starts_with
to_claude_forwarded = refl

forward_claude_request_headers-OneCredential_example :
    OneCredential listed_http listed-IsHeaderMap anthropic_bearer (codes "y") to_codex
    × (values_of to_codex routing_credential_header ≡ [])
forward_claude_request_headers-OneCredential_example =
    forward_claude_request_headers-OneCredential listed_http listed-IsHeaderMap incoming to_codex
      (codes "y") anthropic_bearer to_claude_forwarded

forward_response_headers-connection_example :
    values_of (forward_response_headers listed_http incoming) (codes "b") ≡ []
forward_response_headers-connection_example =
    forward_response_headers-connection listed_http listed-IsHeaderMap incoming [] [] (codes "a, b")
      (codes "a" ∷ []) [] (codes " b") (codes "b") (unfold bytes_eq in refl)
      (unfold split_commas in refl) (unfold trim_ascii_whitespace in refl)
