-- ===== src/Headers/Connection.antt =====
-- The headers that a `Connection` header names, `blocked_names` of
-- crates/routing-service/src/model/headers.rs.
use muxvia.Prelude.{
  ◌≡◌, refl, ap, sym, ◌∙◌, subst, Bool, true, false, ◌||◌, Option, none, some, List, [], ◌∷◌, ◌++◌,
  Bytes, bytes_eq,
}
use muxvia.Text.{Text, codes, starts_with}
use muxvia.Http.{HttpLib}
use muxvia.Headers.{
  contains, hop_by_hop, add_name, token_names, connection_names, blocked_names, split_commas,
  trim_ascii_whitespace, forward_response_headers,
}
use muxvia.Headers.Forwarded.{IsHeaderMap, passed-withheld, get_all-forward_response_headers}
use muxvia.Headers.Requests.{contains-append, bytes_eq_refl}

or_left : (b : Bool) {a : Bool} → a ≡ true → (a || b) ≡ true
or_left b e = ap (λ a. a || b) e

or_right : (a : Bool) {b : Bool} → b ≡ true → (a || b) ≡ true
or_right true e = refl
or_right false e = e

contains_before :
    (xs ys : List Text) (k : Text) → contains xs k ≡ true → contains (xs ++ ys) k ≡ true
unfolding contains
contains_before [] ys k h = cc h
contains_before (x ∷ xs) ys k h = either (bytes_eq x k) h (contains_before xs ys k)
  where
    either :
        (b : Bool)
        → (b || contains xs k) ≡ true
        → (contains xs k ≡ true → contains (xs ++ ys) k ≡ true)
        → (b || contains (xs ++ ys) k) ≡ true
    either true e later = refl
    either false e later = later e

module _ (http : HttpLib) where
  open http use {HeaderMap, HeaderValue, get_all, name_from_bytes, as_bytes}

  contains-token_names :
      (front back : List Bytes) (token : Bytes) (name : Text)
      → name_from_bytes (trim_ascii_whitespace token) ≡ some name
      → contains (token_names http (front ++ token ∷ back)) name ≡ true
  unfolding token_names contains add_name
  contains-token_names [] back token name e =
      ap (λ o. contains (add_name http o (token_names http back)) name) e
      ∙ or_left _ (bytes_eq_refl name)
  contains-token_names (t ∷ front) back token name e =
      added (name_from_bytes (trim_ascii_whitespace t))
        (contains-token_names front back token name e)
    where
      added :
          (o : Option Text)
          → contains (token_names http (front ++ token ∷ back)) name ≡ true
          → contains (add_name http o (token_names http (front ++ token ∷ back))) name ≡ true
      added none h = h
      added (some n) h = or_right (bytes_eq n name) h

  contains-connection_names :
      (before after : List HeaderValue) (v : HeaderValue) (name : Text)
      → contains (token_names http (split_commas (as_bytes v))) name ≡ true
      → contains (connection_names http (before ++ v ∷ after)) name ≡ true
  unfolding connection_names
  contains-connection_names [] after v name h =
      contains_before (token_names http (split_commas (as_bytes v))) (connection_names http after)
        name h
  contains-connection_names (u ∷ before) after v name h =
      contains-append (token_names http (split_commas (as_bytes u)))
        (connection_names http (before ++ v ∷ after)) name
        (contains-connection_names before after v name h)

  -- A header that any of the `Connection` headers of a response names, in any place of its list and
  -- with white space around it, is not passed on, by the laws of header maps.
  pub forward_response_headers-connection :
      (laws : IsHeaderMap http) (incoming : HeaderMap) (before after : List HeaderValue)
      (v : HeaderValue) (front back : List Bytes) (token : Bytes) (name : Text)
      → get_all incoming (codes "connection") ≡ before ++ v ∷ after
      → split_commas (as_bytes v) ≡ front ++ token ∷ back
      → name_from_bytes (trim_ascii_whitespace token) ≡ some name
      → get_all (forward_response_headers http incoming) name ≡ []
  unfolding blocked_names
  forward_response_headers-connection laws incoming before after v front back token name c s e =
      let listed =
        subst (λ tokens. contains (token_names http tokens) name ≡ true) (sym s)
          (contains-token_names front back token name e) in
      let named =
        subst (λ vs. contains (connection_names http vs) name ≡ true) (sym c)
          (contains-connection_names before after v name listed) in
      let blocked =
        contains_before (blocked_names http incoming) (codes "content-length" ∷ []) name (
          contains-append hop_by_hop (connection_names http (get_all incoming (codes "connection")))
            name named) in
      get_all-forward_response_headers http laws incoming name
      ∙ passed-withheld http (blocked_names http incoming ++ codes "content-length" ∷ []) name _
          (or_left (starts_with (codes "proxy-") name) blocked)
