-- ===== src/Headers/Requests.antt =====
-- The credentials in a request that `forward_request_headers` and `forward_claude_request_headers`
-- of crates/routing-service/src/model/headers.rs pass on.
use muxvia.Prelude.{
  ◌≡◌, ◌≢◌, refl, ap, sym, ◌∙◌, Bool, true, false, ◌||◌, Option, none, some, List, [], ◌∷◌, ◌++◌,
  bytes_eq, bytes_eq_iff, if◌then◌else◌, Bool-cases, Option-cases, inl, inr,
}
use mathlib.Core.Option
use muxvia.Domain.{
  ProviderAuthentication, openai_bearer, anthropic_api_key, anthropic_bearer, codex_subscription,
}
use muxvia.Text.{Text, codes, starts_with}
use muxvia.Http.{HttpLib}
use muxvia.Auth.{routing_credential_header}
use muxvia.Headers.{
  contains, blocked_names, copy_except, request_blocked, claude_blocked, forward_request_headers,
  forward_claude_request_headers, authenticate, authenticate_with,
}
use muxvia.Headers.Forwarded.{IsHeaderMap, passed, passed-withheld, get_all-copy_except}

pub contains-append :
    (xs ys : List Text) (k : Text) → contains ys k ≡ true → contains (xs ++ ys) k ≡ true
unfolding contains
contains-append [] ys k h = h
contains-append (x ∷ xs) ys k h = either (bytes_eq x k) (contains-append xs ys k h)
  where
    either : (b : Bool) → contains (xs ++ ys) k ≡ true → (b || contains (xs ++ ys) k) ≡ true
    either true e = refl
    either false e = e

pub bytes_eq_refl : (k : Text) → bytes_eq k k ≡ true
bytes_eq_refl k = (bytes_eq_iff k k).1 refl

bytes_eq-apart : (n k : Text) → n ≢ k → bytes_eq n k ≡ false
bytes_eq-apart n k d = elim (Bool-cases (bytes_eq n k)) [
  | inl e ↦ absurd (d ((bytes_eq_iff n k).0 e))
  | inr e ↦ e
]

module _ (http : HttpLib) (laws : IsHeaderMap http) where
  open http use {HeaderMap, HeaderValue, get_all, insert, value_from_str}

  insert_same : (m : HeaderMap) (n : Text) (v : HeaderValue) → get_all (insert m n v) n ≡ v ∷ []
  insert_same m n v =
      laws.get_all-insert m n v n ∙ ap (λ b. if b then v ∷ [] else get_all m n) (bytes_eq_refl n)

  insert_other :
      (m : HeaderMap) (n : Text) (v : HeaderValue) (k : Text)
      → bytes_eq n k ≡ false
      → get_all (insert m n v) k ≡ get_all m k
  insert_other m n v k d =
      laws.get_all-insert m n v k ∙ ap (λ b. if b then v ∷ [] else get_all m k) d

  -- A name of the fixed list is not copied.
  copied_without :
      (incoming : HeaderMap) (fixed : List Text) (k : Text)
      → contains fixed k ≡ true
      → get_all (copy_except http incoming (blocked_names http incoming ++ fixed)) k ≡ []
  copied_without incoming fixed k h =
      get_all-copy_except http laws incoming _ k
      ∙ passed-withheld http (blocked_names http incoming ++ fixed) k _ (
          ap (λ b. b || starts_with (codes "proxy-") k)
            (contains-append (blocked_names http incoming) fixed k h))

  mapped_some :
      (o : Option HeaderValue) (f : HeaderValue → HeaderMap) (m : HeaderMap)
      → Option.map f o ≡ some m
      → (v : HeaderValue) × (o ≡ some v) × (m ≡ f v)
  mapped_some none f m e = cc e
  mapped_some (some v) f m e = (v, refl, cc e)

  -- A request of the Codex target that is passed on has one authorization, the bearer credential of
  -- the provider, and no routing credential; under every other name it has all the values of the
  -- incoming request or, if the name is withheld, none.
  pub forward_request_headers-Bearer :
      (incoming forwarded : HeaderMap) (credential : Text)
      → forward_request_headers http incoming credential ≡ some forwarded
      → ((v : HeaderValue) × (value_from_str (codes "Bearer " ++ credential) ≡ some v)
          × (get_all forwarded (codes "authorization") ≡ v ∷ []))
        × (get_all forwarded routing_credential_header ≡ [])
        × ((k : Text)
            → codes "authorization" ≢ k
            → get_all forwarded k
              ≡ passed http
                  (blocked_names http incoming ++ request_blocked http)
                  k
                  (get_all incoming k))
  unfolding forward_request_headers
  forward_request_headers-Bearer incoming forwarded credential e =
      let copied =
        copy_except http incoming (blocked_names http incoming ++ request_blocked http) in
      let (v, valid, made) = mapped_some _ (insert copied (codes "authorization")) forwarded e in
      (
        (v, valid, ap (λ m. get_all m (codes "authorization")) made ∙ insert_same copied _ v),
        ap (λ m. get_all m routing_credential_header) made
            ∙ insert_other copied (codes "authorization") v routing_credential_header
                (unfold bytes_eq in refl)
            ∙ copied_without incoming (request_blocked http) routing_credential_header
                (unfold contains bytes_eq in refl),
        λ k d.
            ap (λ m. get_all m k) made
            ∙ insert_other copied (codes "authorization") v k (bytes_eq-apart _ k d)
            ∙ get_all-copy_except http laws incoming _ k,
      )

  -- The credentials of a request of the Claude target.
  abbrev pub OneCredential : ProviderAuthentication → Text → HeaderMap → Type 0
  OneCredential anthropic_api_key credential m =
      ((v : HeaderValue) × (value_from_str credential ≡ some v)
        × (get_all m (codes "x-api-key") ≡ v ∷ []))
      × (get_all m (codes "authorization") ≡ [])
  OneCredential anthropic_bearer credential m =
      ((v : HeaderValue) × (value_from_str (codes "Bearer " ++ credential) ≡ some v)
        × (get_all m (codes "authorization") ≡ v ∷ []))
      × (get_all m (codes "x-api-key") ≡ [])
  OneCredential openai_bearer credential m = ⊥
  OneCredential codex_subscription credential m = ⊥

  module _ (incoming forwarded : HeaderMap) (credential : Text) where
    abbrev claude_copy : HeaderMap
    claude_copy = copy_except http incoming (blocked_names http incoming ++ claude_blocked http)

    api_key-OneCredential :
        (v : HeaderValue)
        → value_from_str credential ≡ some v
        → some (insert claude_copy (codes "x-api-key") v) ≡ some forwarded
        → OneCredential anthropic_api_key credential forwarded
          × (get_all forwarded routing_credential_header ≡ [])
    api_key-OneCredential v valid e =
        let made : forwarded ≡ insert claude_copy (codes "x-api-key") v = cc e in
        (
          (
            (v, valid, ap (λ m. get_all m (codes "x-api-key")) made ∙ insert_same claude_copy _ v),
            ap (λ m. get_all m (codes "authorization")) made
                ∙ insert_other claude_copy (codes "x-api-key") v (codes "authorization")
                    (unfold bytes_eq in refl)
                ∙ copied_without incoming (claude_blocked http) (codes "authorization")
                    (unfold contains bytes_eq in refl),
          ),
          ap (λ m. get_all m routing_credential_header) made
              ∙ insert_other claude_copy (codes "x-api-key") v routing_credential_header
                  (unfold bytes_eq in refl)
              ∙ copied_without incoming (claude_blocked http) routing_credential_header
                  (unfold contains bytes_eq in refl),
        )

    bearer-OneCredential :
        Option.map
            (insert claude_copy (codes "authorization"))
            (value_from_str (codes "Bearer " ++ credential))
          ≡ some forwarded
        → OneCredential anthropic_bearer credential forwarded
          × (get_all forwarded routing_credential_header ≡ [])
    bearer-OneCredential e =
        let (v, valid, made) =
          mapped_some _ (insert claude_copy (codes "authorization")) forwarded e in
        (
          (
            (
              v,
              valid,
              ap (λ m. get_all m (codes "authorization")) made ∙ insert_same claude_copy _ v,
            ),
            ap (λ m. get_all m (codes "x-api-key")) made
                ∙ insert_other claude_copy (codes "authorization") v (codes "x-api-key")
                    (unfold bytes_eq in refl)
                ∙ copied_without incoming (claude_blocked http) (codes "x-api-key")
                    (unfold contains bytes_eq in refl),
          ),
          ap (λ m. get_all m routing_credential_header) made
              ∙ insert_other claude_copy (codes "authorization") v routing_credential_header
                  (unfold bytes_eq in refl)
              ∙ copied_without incoming (claude_blocked http) routing_credential_header
                  (unfold contains bytes_eq in refl),
        )

    authenticate-OneCredential :
        (authentication : ProviderAuthentication) (v : HeaderValue)
        → value_from_str credential ≡ some v
        → authenticate http authentication credential claude_copy v ≡ some forwarded
        → OneCredential authentication credential forwarded
          × (get_all forwarded routing_credential_header ≡ [])
    unfolding authenticate
    authenticate-OneCredential anthropic_api_key v valid e = api_key-OneCredential v valid e
    authenticate-OneCredential anthropic_bearer v valid e = bearer-OneCredential e
    authenticate-OneCredential openai_bearer v valid e = cc e
    authenticate-OneCredential codex_subscription v valid e = cc e

    -- A request of the Claude target is passed on for the two authentications of that target only. It
    -- then has one credential, that of the provider in the header of its authentication, none in the
    -- other one, and no routing credential.
    pub forward_claude_request_headers-OneCredential :
        (authentication : ProviderAuthentication)
        → forward_claude_request_headers http incoming authentication credential ≡ some forwarded
        → OneCredential authentication credential forwarded
          × (get_all forwarded routing_credential_header ≡ [])
    unfolding forward_claude_request_headers authenticate_with
    forward_claude_request_headers-OneCredential authentication e =
        elim (Option-cases (value_from_str credential)) [
          | inl invalid ↦ absurd (
              never (
                sym (ap (authenticate_with http authentication credential claude_copy) invalid)
                ∙ e))
          | inr (v, valid) ↦
              authenticate-OneCredential authentication v valid
                (sym (ap (authenticate_with http authentication credential claude_copy) valid) ∙ e)
        ]
      where
        never : none ≡ some forwarded → ⊥
        never h = cc h
