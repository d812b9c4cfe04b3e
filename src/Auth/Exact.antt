-- ===== src/Auth/Exact.antt =====
-- The comparison of credentials of crates/routing-service/src/model/auth.rs, and equality.
use muxvia.Prelude.{
  ℕ, zero, suc, ◌≡◌, ◌↔◌, refl, ap, sym, ◌∙◌, Bool, true, not, ◌&&◌, List, [], ◌∷◌, Bytes, length,
  arith, ==_iff,
}
use muxvia.Text.{is_some}
use muxvia.Http.{HttpLib}
use muxvia.Auth.{
  routing_credential_len, routing_credential_header, byte_or_zero, normalize_from,
  normalize_credential, is_ascii, ConstantTime, bytes_or_empty, candidate_matches, first_bytes,
  duplicate, routing_credential_matches, routing_credential_value_matches,
}

-- Every round reads one byte of a longer list behind its head.
normalize_from-cons :
    (rounds index b : ℕ) (bs : Bytes)
    → normalize_from rounds (suc index) (b ∷ bs) ≡ normalize_from rounds index bs
unfolding normalize_from
normalize_from-cons zero index b bs = refl
normalize_from-cons (suc rounds) index b bs =
    ap (◌∷◌ (byte_or_zero bs index)) (normalize_from-cons rounds (suc index) b bs)

-- A string of just as many bytes is not padded.
normalize_from-exact : (bs : Bytes) → normalize_from (length bs) 0 bs ≡ bs
unfolding normalize_from
normalize_from-exact [] = refl
normalize_from-exact (b ∷ bs) =
    ap (◌∷◌ b) (normalize_from-cons (length bs) 0 b bs ∙ normalize_from-exact bs)

normalize_exact : (bs : Bytes) → length bs ≡ routing_credential_len → normalize_credential bs ≡ bs
unfolding normalize_credential
normalize_exact bs e = ap (λ n. normalize_from n 0 bs) (sym e) ∙ normalize_from-exact bs

-- What `subtle` promises, and the form of a credential.
abbrev pub IsEquality : ConstantTime → Type 0
IsEquality ct = (a b : Bytes) → (ct.ct_eq a b ≡ true) ↔ (a ≡ b)

abbrev pub IsCredential : Bytes → Type 0
IsCredential bs = (length bs ≡ routing_credential_len) × (is_ascii bs ≡ true)

pub and_both : (a b : Bool) → (a && b) ≡ true → (a ≡ true) × (b ≡ true)
and_both a b h = ground arith

pub and_intro : {a b : Bool} → a ≡ true → b ≡ true → (a && b) ≡ true
and_intro h k = rw (h, k) refl

module _ (ct : ConstantTime) (exact : IsEquality ct) where
  pub matches→ :
      (bytes expected : Bytes)
      → candidate_matches ct bytes expected ≡ true
      → (bytes ≡ expected) × IsCredential expected
  unfolding candidate_matches
  matches→ bytes expected h =
      let first = and_both _ _ h in
      let second = and_both _ _ first.1 in
      let third = and_both _ _ second.1 in
      let fourth = and_both _ _ third.1 in
      let same = (exact (normalize_credential bytes) (normalize_credential expected)).0 first.0 in
      let long = (==_iff (length bytes) routing_credential_len).0 second.0 in
      let long' = (==_iff (length expected) routing_credential_len).0 fourth.0 in
      (
        sym (normalize_exact bytes long) ∙ same ∙ normalize_exact expected long',
        (long', ap is_ascii (sym (normalize_exact expected long')) ∙ fourth.1),
      )

  pub matches← :
      (expected : Bytes) → IsCredential expected → candidate_matches ct expected expected ≡ true
  unfolding candidate_matches
  matches← expected (long, ascii) =
      let equal = (exact (normalize_credential expected) (normalize_credential expected)).1 refl in
      let measured = (==_iff (length expected) routing_credential_len).1 long in
      let plain = ap is_ascii (normalize_exact expected long) ∙ ascii in
      and_intro equal (and_intro measured (and_intro plain (and_intro measured plain)))

  -- The values are compared as they are: the check accepts exactly the equal ones of the form of a
  -- credential.
  pub routing_credential_value_matches-eq :
      (candidate expected : Bytes)
      → (routing_credential_value_matches ct candidate expected ≡ true)
        ↔ ((candidate ≡ expected) × IsCredential expected)
  unfolding routing_credential_value_matches
  routing_credential_value_matches-eq candidate expected = (
    matches→ candidate expected,
    λ (e, form). ap (λ c. candidate_matches ct c expected) e ∙ matches← expected form,
  )

  module _ (http : HttpLib) where
    -- The header has one value.
    abbrev pub Only : List http.HeaderValue → Bytes → Type 0
    Only values bytes = (v : http.HeaderValue) × (values ≡ v ∷ []) × (http.as_bytes v ≡ bytes)

    pub only→ :
        (values : List http.HeaderValue)
        → (is_some (first_bytes ct http values) && not (duplicate ct http values)) ≡ true
        → Only values (bytes_or_empty (first_bytes ct http values))
    unfolding first_bytes duplicate bytes_or_empty
    only→ [] h = cc
    only→ (v ∷ []) h = (v, refl, refl)
    only→ (v ∷ w ∷ vs) h = cc

    pub only← :
        (values : List http.HeaderValue) (bytes : Bytes)
        → Only values bytes
        → ((is_some (first_bytes ct http values) && not (duplicate ct http values)) ≡ true)
          × (bytes_or_empty (first_bytes ct http values) ≡ bytes)
    unfolding first_bytes duplicate bytes_or_empty
    only← values bytes (v, e, b) = rw e (refl, b)

    -- A request is let in exactly when it has one credential header, whose value is the expected
    -- credential of 64 ASCII bytes.
    pub routing_credential_matches-Only :
        (headers : http.HeaderMap) (expected : Bytes)
        → (routing_credential_matches ct http headers expected ≡ true)
          ↔ (Only (http.get_all headers routing_credential_header) expected × IsCredential expected)
    unfolding routing_credential_matches
    routing_credential_matches-Only headers expected = (
      (λ h.
          let values = http.get_all headers routing_credential_header in
          let both = and_both _ _ h in
          let (v, e, b) = only→ values both.0 in
          let m = matches→ _ expected both.1 in ((v, e, b ∙ m.0), m.1)),
      λ (only, form).
          let o = only← (http.get_all headers routing_credential_header) expected only in
          and_intro o.0 (ap (λ c. candidate_matches ct c expected) o.1 ∙ matches← expected form),
    )
