-- ===== src/Auth/Bearer.antt =====
-- The bearer credential of a request of the Claude target.
use muxvia.Prelude.{
  ◌≡◌, ◌↔◌, refl, ap, sym, ◌∙◌, true, none, some, [], ◌∷◌, ◌++◌, Bytes, length, ◌==◌, if◌then◌else◌,
  arith, ==_iff, Bool-cases, Option-cases, inl, inr,
}
use muxvia.Text.{Text, codes, strip_prefix}
use muxvia.Http.{HttpLib}
use muxvia.Auth.{ConstantTime, bytes_or_empty, candidate_matches, bearer_routing_credential_matches}
use muxvia.Auth.Exact.{
  IsEquality, IsCredential, and_both, and_intro, matches→, matches←, Only, only→, only←,
}

pub strip_prefix-append : (p t : Text) → strip_prefix p (p ++ t) ≡ some t
unfolding strip_prefix
strip_prefix-append [] t = refl
strip_prefix-append (c ∷ p) t =
    ap (λ b. if b then strip_prefix p (p ++ t) else none) ((==_iff c c).1 refl)
    ∙ strip_prefix-append p t

pub strip_prefix-some : (p x t : Text) → strip_prefix p x ≡ some t → x ≡ p ++ t
unfolding strip_prefix
strip_prefix-some [] x t e = cc e
strip_prefix-some (c ∷ p) [] t e = cc e
strip_prefix-some (c ∷ p) (d ∷ x) t e = elim (Bool-cases (c == d)) [
  | inl same ↦
      ap (λ a. a ∷ x) (sym ((==_iff c d).0 same))
      ∙ ap (◌∷◌ c)
          (strip_prefix-some p x t (sym (ap (λ b. if b then strip_prefix p x else none) same) ∙ e))
  | inr other ↦ absurd (never (sym (ap (λ b. if b then strip_prefix p x else none) other) ∙ e))
]
  where
    never : none ≡ some t → ⊥
    never h = cc h

module _ (ct : ConstantTime) (exact : IsEquality ct) (http : HttpLib) where
  -- The token that is compared is the credential: then it was behind the scheme.
  token_behind :
      (bytes expected : Bytes)
      → IsCredential expected
      → bytes_or_empty (strip_prefix (codes "Bearer ") bytes) ≡ expected
      → bytes ≡ codes "Bearer " ++ expected
  unfolding bytes_or_empty
  token_behind bytes expected form e = elim (Option-cases (strip_prefix (codes "Bearer ") bytes)) [
    | inl missing ↦ absurd (too_short (ap length (sym (ap bytes_or_empty missing) ∙ e)))
    | inr (t, found) ↦
        strip_prefix-some (codes "Bearer ") bytes t found
        ∙ ap (λ k. codes "Bearer " ++ k) (sym (ap bytes_or_empty found) ∙ e)
  ]
    where
      too_short : 0 ≡ length expected → ⊥
      too_short h = omega (arith, h, form.0)

  -- A request of the Claude target is let in exactly when it has one authorization, whose value is
  -- the scheme `Bearer`, one space, and the expected credential of 64 ASCII bytes.
  pub bearer_routing_credential_matches-Only :
      (headers : http.HeaderMap) (expected : Bytes)
      → (bearer_routing_credential_matches ct http headers expected ≡ true) ↔ (
          Only ct exact http
            (http.get_all headers (codes "authorization"))
            (codes "Bearer " ++ expected)
          × IsCredential expected)
  unfolding bearer_routing_credential_matches bytes_or_empty
  bearer_routing_credential_matches-Only headers expected = (
    (λ h.
        let values = http.get_all headers (codes "authorization") in
        let both = and_both _ _ h in
        let (v, e, b) = only→ ct exact http values both.0 in
        let m = matches→ ct exact _ expected both.1 in
        ((v, e, b ∙ token_behind _ expected m.1 m.0), m.1)),
    λ (only, form).
        let o = only← ct exact http (http.get_all headers (codes "authorization")) _ only in
        and_intro o.0 (
          ap
            (λ c. candidate_matches ct (bytes_or_empty (strip_prefix (codes "Bearer ") c)) expected)
            o.1
          ∙ ap (λ c. candidate_matches ct (bytes_or_empty c) expected)
              (strip_prefix-append (codes "Bearer ") expected)
          ∙ matches← ct exact expected form),
  )
