-- ===== src/Redaction/Length.antt =====
-- The length of what `redact` of crates/routing-service/src/model/request_recorder.rs returns.
use muxvia.Prelude.{
  ℕ, zero, suc, ◌+◌, ◌-◌, ◌≤◌, ◌≡◌, refl, ap, sym, ◌∙◌, true, false, none, List, [], ◌∷◌, ◌++◌,
  Bytes, length, drop, replicate, length-append, length-drop, leb, if◌then◌else◌, arith, Bool-cases,
  inl, inr, ◌==◌,
}
use muxvia.Text.{Text, codes, starts_with, strip_prefix, is_some}
use muxvia.Redaction.{replacement, blot, blot_all, redact, longest_first, not_empty}

length-replicate {ℓ} : {A : Type ℓ} (n : ℕ) (a : A) → length (replicate n a) ≡ n
length-replicate zero a = refl
length-replicate (suc n) a = omega (arith, length-replicate n a)

length-replacement : (secret : Bytes) → length (replacement secret) ≡ length secret
unfolding replacement
length-replacement secret = elim (Bool-cases (leb 10 (length secret))) [
  | inl long ↦ rw long (
      length-append (codes "[REDACTED]") (replicate {A = ℕ} (length secret - 10) b'*')
      ∙ ap (λ n. 10 + n) (length-replicate {A = ℕ} (length secret - 10) b'*')
      ∙ restored long)
  | inr short ↦ rw short (length-replicate {A = ℕ} (length secret) b'*')
]
  where
    restored : leb 10 (length secret) ≡ true → 10 + (length secret - 10) ≡ length secret
    restored h = ground arith

starts_with-length :
    (prefix text : Text) → starts_with prefix text ≡ true → length prefix ≤ length text
unfolding starts_with
starts_with-length [] text h = omega arith
starts_with-length (p ∷ ps) [] h = cc h
starts_with-length (p ∷ ps) (t ∷ ts) h = elim (Bool-cases (p == t)) [
  | inl same ↦ omega (
    arith,
    starts_with-length ps ts
        (sym (ap (λ b. is_some (if b then strip_prefix ps ts else none)) same) ∙ h),
  )
  | inr other ↦
      absurd (never (sym (ap (λ b. is_some (if b then strip_prefix ps ts else none)) other) ∙ h))
]
  where
    never : false ≡ true → ⊥
    never e = cc e

pub blot_hit :
    (secret : Bytes) (fuel b : ℕ) (bs : Bytes)
    → starts_with secret (b ∷ bs) ≡ true
    → blot secret (suc fuel) (b ∷ bs)
      ≡ replacement secret ++ blot secret fuel (drop (length secret) (b ∷ bs))
unfolding blot
blot_hit secret fuel b bs e = rw (e, blot) refl

pub blot_miss :
    (secret : Bytes) (fuel b : ℕ) (bs : Bytes)
    → starts_with secret (b ∷ bs) ≡ false
    → blot secret (suc fuel) (b ∷ bs) ≡ b ∷ blot secret fuel bs
unfolding blot
blot_miss secret fuel b bs e = rw (e, blot) refl

length-blot :
    (secret : Bytes) (fuel : ℕ) (bytes : Bytes) → length (blot secret fuel bytes) ≡ length bytes
unfolding blot
length-blot secret zero bytes = refl
length-blot secret (suc fuel) [] = refl
length-blot secret (suc fuel) (b ∷ bs) = elim (Bool-cases (starts_with secret (b ∷ bs))) [
  | inl hit ↦
      let rest = drop (length secret) (b ∷ bs) in
      ap length (blot_hit secret fuel b bs hit)
      ∙ length-append (replacement secret) (blot secret fuel rest)
      ∙ omega (
        arith,
        length-replacement secret,
        length-blot secret fuel rest,
        length-drop (length secret) (b ∷ bs),
        starts_with-length secret (b ∷ bs) hit,
      )
  | inr miss ↦ ap length (blot_miss secret fuel b bs miss) ∙ ap suc (length-blot secret fuel bs)
]

length-blot_all :
    (secrets : List Bytes) (bytes : Bytes) → length (blot_all secrets bytes) ≡ length bytes
unfolding blot_all
length-blot_all [] bytes = refl
length-blot_all (secret ∷ secrets) bytes =
    length-blot_all secrets (blot secret (length bytes) bytes)
    ∙ length-blot secret (length bytes) bytes

pub length-redact :
    (input : Bytes) (secrets : List Bytes) → length (redact input secrets) ≡ length input
unfolding redact
length-redact input secrets = length-blot_all (longest_first (not_empty secrets)) input
