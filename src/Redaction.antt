-- ===== src/Redaction.antt =====
-- Secrets in a payload are blotted out before it is stored: `redact` of
-- crates/routing-service/src/model/request_recorder.rs.
pub mod Length
pub mod Blotted
use muxvia.Prelude.{
  ℕ, zero, suc, ◌-◌, Bool, true, false, List, [], ◌∷◌, ◌++◌, Bytes, length, drop, replicate, ltb,
  leb, if◌then◌else◌,
}
use muxvia.Text.{codes, starts_with}

-- `replacement` of `redact`
unfoldable pub replacement : Bytes → Bytes
replacement secret =
    if leb 10 (length secret)
    then codes "[REDACTED]" ++ replicate (length secret - 10) b'*'
    else replicate (length secret) b'*'

-- The inner loop of `redact`, from the left: each round passes one byte or a secret, so as many rounds
-- as there are bytes are enough.
unfoldable pub blot : Bytes → ℕ → Bytes → Bytes
unfolding starts_with replacement
blot secret zero bytes = bytes
blot secret (suc fuel) [] = []
blot secret (suc fuel) (b ∷ bs) = elim (starts_with secret (b ∷ bs)) [
  | true ↦ replacement secret ++ blot secret fuel (drop (length secret) (b ∷ bs))
  | false ↦ b ∷ blot secret fuel bs
]

-- `sort_by_key(|secret| Reverse(secret.len()))`, which is stable.
unfoldable pub insert_longest : Bytes → List Bytes → List Bytes
insert_longest secret [] = secret ∷ []
insert_longest secret (s ∷ secrets) =
    let rest = insert_longest secret secrets in
    if ltb (length secret) (length s) then s ∷ rest else secret ∷ s ∷ secrets

unfoldable pub longest_first : List Bytes → List Bytes
unfolding insert_longest
longest_first [] = []
longest_first (secret ∷ secrets) = insert_longest secret (longest_first secrets)

unfoldable pub not_empty : List Bytes → List Bytes
not_empty [] = []
not_empty ([] ∷ secrets) = not_empty secrets
not_empty ((b ∷ bs) ∷ secrets) = (b ∷ bs) ∷ not_empty secrets

unfoldable pub blot_all : List Bytes → Bytes → Bytes
unfolding blot
blot_all [] bytes = bytes
blot_all (secret ∷ secrets) bytes = blot_all secrets (blot secret (length bytes) bytes)

unfoldable pub redact : Bytes → List Bytes → Bytes
unfolding blot_all longest_first not_empty
redact input secrets = blot_all (longest_first (not_empty secrets)) input
