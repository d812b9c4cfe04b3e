-- ===== src/Observation/Payload.antt =====
-- The payload of a failed response, over any division of its body into chunks.
use muxvia.Prelude.{
  ℕ, zero, suc, ◌-◌, ◌≤◌, ◌≡◌, refl, ap, sym, ◌∙◌, subst, true, false, not, ◌||◌, some, List, [],
  ◌∷◌, ◌++◌, append-nil, append_assoc, Bytes, length, take, min, u64_max, ◌+◌, length-append,
  length-take, ltb, arith,
}
use muxvia.Domain.{RequestRecordOutcome}
use muxvia.Json.{JsonLib}
use muxvia.Text.{from_utf8}
use muxvia.Redaction.{redact}
use muxvia.Observation.{
  ResponseObservation, max_error_payload_bytes, ObservationLib, observe, report, decode_compressed,
  finish, is_upstream_error, redaction_variants, all_variants, escaped_variant, encoded_secret,
  longest, ResponseUsageFormat, configure, new_observation, success_status,
}
use muxvia.Redaction.Length.{length-redact}
use muxvia.Redaction.Blotted.{Redacts, redact-Redacts}
use mathlib.Core.List.{Memᴰ}

-- Taking the first bytes of a string that grows.
take_nothing : (n : ℕ) → take {A = ℕ} n [] ≡ []
take_nothing zero = refl
take_nothing (suc n) = refl

take-min : (n : ℕ) (ys : Bytes) → take (min (length ys) n) ys ≡ take n ys
take-min zero ys = ap (λ k. take k ys) {y = 0} (omega arith)
take-min (suc n) [] = take_nothing (min 0 (suc n))
take-min (suc n) (y ∷ ys) =
    ap (λ k. take k (y ∷ ys)) (both (length ys)) ∙ ap (◌∷◌ y) (take-min n ys)
  where
    both : (m : ℕ) → min (suc m) (suc n) ≡ suc (min m n)
    both m = omega arith

take_rest :
    (n : ℕ) (xs ys : Bytes) → take n xs ++ take (n - length (take n xs)) ys ≡ take n (xs ++ ys)
take_rest zero xs ys = refl
take_rest (suc n) [] ys = ap (λ k. take k ys) {y = suc n} (omega arith)
take_rest (suc n) (x ∷ xs) ys =
    ap (λ k. x ∷ (take n xs ++ take k ys)) (lower (length (take n xs)))
    ∙ ap (◌∷◌ x) (take_rest n xs ys)
  where
    lower : (m : ℕ) → suc n - suc m ≡ n - m
    lower m = omega arith

take_more :
    (n : ℕ) (xs ys : Bytes)
    → take n xs ++ take (min (length ys) (n - length (take n xs))) ys ≡ take n (xs ++ ys)
take_more n xs ys = ap (◌++◌ (take n xs)) (take-min (n - length (take n xs)) ys) ∙ take_rest n xs ys

abbrev pub concat : List Bytes → Bytes
concat [] = []
concat (chunk ∷ chunks) = chunk ++ concat chunks

module _ (json_lib : JsonLib) where
  abbrev pub observe_all : ResponseObservation → List Bytes → ResponseObservation
  observe_all o [] = o
  observe_all o (chunk ∷ chunks) = observe_all (observe json_lib o chunk) chunks

  -- What an observation of an uncompressed error holds, after the bytes seen so far.
  abbrev Holds : ℕ → List Bytes → ResponseObservation → Bytes → Type 0
  Holds limit secrets o seen =
      (o.gzip ≡ false)
      × (o.capture_error_payload ≡ true)
      × (o.error_payload_limit ≡ limit)
      × (o.redactions ≡ secrets)
      × (o.error_payload ≡ take limit seen)
      × (o.error_payload_truncated ≡ ltb limit (length seen))

  captured :
      (o : ResponseObservation) (chunk : Bytes)
      → o.gzip ≡ false
      → o.capture_error_payload ≡ true
      → observe json_lib o chunk ≡ record o {
        error_payload =
            o.error_payload
            ++ take (min (length chunk) (o.error_payload_limit - length o.error_payload)) chunk;
        error_payload_truncated =
            o.error_payload_truncated
            || ltb (o.error_payload_limit - length o.error_payload) (length chunk);
      }
  unfolding observe
  captured o chunk g c = rw (g, c) refl

  truncates :
      (limit : ℕ) (seen chunk : Bytes)
      → (ltb limit (length seen) || ltb (limit - length (take limit seen)) (length chunk))
        ≡ ltb limit (length (seen ++ chunk))
  truncates limit seen chunk = ground (arith, length-take limit seen, length-append seen chunk)

  observe-Holds :
      (limit : ℕ) (secrets : List Bytes) (o : ResponseObservation) (seen chunk : Bytes)
      → Holds limit secrets o seen
      → Holds limit secrets (observe json_lib o chunk) (seen ++ chunk)
  observe-Holds limit secrets o seen chunk (g, c, l, r, p, t) =
      subst (λ q. Holds limit secrets q (seen ++ chunk)) (sym (captured o chunk g c))
        (
          g,
          c,
          l,
          r,
          ap
                (λ payload.
                  payload
                  ++ take (min (length chunk) (o.error_payload_limit - length payload)) chunk)
                p
              ∙ ap
                  (λ n.
                    take limit seen
                    ++ take (min (length chunk) (n - length (take limit seen))) chunk)
                  l
              ∙ take_more limit seen chunk,
          ap (λ b. b || ltb (o.error_payload_limit - length o.error_payload) (length chunk)) t
              ∙ ap (λ n. ltb limit (length seen) || ltb (n - length o.error_payload) (length chunk))
                  l
              ∙ ap
                  (λ payload.
                    ltb limit (length seen) || ltb (limit - length payload) (length chunk))
                  p
              ∙ truncates limit seen chunk,
        )

  observe_all-Holds :
      (limit : ℕ) (secrets : List Bytes) (o : ResponseObservation) (seen : Bytes)
      (chunks : List Bytes)
      → Holds limit secrets o seen
      → Holds limit secrets (observe_all o chunks) (seen ++ concat chunks)
  observe_all-Holds limit secrets o seen [] h =
      subst (Holds limit secrets o) (sym (append-nil seen)) h
  observe_all-Holds limit secrets o seen (chunk ∷ chunks) h =
      subst (Holds limit secrets (observe_all (observe json_lib o chunk) chunks))
        (append_assoc seen chunk (concat chunks))
        (observe_all-Holds limit secrets (observe json_lib o chunk) (seen ++ chunk) chunks
          (observe-Holds limit secrets o seen chunk h))

  -- Nothing is decoded.
  plain :
      (lib : ObservationLib) (o : ResponseObservation)
      → o.gzip ≡ false
      → decode_compressed json_lib lib o ≡ o
  unfolding decode_compressed
  plain lib o g = rw g refl

  report-Holds :
      (limit : ℕ) (secrets : List Bytes) (o : ResponseObservation) (seen : Bytes)
      → max_error_payload_bytes ≤ limit
      → Holds limit secrets o seen
      → ((report json_lib o RequestRecordOutcome.upstream_error).1
          ≡ some (take max_error_payload_bytes (redact (take limit seen) secrets)))
        × ((report json_lib o RequestRecordOutcome.upstream_error).2
            ≡ ltb max_error_payload_bytes (length seen))
  unfolding report is_upstream_error
  report-Holds limit secrets o seen h (g, c, l, r, p, t) = (
    ap (λ payload. some (take max_error_payload_bytes (redact payload o.redactions))) p
        ∙ ap (λ rs. some (take max_error_payload_bytes (redact (take limit seen) rs))) r,
    ap (λ b. b || ltb max_error_payload_bytes (length o.error_payload)) t
        ∙ ap (λ payload. ltb limit (length seen) || ltb max_error_payload_bytes (length payload)) p
        ∙ beyond,
  )
    where
      beyond :
          (ltb limit (length seen) || ltb max_error_payload_bytes (length (take limit seen)))
          ≡ ltb max_error_payload_bytes (length seen)
      beyond = ground (arith, length-take limit seen)

  finish-Holds :
      (lib : ObservationLib) (limit : ℕ) (secrets : List Bytes) (o : ResponseObservation)
      (seen : Bytes)
      → max_error_payload_bytes ≤ limit
      → Holds limit secrets o seen
      → ((finish json_lib lib o RequestRecordOutcome.upstream_error).1
          ≡ some (take max_error_payload_bytes (redact (take limit seen) secrets)))
        × ((finish json_lib lib o RequestRecordOutcome.upstream_error).2
            ≡ ltb max_error_payload_bytes (length seen))
  unfolding finish
  finish-Holds lib limit secrets o seen h held =
      subst
        (λ q.
          ((report json_lib q RequestRecordOutcome.upstream_error).1
            ≡ some (take max_error_payload_bytes (redact (take limit seen) secrets)))
          × ((report json_lib q RequestRecordOutcome.upstream_error).2
              ≡ ltb max_error_payload_bytes (length seen)))
        (sym (plain lib o held.0)) (report-Holds limit secrets o seen h held)

  module _ (lib : ObservationLib) (redactions : List Bytes) where
    -- An observation of a response with that status, before its body.
    abbrev pub begun : ResponseUsageFormat → ℕ → ResponseObservation
    begun format status = configure (new_observation lib redactions) format status false

    begun-Holds :
        (format : ResponseUsageFormat) (status : ℕ)
        → success_status status ≡ false
        → Holds
            (begun format status).error_payload_limit
            (begun format status).redactions
            (begun format status)
            []
    unfolding configure new_observation
    begun-Holds format status failed =
        (refl, ap not failed, refl, refl, sym (take_nothing _), omega_false _)
      where
        omega_false : (n : ℕ) → false ≡ ltb n 0
        omega_false n = ground arith

    begun-limit :
        (format : ResponseUsageFormat) (status : ℕ)
        → max_error_payload_bytes ≤ (begun format status).error_payload_limit
    unfolding configure new_observation
    begun-limit format status = omega arith

    variants-Mem :
        (secrets : List Bytes) (s : Bytes) → Memᴰ s secrets → Memᴰ s (all_variants lib secrets)
    unfolding all_variants redaction_variants
    variants-Mem [] s h = elim h [ ]
    variants-Mem (x ∷ secrets) s (Memᴰ.head e) = Memᴰ.head e
    variants-Mem (x ∷ secrets) s (Memᴰ.tail k) = Memᴰ.tail (
        later (escaped_variant lib x (encoded_secret lib (from_utf8 x))) (variants-Mem secrets s k))
      where
        later : (xs : List Bytes) {ys : List Bytes} → Memᴰ s ys → Memᴰ s (xs ++ ys)
        later [] h = h
        later (x ∷ xs) h = Memᴰ.tail (later xs h)

    longest_bound : (secrets : List Bytes) (s : Bytes) → Memᴰ s secrets → length s ≤ longest secrets
    unfolding longest
    longest_bound [] s h = elim h [ ]
    longest_bound (x ∷ secrets) s (Memᴰ.head e) = let n = ap length e in ground arith
    longest_bound (x ∷ secrets) s (Memᴰ.tail k) = let n = longest_bound secrets s k in ground arith

    -- There is room for each secret behind the maximum.
    room :
        (s : Bytes)
        → Memᴰ s redactions
        → min (max_error_payload_bytes + length s) u64_max
          ≤ (new_observation lib redactions).error_payload_limit
    unfolding new_observation
    room s h =
        let n = longest_bound (all_variants lib redactions) s (variants-Mem redactions s h) in
        omega arith

    -- The payload of a failed response that is not compressed, however its body is divided: in the
    -- first bytes of the body, up to the limit of the observation, every secret is blotted out, and the
    -- payload is the first 65536 bytes of what this leaves; its length is that of the body or the
    -- maximum, and it is marked as truncated exactly if the body is longer. The secrets are the given
    -- ones and their variants, but for empty ones, the longer ones first, and for each given one the
    -- limit leaves as many bytes behind the first 65536 as it has.
    pub finish-payload :
        (format : ResponseUsageFormat) (status : ℕ) (chunks : List Bytes)
        → success_status status ≡ false
        → let o = begun format status in
          let result =
            finish json_lib lib (observe_all o chunks) RequestRecordOutcome.upstream_error in
          (shown : Bytes) × (result.1 ≡ some (take max_error_payload_bytes shown))
          × Redacts o.redactions (take o.error_payload_limit (concat chunks)) shown
          × ((s : Bytes)
              → Memᴰ s redactions
              → Memᴰ s o.redactions
                × (min (max_error_payload_bytes + length s) u64_max ≤ o.error_payload_limit))
          × (length (take max_error_payload_bytes shown)
              ≡ min max_error_payload_bytes (length (concat chunks)))
          × (result.2 ≡ ltb max_error_payload_bytes (length (concat chunks)))
    unfolding new_observation configure
    finish-payload format status chunks failed =
        let o = begun format status in
        let told =
          finish-Holds lib o.error_payload_limit o.redactions (observe_all o chunks) (concat chunks)
            (begun-limit format status)
            (observe_all-Holds o.error_payload_limit o.redactions o [] chunks
              (begun-Holds format status failed)) in
        (
          redact (take o.error_payload_limit (concat chunks)) o.redactions,
          told.0,
          redact-Redacts o.redactions (take o.error_payload_limit (concat chunks)),
          (λ s h. (variants-Mem redactions s h, room s h)),
          measured o.error_payload_limit (begun-limit format status) o.redactions (concat chunks),
          told.1,
        )
      where
        measured :
            (limit : ℕ)
            → max_error_payload_bytes ≤ limit
            → (secrets : List Bytes) (bytes : Bytes)
            → length (take max_error_payload_bytes (redact (take limit bytes) secrets))
              ≡ min max_error_payload_bytes (length bytes)
        measured limit h secrets bytes = omega (
          arith,
          length-take max_error_payload_bytes (redact (take limit bytes) secrets),
          length-redact (take limit bytes) secrets,
          length-take limit bytes,
        )
