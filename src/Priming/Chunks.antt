-- ===== src/Priming/Chunks.antt =====
-- The loop of `prime_sse`, crates/routing-service/src/model/commitment.rs, on a body that arrives in
-- time, and its bytes.
use muxvia.Prelude.{
  ℕ, ◌+◌, ◌≤◌, ◌≡◌, refl, ap, sym, ◌∙◌, subst, false, List, [], ◌∷◌, ◌++◌, append-nil, append_assoc,
  Bytes, length, length-append, drop, arith, ◌⊎◌, inl, inr,
}
use muxvia.Sse.{
  EventClass, lifecycle, productive, non_failure_terminal, convertible_failure, failure, malformed,
  is_lifecycle,
}
use muxvia.Priming.{
  Body, finish, fault, chunk, scan_events, Primed, commit, commit_failure, retry, act_on,
  prime_loop, is_late, exceeds, priming_byte_limit,
}
use muxvia.Priming.Steps.{Scan-cases, prime_loop_decided, prime_loop_more}
use muxvia.Priming.Settles.{Settles, Pends, Settles-append, drop-append}
use muxvia.Priming.Scanning.{Scanned, scan_events-Scanned}

-- Every item of the body, its end included, arrives within the time limit, and up to the first
-- fault there are at most as many bytes as the limit allows. `held` bytes have been read.
abbrev pub IsTimely : (held : ℕ) → Body → Type 0
IsTimely held (finish t) = is_late t ≡ false
IsTimely held (fault t rest) = is_late t ≡ false
IsTimely held (chunk t bytes rest) =
    (is_late t ≡ false)
    × (held + length bytes ≤ priming_byte_limit)
    × IsTimely (held + length bytes) rest

-- The bytes up to the first fault, or to the end.
abbrev pub bytes_before_fault : Body → Bytes
bytes_before_fault (finish t) = []
bytes_before_fault (fault t rest) = []
bytes_before_fault (chunk t bytes rest) = bytes ++ bytes_before_fault rest

pub data Verdict : Type 0 where
  commits fails retries : Verdict

abbrev pub verdict : Primed → Verdict
verdict (commit prefix rest) = commits
verdict (commit_failure prefix rest) = fails
verdict retry = retries

-- What an event of each class leads to.
abbrev pub verdict_of : EventClass → Verdict
verdict_of productive = commits
verdict_of non_failure_terminal = commits
verdict_of convertible_failure = fails
verdict_of lifecycle = retries
verdict_of failure = retries
verdict_of malformed = retries

verdict-act_on :
    (c : EventClass) (prefix : List Bytes) (rest : Body)
    → verdict (act_on c prefix rest) ≡ verdict_of c
unfolding act_on
verdict-act_on productive prefix rest = refl
verdict-act_on non_failure_terminal prefix rest = refl
verdict-act_on convertible_failure prefix rest = refl
verdict-act_on _ prefix rest = refl

within_limit : (held new : ℕ) → held + new ≤ priming_byte_limit → exceeds held new ≡ false
unfolding exceeds
within_limit held new h = ground arith

module _ (classify : Bytes → EventClass) where
  -- The verdict is that of the event which settles `xs`, or to retry if there is none.
  abbrev pub Judges : Bytes → Verdict → Type 0
  Judges xs v =
      ((c : EventClass) × Settles classify c xs × (is_lifecycle c ≡ false) × (v ≡ verdict_of c))
      ⊎ (Pends classify xs × (v ≡ retries))

  pub prime_loop-Judges :
      (body : Body) (read : List Bytes) (semantic : Bytes) (parsed : ℕ)
      → parsed ≤ length semantic
      → Pends classify (drop parsed semantic)
      → IsTimely (length semantic) body
      → Judges
          (drop parsed (semantic ++ bytes_before_fault body))
          (verdict (prime_loop classify body read semantic parsed))
  prime_loop-Judges (finish t) read semantic parsed h p timely = inr (
    subst (λ z. Pends classify (drop parsed z)) (sym (append-nil semantic)) p,
    (unfold prime_loop in rw timely refl),
  )
  prime_loop-Judges (fault t rest) read semantic parsed h p timely = inr (
    subst (λ z. Pends classify (drop parsed z)) (sym (append-nil semantic)) p,
    (unfold prime_loop in rw timely refl),
  )
  prime_loop-Judges (chunk t bytes rest) read semantic parsed h p (soon, small, timely) =
      let buffer = semantic ++ bytes in
      let len = length-append semantic bytes in
      let room = within_limit (length semantic) (length bytes) small in
      let found =
        scan_events-Scanned classify buffer (length buffer) parsed (omega arith) (omega arith) in
      subst
        (λ z.
          Judges (drop parsed z)
            (verdict (prime_loop classify (chunk t bytes rest) read semantic parsed)))
        (append_assoc semantic bytes (bytes_before_fault rest))
        (elim (Scan-cases (scan_events classify (length buffer) buffer parsed)) [
          | inr (c, d) ↦
              let s = subst (Scanned classify buffer parsed) d found in
              inl (
                c,
                subst (Settles classify c)
                    (sym (drop-append parsed buffer (bytes_before_fault rest) (omega arith)))
                    (Settles-append classify (bytes_before_fault rest) s.0),
                s.1,
                ap verdict
                      (prime_loop_decided t bytes rest classify read semantic parsed c soon room d)
                    ∙ verdict-act_on c (read ++ bytes ∷ []) rest,
              )
          | inl (n, m) ↦
              let s = subst (Scanned classify buffer parsed) m found in
              let step =
                ap verdict
                  (prime_loop_more t bytes rest classify read semantic parsed n soon room m) in
              elim (prime_loop-Judges rest (read ++ bytes ∷ []) buffer n s.0 s.1
                (subst (λ k. IsTimely k rest) (sym len) timely)) [
                  | inl (c, k, loud, v) ↦ inl (c, s.2 _ c k, loud, step ∙ v)
                  | inr (k, v) ↦ inr (s.3 _ k, step ∙ v)
                ]
        ])
