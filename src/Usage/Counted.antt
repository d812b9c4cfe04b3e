-- ===== src/Usage/Counted.antt =====
-- The counts that the Codex parser reports, and the bytes that both parsers hold.
use muxvia.Prelude.{
  ℕ, zero, suc, ◌+◌, ◌≤◌, ◌≡◌, refl, ap, sym, ◌∙◌, subst, false, not, Option, none, some, ◌++◌,
  Bytes, length, drop, take, length-drop, length-append, arith, Option-cases, Bool-cases, inl, inr,
}
use muxvia.Text.{codes}
use muxvia.Json.{JsonLib}
use muxvia.Pricing.{RequestUsage}
use muxvia.Usage.{
  max_usage_event_bytes, blank_line, drain_events, overflows, is_sse, usage_of, number, bind,
}
use muxvia.Usage.Codex.{
  CodexUsageParser, codex_usage, codex_counts, split_input, codex_push, detailed,
  codex_observe_event,
}
use muxvia.Usage.Claude.{ClaudeUsageParser, claude_push, claude_observe_event}

module _ (lib : JsonLib) where
  -- The usage splits the two counts that the value reports.
  abbrev pub Splits : lib.Value → RequestUsage → Type 0
  Splits value u =
      (usage : lib.Value) × (input : ℕ) × (output : ℕ) × (usage_of lib (codes "response") value
        ≡ some usage)
      × (number lib usage (codes "input_tokens") ≡ some input)
      × (number lib usage (codes "output_tokens") ≡ some output)
      × (u.input_tokens + u.cached_input_tokens + u.cache_creation_input_tokens ≡ input)
      × (u.output_tokens ≡ output)

  split_input-total :
      (input output cached creation : ℕ)
      → let u = split_input lib input output cached creation in
        (u.input_tokens + u.cached_input_tokens + u.cache_creation_input_tokens ≡ input)
        × (u.output_tokens ≡ output)
  unfolding split_input
  split_input-total input output cached creation = (omega arith, refl)

  counts-Splits :
      (value usage : lib.Value) (i o : Option ℕ) (u : RequestUsage)
      → usage_of lib (codes "response") value ≡ some usage
      → number lib usage (codes "input_tokens") ≡ i
      → number lib usage (codes "output_tokens") ≡ o
      → codex_counts lib usage i o ≡ some u
      → Splits value u
  unfolding codex_counts
  counts-Splits value usage (some input) (some output) u found ei eo e =
      let s =
        split_input-total input output
          (detailed lib usage (codes "cache_read_input_tokens") (codes "cached_tokens"))
          (detailed lib usage (codes "cache_creation_input_tokens") (codes "cache_write_tokens")) in
      subst (Splits value) (same e) (usage, input, output, found, ei, eo, s.0, s.1)
    where
      same : {a b : RequestUsage} → some a ≡ some b → a ≡ b
      same h = cc h
  counts-Splits value usage (some input) none u found ei eo e = cc e
  counts-Splits value usage none o u found ei eo e = cc e

  -- A usage that the Codex parser takes from a value splits the input tokens that it reports into the
  -- three kinds without loss and without counting any twice, and keeps the output tokens.
  pub codex_usage-Splits :
      (value : lib.Value) (u : RequestUsage) → codex_usage lib value ≡ some u → Splits value u
  unfolding codex_usage
  codex_usage-Splits value u e = elim (Option-cases (usage_of lib (codes "response") value)) [
    | inl missing ↦ absurd (never (sym (ap (λ o. bind o counts) missing) ∙ e))
    | inr (usage, found) ↦
        counts-Splits value usage _ _ u found refl refl (sym (ap (λ o. bind o counts) found) ∙ e)
  ]
    where
      counts : lib.Value → Option RequestUsage
      counts usage =
          codex_counts lib usage (number lib usage (codes "input_tokens"))
            (number lib usage (codes "output_tokens"))

      never : none ≡ some u → ⊥
      never h = cc h

drain-le {ℓ} :
    {S : Type ℓ} (observe : Bytes → S → S) (fuel : ℕ) (pending : Bytes) (s : S)
    → length (drain_events observe fuel pending s).0 ≤ length pending
unfolding drain_events
drain-le observe zero pending s = omega arith
drain-le observe (suc fuel) pending s = elim (Option-cases (blank_line pending)) [
  | inl e ↦ rw (e, drain_events) (omega arith)
  | inr (end, e) ↦
      rw (e, drain_events)
        (omega (
          arith,
          drain-le observe fuel (drop (end + 2) pending) (observe (take (end + 2) pending) s),
          length-drop (end + 2) pending,
        ))
]

module _ (lib : JsonLib) where
  fits :
      (pending bytes : Bytes)
      → overflows pending bytes ≡ false
      → length (pending ++ bytes) ≤ max_usage_event_bytes
  unfolding overflows
  fits pending bytes h = ground (arith, length-append pending bytes)

  pub codex_push-bounded :
      (parser : CodexUsageParser) (bytes : Bytes)
      → length parser.pending ≤ max_usage_event_bytes
      → length (codex_push lib parser bytes).pending ≤ max_usage_event_bytes
  unfolding codex_push
  codex_push-bounded parser bytes h = elim (Bool-cases parser.disabled) [
    | inl off ↦ rw off h
    | inr on ↦ elim (Bool-cases (overflows parser.pending bytes)) [
      | inl over ↦ rw (on, over) (omega arith)
      | inr within ↦ elim (Bool-cases (not (is_sse parser.format))) [
        | inl whole ↦ rw (on, within, whole) (fits parser.pending bytes within)
        | inr events ↦
            rw (on, within, events)
              (omega (
                arith,
                fits parser.pending bytes within,
                drain-le (codex_observe_event lib) (length (parser.pending ++ bytes))
                    (parser.pending ++ bytes) parser.usage,
              ))
      ]
    ]
  ]

  pub claude_push-bounded :
      (parser : ClaudeUsageParser) (bytes : Bytes)
      → length parser.pending ≤ max_usage_event_bytes
      → length (claude_push lib parser bytes).pending ≤ max_usage_event_bytes
  unfolding claude_push
  claude_push-bounded parser bytes h = elim (Bool-cases parser.disabled) [
    | inl off ↦ rw off h
    | inr on ↦ elim (Bool-cases (overflows parser.pending bytes)) [
      | inl over ↦ rw (on, over) (omega arith)
      | inr within ↦ elim (Bool-cases (not (is_sse parser.format))) [
        | inl whole ↦ rw (on, within, whole) (fits parser.pending bytes within)
        | inr events ↦
            rw (on, within, events)
              (omega (
                arith,
                fits parser.pending bytes within,
                drain-le (claude_observe_event lib) (length (parser.pending ++ bytes))
                    (parser.pending ++ bytes) (parser.usage, parser.observed),
              ))
      ]
    ]
  ]
