-- ===== src/Pricing/Exact.antt =====
-- The arithmetic of `PricingCatalog::price`, crates/routing-service/src/request_history.rs, and the
-- exact cost.
use muxvia.Prelude.{
  ℕ, ◌+◌, ◌*◌, ◌/◌, ◌≤◌, ◌<◌, ◌≡◌, refl, ap, sym, ◌∙◌, subst, false, ◌||◌, Option, none, some, List,
  [], ◌∷◌, ltb, ◌==◌, i64_max, u64_mod, u128_mod, u128_checked, u128_product, arith, ◌⊎◌, inl, inr,
  Bool-cases,
}
use muxvia.Text.{Text}
use muxvia.Pricing.{
  RequestUsage, CatalogPrice, PricingCatalog, PricingSnapshot, arithmetic_overflow, Pricing, ok,
  err, ◌>>=◌, price_denominator, parts_per_million, lookup, or_overflow, components, add_components,
  snapshot, finish_price, round_price, price_with, price, out_of_range,
}

-- The exact sum of the parts.
abbrev pub total : List (ℕ × ℕ × ℕ) → ℕ
total [] = 0
total ((tokens, unit_price, multiplier) ∷ rest) = tokens * unit_price * multiplier + total rest

abbrev pub Fits : List (ℕ × ℕ × ℕ) → Type 0
Fits [] = Unit
Fits ((tokens, unit_price, multiplier) ∷ rest) = (tokens * unit_price < u128_mod) × Fits rest

or_overflow-fits : (n : ℕ) → n < u128_mod → or_overflow (u128_checked n) ≡ ok n
unfolding or_overflow
or_overflow-fits n h = ground arith

or_overflow-exceeds :
    (n : ℕ) → u128_mod ≤ n → or_overflow (u128_checked n) ≡ err arithmetic_overflow
unfolding or_overflow
or_overflow-exceeds n h = ground arith

-- One round, if its sums fit, and if they do not.
add_fits :
    (t u m : ℕ) (cs : List (ℕ × ℕ × ℕ)) (n : ℕ)
    → t * u < u128_mod
    → n + t * u * m < u128_mod
    → add_components ((t, u, m) ∷ cs) n ≡ add_components cs (n + t * u * m)
unfolding add_components
add_fits t u m cs n f h =
    rw
      (
        or_overflow-fits (t * u) f,
        or_overflow-fits (t * u * m) (omega arith),
        or_overflow-fits (n + t * u * m) h,
      )
      refl

add_exceeds :
    (t u m : ℕ) (cs : List (ℕ × ℕ × ℕ)) (n : ℕ)
    → t * u < u128_mod
    → u128_mod ≤ n + t * u * m
    → add_components ((t, u, m) ∷ cs) n ≡ err arithmetic_overflow
unfolding add_components
add_exceeds t u m cs n f h = elim (Bool-cases (ltb (t * u * m) u128_mod)) [
  | inl small ↦
      rw
        (
          or_overflow-fits (t * u) f,
          or_overflow-fits (t * u * m) (ground arith),
          or_overflow-exceeds (n + t * u * m) h,
        )
        refl
  | inr large ↦ rw (or_overflow-fits (t * u) f, or_overflow-exceeds (t * u * m) (ground arith)) refl
]

add_components-exact :
    (cs : List (ℕ × ℕ × ℕ)) (n : ℕ)
    → Fits cs
    → n < u128_mod
    → add_components cs n ≡ or_overflow (u128_checked (n + total cs))
unfolding add_components
add_components-exact [] n f h = ap ok (omega arith) ∙ sym (or_overflow-fits (n + 0) (omega arith))
add_components-exact ((t, u, m) ∷ cs) n f h = elim (Bool-cases (ltb (n + t * u * m) u128_mod)) [
  | inl small ↦
      add_fits t u m cs n f.0 (ground arith)
      ∙ add_components-exact cs (n + t * u * m) f.1 (ground arith)
      ∙ ap (λ k. or_overflow (u128_checked k)) (omega arith)
  | inr large ↦
      add_exceeds t u m cs n f.0 (ground arith)
      ∙ sym (or_overflow-exceeds (n + (t * u * m + total cs)) (ground arith))
]

-- What the usage costs, in parts of the denominator.
abbrev pub cost : CatalogPrice → RequestUsage → ℕ
cost p usage =
    usage.input_tokens * p.input_nano_usd_per_million * parts_per_million
    + (usage.cached_input_tokens * p.input_nano_usd_per_million * p.cache_read_multiplier_ppm
        + (usage.cache_creation_input_tokens * p.input_nano_usd_per_million
              * p.cache_creation_multiplier_ppm
            + (usage.output_tokens * p.output_nano_usd_per_million * parts_per_million + 0)))

abbrev pub IsUsage : RequestUsage → Type 0
IsUsage usage =
    (usage.input_tokens < u64_mod)
    × (usage.cached_input_tokens < u64_mod)
    × (usage.cache_creation_input_tokens < u64_mod)
    × (usage.output_tokens < u64_mod)

-- The nearest multiple of the denominator, halves upwards.
abbrev pub IsNearest : ℕ → ℕ → Type 0
IsNearest amount n =
    (n * price_denominator ≤ amount + 500000000000)
    × (amount + 500000000000 < n * price_denominator + price_denominator)

components-Fits :
    (p : CatalogPrice) (usage : RequestUsage)
    → out_of_range p ≡ false
    → IsUsage usage
    → Fits (components p usage)
unfolding components out_of_range
components-Fits p usage r u = (
  u128_product _ _ u.0 (ground arith),
  (
    u128_product _ _ u.1 (ground arith),
    (u128_product _ _ u.2 (ground arith), (u128_product _ _ u.3 (ground arith), tt)),
  ),
)

module _ (catalog : PricingCatalog) (p : CatalogPrice) (usage : RequestUsage) (at : ℕ) where
  abbrev pub Charged : Pricing (Option PricingSnapshot) → Type 0
  Charged result =
      (n : ℕ) × IsNearest (cost p usage) n
      × (((n ≡ 0) × (result ≡ ok none))
          ⊎ ((0 < n) × ((i64_max < n) ⊎ (i64_max < at)) × (result ≡ err arithmetic_overflow))
          ⊎ ((0 < n)
              × (n ≤ i64_max)
              × (at ≤ i64_max)
              × (result
                  ≡ ok (
                      some (record {
                        catalog_version = catalog.version;
                        source = catalog.source;
                        source_model = p.model;
                        input_nano_usd_per_million = p.input_nano_usd_per_million;
                        output_nano_usd_per_million = p.output_nano_usd_per_million;
                        cache_read_multiplier_ppm = p.cache_read_multiplier_ppm;
                        cache_creation_multiplier_ppm = p.cache_creation_multiplier_ppm;
                        priced_at_unix_ms = at;
                        estimated_cost_nano_usd = n;
                      })))))

  finish_price-Charged :
      (n : ℕ) → IsNearest (cost p usage) n → Charged (finish_price catalog p at n)
  unfolding finish_price snapshot
  finish_price-Charged n near = (
    n,
    near,
    elim (Bool-cases (n == 0)) [
      | inl nothing ↦ inl (ground arith, rw nothing refl)
      | inr some_cost ↦ elim (Bool-cases (ltb i64_max n || ltb i64_max at)) [
        | inl over ↦ inr (inl (ground arith, ground arith, rw (some_cost, over) refl))
        | inr within ↦
            inr (inr (ground arith, ground arith, ground arith, rw (some_cost, within) refl))
      ]
    ],
  )

  huge-Charged : u128_mod ≤ cost p usage + 500000000000 → Charged (err arithmetic_overflow)
  huge-Charged h = (
    (cost p usage + 500000000000) / price_denominator,
    (omega arith, omega arith),
    inr (inl (omega arith, inl (omega arith), refl)),
  )

  round_price-Charged : (k : ℕ) → k ≡ cost p usage → Charged (round_price catalog p at k)
  unfolding round_price
  round_price-Charged k e = elim (Bool-cases (ltb (k + 500000000000) u128_mod)) [
    | inl small ↦
        rw (or_overflow-fits (k + 500000000000) (ground arith))
          (finish_price-Charged ((k + 500000000000) / price_denominator) (omega arith, omega arith))
    | inr large ↦
        rw (or_overflow-exceeds (k + 500000000000) (ground arith)) (huge-Charged (ground arith))
  ]

  sum-Charged : Charged (or_overflow (u128_checked (cost p usage)) >>= round_price catalog p at)
  sum-Charged = elim (Bool-cases (ltb (cost p usage) u128_mod)) [
    | inl small ↦
        subst (λ m. Charged (m >>= round_price catalog p at))
          (sym (or_overflow-fits (cost p usage) (ground arith)))
          (round_price-Charged (cost p usage) refl)
    | inr large ↦
        subst (λ m. Charged (m >>= round_price catalog p at))
          (sym (or_overflow-exceeds (cost p usage) (ground arith))) (huge-Charged (ground arith))
  ]

  exact_sum :
      out_of_range p ≡ false
      → IsUsage usage
      → add_components (components p usage) 0 ≡ or_overflow (u128_checked (cost p usage))
  unfolding components
  exact_sum r u =
      add_components-exact (components p usage) 0 (components-Fits p usage r u) (omega arith)
      ∙ ap (λ k. or_overflow (u128_checked k)) (omega arith)

  price_with-Charged :
      out_of_range p ≡ false → IsUsage usage → Charged (price_with catalog (some p) usage at)
  unfolding price_with
  price_with-Charged r u =
      subst (λ m. Charged (m >>= round_price catalog p at)) (sym (exact_sum r u)) sum-Charged

-- The price of a usage by a model of the catalog, whose amounts are in range: it is the exact cost,
-- rounded to the nearest nano-dollar with halves upwards. If that is nothing there is no price; an
-- overflow is reported exactly when the cost is something and it or the time exceeds an i64.
pub price-Charged :
    (catalog : PricingCatalog) (model : Text) (p : CatalogPrice) (usage : RequestUsage) (at : ℕ)
    → lookup model catalog.models ≡ some p
    → out_of_range p ≡ false
    → IsUsage usage
    → Charged catalog p usage at (price catalog model usage at)
unfolding price
price-Charged catalog model p usage at found r u =
    subst (λ o. Charged catalog p usage at (price_with catalog o usage at)) (sym found)
      (price_with-Charged catalog p usage at r u)
