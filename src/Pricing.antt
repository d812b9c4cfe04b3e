-- ===== src/Pricing.antt =====
-- The catalog of prices and the price of a request, crates/routing-service/src/request_history.rs.
-- The catalog's map is a list; amounts are natural numbers with the checks of u128 written out.
pub mod Catalog
pub mod Exact
mod Tests
use muxvia.Prelude.{
  ℕ, ◌+◌, ◌*◌, ◌/◌, Bool, true, false, ◌||◌, Option, none, some, List, [], ◌∷◌, bytes_eq, ltb, ◌==◌,
  if◌then◌else◌, i64_max, u128_checked,
}
use muxvia.Text.{Text, trim, is_some}

-- `PARTS_PER_MILLION` and `PRICE_DENOMINATOR`
abbrev pub parts_per_million : ℕ
parts_per_million = 1000000

abbrev pub price_denominator : ℕ
price_denominator = 1000000000000

pub record RequestUsage : Type 0 where
  pub input_tokens : ℕ
  pub cached_input_tokens : ℕ
  pub cache_creation_input_tokens : ℕ
  pub output_tokens : ℕ

pub record CatalogPrice : Type 0 where
  pub model : Text
  pub input_nano_usd_per_million : ℕ
  pub output_nano_usd_per_million : ℕ
  pub cache_read_multiplier_ppm : ℕ
  pub cache_creation_multiplier_ppm : ℕ

pub record CatalogDocument : Type 0 where
  pub version : Text
  pub source : Text
  pub models : List CatalogPrice

pub record PricingCatalog : Type 0 where
  pub version : Text
  pub source : Text
  pub models : List (Text × CatalogPrice)

pub record PricingSnapshot : Type 0 where
  pub catalog_version : Text
  pub source : Text
  pub source_model : Text
  pub input_nano_usd_per_million : ℕ
  pub output_nano_usd_per_million : ℕ
  pub cache_read_multiplier_ppm : ℕ
  pub cache_creation_multiplier_ppm : ℕ
  pub priced_at_unix_ms : ℕ
  pub estimated_cost_nano_usd : ℕ

pub data PricingError : Type 0 where
  invalid_catalog arithmetic_overflow : PricingError

pub data Pricing {ℓ} (A : Type ℓ) : Type ℓ where
  ok : A → Pricing A
  err : PricingError → Pricing A

infixl 5 ◌>>=◌
abbrev pub ◌>>=◌ {ℓ κ} : {A : Type ℓ} {B : Type κ} → Pricing A → (A → Pricing B) → Pricing B
ok a >>= f = f a
err e >>= f = err e

-- `BTreeMap::get`
unfoldable pub lookup : Text → List (Text × CatalogPrice) → Option CatalogPrice
unfolding bytes_eq
lookup model [] = none
lookup model ((name, price) ∷ rest) = if bytes_eq name model then some price else lookup model rest

is_blank : Text → Bool
unfolding trim
is_blank text = bytes_eq (trim text) []

unfoldable pub out_of_range : CatalogPrice → Bool
out_of_range price =
    ltb i64_max price.input_nano_usd_per_million
    || ltb i64_max price.output_nano_usd_per_million
    || ltb i64_max price.cache_read_multiplier_ppm
    || ltb i64_max price.cache_creation_multiplier_ppm

-- The loop of `from_json` over the prices of the document.
unfoldable pub insert_models :
    List CatalogPrice → List (Text × CatalogPrice) → Pricing (List (Text × CatalogPrice))
unfolding is_blank out_of_range lookup
insert_models [] models = ok models
insert_models (price ∷ prices) models =
    if is_blank price.model || out_of_range price
    then err invalid_catalog
    else if is_some (lookup price.model models)
    then err invalid_catalog
    else insert_models prices ((price.model, price) ∷ models)

-- `from_json`, after the document was parsed.
unfoldable pub from_document : CatalogDocument → Pricing PricingCatalog
unfolding is_blank insert_models
from_document document =
    if is_blank document.version || is_blank document.source
    then err invalid_catalog
    else insert_models document.models [] >>= λ models.
        ok (record { version = document.version; source = document.source; models = models })

unfoldable pub or_overflow : Option ℕ → Pricing ℕ
or_overflow none = err arithmetic_overflow
or_overflow (some n) = ok n

-- Tokens, unit price and multiplier of the four parts of a price.
unfoldable pub components : CatalogPrice → RequestUsage → List (ℕ × ℕ × ℕ)
components price usage =
    (usage.input_tokens, price.input_nano_usd_per_million, parts_per_million)
    ∷ (usage.cached_input_tokens, price.input_nano_usd_per_million, price.cache_read_multiplier_ppm)
    ∷ (
      usage.cache_creation_input_tokens, price.input_nano_usd_per_million,
      price.cache_creation_multiplier_ppm,
    )
    ∷ (usage.output_tokens, price.output_nano_usd_per_million, parts_per_million)
    ∷ []

-- The loop of `price`.
unfoldable pub add_components : List (ℕ × ℕ × ℕ) → ℕ → Pricing ℕ
unfolding or_overflow
add_components [] numerator = ok numerator
add_components ((tokens, unit_price, multiplier) ∷ rest) numerator =
    or_overflow (u128_checked (tokens * unit_price)) >>= λ product.
    or_overflow (u128_checked (product * multiplier)) >>= λ component.
    or_overflow (u128_checked (numerator + component)) >>= λ sum. add_components rest sum

snapshot : PricingCatalog → CatalogPrice → ℕ → ℕ → PricingSnapshot
snapshot catalog price priced_at estimate = record {
  catalog_version = catalog.version;
  source = catalog.source;
  source_model = price.model;
  input_nano_usd_per_million = price.input_nano_usd_per_million;
  output_nano_usd_per_million = price.output_nano_usd_per_million;
  cache_read_multiplier_ppm = price.cache_read_multiplier_ppm;
  cache_creation_multiplier_ppm = price.cache_creation_multiplier_ppm;
  priced_at_unix_ms = priced_at;
  estimated_cost_nano_usd = estimate;
}

-- The conversion to u64, its bound included, and the snapshot.
unfoldable pub finish_price :
    PricingCatalog → CatalogPrice → ℕ → ℕ → Pricing (Option PricingSnapshot)
unfolding snapshot
finish_price catalog price priced_at estimate =
    if estimate == 0
    then ok none
    else if ltb i64_max estimate || ltb i64_max priced_at
    then err arithmetic_overflow
    else ok (some (snapshot catalog price priced_at estimate))

-- Half of the denominator is added, so that the division rounds halves upwards.
unfoldable pub round_price :
    PricingCatalog → CatalogPrice → ℕ → ℕ → Pricing (Option PricingSnapshot)
unfolding finish_price or_overflow
round_price catalog price priced_at numerator =
    or_overflow (u128_checked (numerator + price_denominator / 2)) >>= λ rounded.
    finish_price catalog price priced_at (rounded / price_denominator)

unfoldable pub price_with :
    PricingCatalog → Option CatalogPrice → RequestUsage → ℕ → Pricing (Option PricingSnapshot)
unfolding add_components components round_price
price_with catalog none usage priced_at = ok none
price_with catalog (some price) usage priced_at =
    add_components (components price usage) 0 >>= round_price catalog price priced_at

unfoldable pub price : PricingCatalog → Text → RequestUsage → ℕ → Pricing (Option PricingSnapshot)
unfolding price_with lookup
price catalog model usage priced_at =
    price_with catalog (lookup model catalog.models) usage priced_at
