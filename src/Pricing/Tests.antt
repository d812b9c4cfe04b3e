-- ===== src/Pricing/Tests.antt =====
-- A catalog with one model, and half a unit of its price.
use muxvia.Prelude.{refl, [], ◌∷◌, arith, bytes_eq}
use muxvia.Text.{codes, trim}
use muxvia.Pricing.{
  RequestUsage, CatalogPrice, CatalogDocument, PricingCatalog, from_document, lookup, price,
  out_of_range,
}
use muxvia.Pricing.Catalog.{AllFound, from_document-AllFound}
use muxvia.Pricing.Exact.{Charged, price-Charged}

abbrev half_up : CatalogPrice
half_up = record {
  model = codes "m";
  input_nano_usd_per_million = 1;
  output_nano_usd_per_million = 0;
  cache_read_multiplier_ppm = 0;
  cache_creation_multiplier_ppm = 0;
}

abbrev catalog : PricingCatalog
catalog = record { version = codes "v"; source = codes "s"; models = (codes "m", half_up) ∷ [] }

abbrev document : CatalogDocument
document = record { version = codes "v"; source = codes "s"; models = half_up ∷ [] }

abbrev usage : RequestUsage
usage = record {
  input_tokens = 500000;
  cached_input_tokens = 0;
  cache_creation_input_tokens = 0;
  output_tokens = 7;
}

from_document-AllFound_example : AllFound (half_up ∷ []) catalog.models
from_document-AllFound_example =
    from_document-AllFound document catalog (unfold from_document trim bytes_eq in refl)

price-Charged_example : Charged catalog half_up usage 9 (price catalog (codes "m") usage 9)
price-Charged_example =
    price-Charged catalog (codes "m") half_up usage 9 (unfold lookup bytes_eq in refl)
      (unfold out_of_range in refl) (omega arith, omega arith, omega arith, omega arith)
