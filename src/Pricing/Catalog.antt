-- ===== src/Pricing/Catalog.antt =====
-- The loop of `PricingCatalog::from_json`, crates/routing-service/src/request_history.rs.
use muxvia.Prelude.{
  ◌≡◌, refl, ap, sym, ◌∙◌, subst, false, ◌||◌, some, List, [], ◌∷◌, bytes_eq, bytes_eq_iff, arith,
  Bool-cases, inl, inr, ◌⊎◌,
}
use muxvia.Text.{Text, is_some}
use muxvia.Pricing.{
  CatalogPrice, CatalogDocument, PricingCatalog, Pricing, PricingError, invalid_catalog, ok, err,
  ◌>>=◌, lookup, is_blank, out_of_range, insert_models, from_document,
}

-- Every price of the document is found under its model.
abbrev pub AllFound : List CatalogPrice → List (Text × CatalogPrice) → Type 0
AllFound [] models = Unit
AllFound (p ∷ ps) models =
    (lookup p.model models ≡ some p) × (out_of_range p ≡ false) × AllFound ps models

lookup_hit :
    (name : Text) (p : CatalogPrice) (models : List (Text × CatalogPrice))
    → lookup name ((name, p) ∷ models) ≡ some p
unfolding lookup
lookup_hit name p models = rw ((bytes_eq_iff name name).1 refl) refl

lookup_new :
    (name : Text) (p : CatalogPrice) (models : List (Text × CatalogPrice)) (k : Text)
    (q : CatalogPrice)
    → is_some (lookup name models) ≡ false
    → lookup k models ≡ some q
    → lookup k ((name, p) ∷ models) ≡ some q
unfolding lookup
lookup_new name p models k q fresh found = elim (Bool-cases (bytes_eq name k)) [
  | inl same ↦ absurd (
      fresh_found
        (subst (λ n. is_some (lookup n models) ≡ false) ((bytes_eq_iff name k).0 same) fresh))
  | inr apart ↦ rw apart found
]
  where
    fresh_found : is_some (lookup k models) ≡ false → ⊥
    fresh_found h = cc (ap is_some (sym found) ∙ h)

-- A round that fails, and one that goes on.
insert_round :
    (p : CatalogPrice) (ps : List CatalogPrice) (models : List (Text × CatalogPrice))
    → (insert_models (p ∷ ps) models ≡ err invalid_catalog)
      ⊎ ((out_of_range p ≡ false)
          × (is_some (lookup p.model models) ≡ false)
          × (insert_models (p ∷ ps) models ≡ insert_models ps ((p.model, p) ∷ models)))
unfolding insert_models
insert_round p ps models = elim (Bool-cases (is_blank p.model || out_of_range p)) [
  | inl bad ↦ inl (rw bad refl)
  | inr good ↦ elim (Bool-cases (is_some (lookup p.model models))) [
    | inl twice ↦ inl (rw (good, twice) refl)
    | inr fresh ↦ inr (ground arith, fresh, rw (good, fresh) refl)
  ]
]

ok_injective {ℓ} : {A : Type ℓ} {a b : A} → ok a ≡ ok b → a ≡ b
ok_injective e = cc e

ok-not-err {ℓ} : {A : Type ℓ} {a : A} {f : PricingError} → ok a ≡ err f → ⊥
ok-not-err e = cc e

-- What the loop leaves found, and what it adds.
insert_models-AllFound :
    (ps : List CatalogPrice) (models result : List (Text × CatalogPrice))
    → insert_models ps models ≡ ok result
    → ((k : Text) (q : CatalogPrice) → lookup k models ≡ some q → lookup k result ≡ some q)
      × AllFound ps result
insert_models-AllFound [] models result e =
    unfold insert_models in (λ k q h. subst (λ r. lookup k r ≡ some q) (ok_injective e) h, tt)
insert_models-AllFound (p ∷ ps) models result e = elim (insert_round p ps models) [
  | inl bad ↦ absurd (ok-not-err (sym e ∙ bad))
  | inr (range, fresh, step) ↦
      let rest = insert_models-AllFound ps ((p.model, p) ∷ models) result (sym step ∙ e) in
      (
        λ k q h. rest.0 k q (lookup_new p.model p models k q fresh h),
        (rest.0 p.model p (lookup_hit p.model p models), range, rest.1),
      )
]

built :
    (version source : Text) (m : Pricing (List (Text × CatalogPrice))) (catalog : PricingCatalog)
    → (m >>= λ models. ok (record { version = version; source = source; models = models }))
      ≡ ok catalog
    → m ≡ ok catalog.models
built version source (ok models) catalog e = ap ok (ap (λ c. c.models) (ok_injective e))
built version source (err f) catalog e = absurd (ok-not-err (sym e))

-- If a document is accepted as a catalog, then each of its prices is found under its model and has
-- its amounts in the range of an i64: none is lost, and none is replaced by a later one.
pub from_document-AllFound :
    (document : CatalogDocument) (catalog : PricingCatalog)
    → from_document document ≡ ok catalog
    → AllFound document.models catalog.models
unfolding from_document
from_document-AllFound document catalog e =
    elim (Bool-cases (is_blank document.version || is_blank document.source)) [
      | inl blank ↦ absurd (ok-not-err {f = invalid_catalog} (sym e ∙ rw blank refl))
      | inr named ↦
          (insert_models-AllFound document.models [] catalog.models (
            built document.version document.source (insert_models document.models []) catalog
              (sym (rw named refl) ∙ e))).1
    ]
