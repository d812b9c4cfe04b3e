-- ===== src/Coordinator/Publish.antt =====
-- The publication of catalog views to subscribers: `publish` of
-- crates/routing-service/src/subscription/coordinator.rs.
use muxvia.Prelude.{
  ℕ, ◌≡◌, refl, sym, subst, ◌⊎◌, ◌≤◌, ==_iff, Bool, true, false, not, ◌||◌, Option, none, some,
  List, [], ◌∷◌, leb, ◌<◌, ◌==◌, Bool-cases, inl, inr, if◌then◌else◌, arith,
}
use mathlib.Core.List.{Memᴰ}
use muxvia.Catalog.{SubscriptionAccountCatalogView}

-- A published sequence that is not below that number.
unfoldable pub is_published : Option ℕ → ℕ → Bool
is_published none n = false
is_published (some m) n = leb n m

-- `current`: the catalog's view, if it can be read. The result is the published sequence after it
-- and what is sent to the subscribers.
unfoldable pub publish :
    (current : Option SubscriptionAccountCatalogView)
    → SubscriptionAccountCatalogView
    → Option ℕ
    → Option ℕ × List SubscriptionAccountCatalogView
unfolding is_published
publish none view published = (published, [])
publish (some current) view published =
    if not (current.view_sequence == view.view_sequence)
      || is_published published view.view_sequence
    then (published, [])
    else (some view.view_sequence, view ∷ [])

-- Every call of a service's life, each with the view that the catalog has at that time.
unfoldable pub publish_all :
    List (Option SubscriptionAccountCatalogView × SubscriptionAccountCatalogView)
    → Option ℕ
    → List SubscriptionAccountCatalogView
unfolding publish
publish_all [] published = []
publish_all ((current, view) ∷ rest) published =
    let (published', sent) = publish current view published in
    sent_before sent (publish_all rest published')
  where
    sent_before :
        List SubscriptionAccountCatalogView
        → List SubscriptionAccountCatalogView
        → List SubscriptionAccountCatalogView
    sent_before [] later = later
    sent_before (view ∷ _) later = view ∷ later

-- Each view has a higher sequence than the one before it, and than the sequence published before.
abbrev pub IsNewer : Option ℕ → List SubscriptionAccountCatalogView → Type 0
IsNewer published [] = Unit {0}
IsNewer none (view ∷ views) = IsNewer (some view.view_sequence) views
IsNewer (some m) (view ∷ views) = (m < view.view_sequence) × IsNewer (some view.view_sequence) views

IsNewer-cons :
    (published : Option ℕ) (view : SubscriptionAccountCatalogView)
    (views : List SubscriptionAccountCatalogView)
    → is_published published view.view_sequence ≡ false
    → IsNewer (some view.view_sequence) views
    → IsNewer published (view ∷ views)
unfolding is_published
IsNewer-cons none view views e h = h
IsNewer-cons (some m) view views e h = (ground arith, h)

goes_up :
    (calls : List (Option SubscriptionAccountCatalogView × SubscriptionAccountCatalogView))
    (published : Option ℕ)
    → IsNewer published (publish_all calls published)
unfolding publish_all publish
goes_up [] published = tt
goes_up ((none, view) ∷ rest) published = goes_up rest published
goes_up ((some current, view) ∷ rest) published =
    elim (Bool-cases (current.view_sequence == view.view_sequence)) [
      | inr e ↦ rw e (goes_up rest published)
      | inl e ↦ elim (Bool-cases (is_published published view.view_sequence)) [
        | inl q ↦ rw (e, q) (goes_up rest published)
        | inr q ↦
            rw (e, q) (IsNewer-cons published view _ q (goes_up rest (some view.view_sequence)))
      ]
    ]

-- That sequence was published already.
abbrev pub Reached : Option ℕ → ℕ → Type 0
Reached none n = ⊥
Reached (some m) n = n ≤ m

-- The subscribers know a view that is as new.
abbrev pub Covered : Option ℕ → List SubscriptionAccountCatalogView → ℕ → Type 0
Covered published sent n =
    Reached published n
    ⊎ ((v : SubscriptionAccountCatalogView) × Memᴰ v sent × (n ≤ v.view_sequence))

is_published-Reached :
    (published : Option ℕ) (n : ℕ) → is_published published n ≡ true → Reached published n
unfolding is_published
is_published-Reached none n e = cc e
is_published-Reached (some m) n e = ground arith

-- What is covered after a view was sent.
Covered-cons :
    (published : Option ℕ) (view : SubscriptionAccountCatalogView)
    (sent : List SubscriptionAccountCatalogView) (n : ℕ)
    → Covered (some view.view_sequence) sent n
    → Covered published (view ∷ sent) n
Covered-cons published view sent n (inl h) = inr (view, Memᴰ.head refl, h)
Covered-cons published view sent n (inr (v, k, h)) = inr (v, Memᴰ.tail k, h)

-- The view of a call and the one that the catalog has at that time are the same in age.
abbrev pub IsCurrent :
    Option SubscriptionAccountCatalogView × SubscriptionAccountCatalogView → Type 0
IsCurrent (none, view) = ⊥
IsCurrent (some current, view) = current.view_sequence ≡ view.view_sequence

publish_all-Covered :
    (calls : List (Option SubscriptionAccountCatalogView × SubscriptionAccountCatalogView))
    (published : Option ℕ)
    (call : Option SubscriptionAccountCatalogView × SubscriptionAccountCatalogView)
    → Memᴰ call calls
    → IsCurrent call
    → Covered published (publish_all calls published) call.1.view_sequence
unfolding publish_all publish
publish_all-Covered [] published call h c = elim h [ ]
publish_all-Covered ((none, view) ∷ rest) published call (Memᴰ.head e) c =
    absurd (subst IsCurrent e c)
publish_all-Covered ((none, view) ∷ rest) published call (Memᴰ.tail k) c =
    publish_all-Covered rest published call k c
publish_all-Covered ((some current, view) ∷ rest) published call (Memᴰ.head e) c =
    let now : current.view_sequence ≡ view.view_sequence = subst IsCurrent e c in
    subst
      (λ x.
        Covered published (publish_all ((some current, view) ∷ rest) published) x.1.view_sequence)
      (sym e)
      (elim (Bool-cases (is_published published view.view_sequence)) [
        | inl q ↦ inl (is_published-Reached published view.view_sequence q)
        | inr q ↦
            rw ((==_iff current.view_sequence view.view_sequence).1 now, q)
              (inr (view, Memᴰ.head refl, omega arith))
      ])
publish_all-Covered ((some current, view) ∷ rest) published call (Memᴰ.tail k) c =
    elim (Bool-cases (current.view_sequence == view.view_sequence)) [
      | inr e ↦ rw e (publish_all-Covered rest published call k c)
      | inl e ↦ elim (Bool-cases (is_published published view.view_sequence)) [
        | inl q ↦ rw (e, q) (publish_all-Covered rest published call k c)
        | inr q ↦
            rw (e, q)
              (Covered-cons published view _ _
                (publish_all-Covered rest (some view.view_sequence) call k c))
      ]
    ]

-- The sequences of the views that are sent to the subscribers go up, from above the one that was
-- published before, whatever is published and whatever the catalog is at the time; and after all
-- calls the subscribers know, for each published view that was as new as the catalog's, that one or
-- one that is as new.
pub publish_all-IsNewer :
    (calls : List (Option SubscriptionAccountCatalogView × SubscriptionAccountCatalogView))
    (published : Option ℕ)
    → IsNewer published (publish_all calls published)
      × ((call : Option SubscriptionAccountCatalogView × SubscriptionAccountCatalogView)
          → Memᴰ call calls
          → IsCurrent call
          → Covered published (publish_all calls published) call.1.view_sequence)
publish_all-IsNewer calls published = (goes_up calls published, publish_all-Covered calls published)
