-- ===== src/Catalog/Pending.antt =====
-- The transactions on one new intent of a catalog that has none pending.
use muxvia.Prelude.{
  ℕ, suc, ◌≡◌, refl, false, none, some, List, [], ◌∷◌, ==_iff, Bool-cases, ◌⊎◌, inl, inr, ◌==◌,
  arith,
}
use muxvia.Text.{Text}
use muxvia.Effects.{ok, err}
use muxvia.Accounts.{SubscriptionAccountDocument}
use muxvia.Catalog.{
  clean, IntentState, pending, committed, rolled_back, Intent, Catalog, recovery_required,
  intent_recovery_required, invalid_recovery_state,
}
use muxvia.Catalog.Projection.{project_catalog}
use muxvia.Catalog.Intents.{
  is_pending, pending_rows, matching, settle, is_taken, begin_subscription_account_recovery,
  pending_subscription_account_recovery, state_of, finish_subscription_account_recovery,
  record_subscription_account_change, require_recovery,
}

-- A table without a pending row has nothing to change.
pub matching-no_pending : (k : ℕ) (is : List Intent) → pending_rows is ≡ [] → matching k is ≡ 0
unfolding matching pending_rows
matching-no_pending k [] e = refl
matching-no_pending k (i ∷ is) e = elim (Bool-cases (is_pending i.state)) [
  | inl p ↦ ground arith
  | inr p ↦ ground (arith, matching-no_pending k is)
]

pub settle-no_pending :
    (k : ℕ) (s : IntentState) (is : List Intent) → pending_rows is ≡ [] → settle k s is ≡ is
unfolding settle pending_rows
settle-no_pending k s [] e = refl
settle-no_pending k s (i ∷ is) e = elim (Bool-cases (is_pending i.state)) [
  | inl p ↦ ground arith
  | inr p ↦ ground (arith, settle-no_pending k s is)
]

pub state_of-not_taken :
    (k a : ℕ) (is : List Intent) → is_taken k a is ≡ false → state_of k is ≡ none
unfolding state_of is_taken
state_of-not_taken k a [] e = refl
state_of-not_taken k a (i ∷ is) e = ground (arith, state_of-not_taken k a is)

-- An intent is given up, which marks the catalog, or nothing changes.
pub finish-give_up :
    (k : ℕ) (c : Catalog)
    → ((c' : Catalog) × (finish_subscription_account_recovery k intent_recovery_required c
          ≡ (ok tt, c'))
        × (c'.recovery ≡ recovery_required))
      ⊎ (finish_subscription_account_recovery k intent_recovery_required c
          ≡ (err invalid_recovery_state, c))
unfolding finish_subscription_account_recovery require_recovery
finish-give_up k c = elim (Bool-cases (matching k c.intents == 1)) [
  | inl e ↦ inl (given_up, rw e refl, refl)
  | inr e ↦ inr (rw e refl)
]
  where
    given_up : Catalog
    given_up =
        require_recovery intent_recovery_required
          (record c { intents = settle k intent_recovery_required c.intents })

module _ (k a : ℕ) (operation before_sha256 desired_sha256 : Text) (c : Catalog) where
  abbrev pub row : IntentState → Intent
  row s = record {
    id = k;
    action_id = a;
    operation = operation;
    state = s;
    before_sha256 = before_sha256;
    desired_sha256 = desired_sha256;
    created_revision = c.revision;
  }

  abbrev pub table : IntentState → Catalog
  table s = record c { intents = row s ∷ c.intents }

  abbrev pub changed : Catalog
  changed = record c {
    intents = row committed ∷ c.intents;
    revision = suc c.revision;
    view_sequence = suc c.view_sequence;
  }

  module _ (quiet : pending_rows c.intents ≡ []) where
    pub matching-row_pending : matching k (row pending ∷ c.intents) ≡ 1
    unfolding matching
    matching-row_pending = rw (matching-no_pending k c.intents quiet, (==_iff k k).1 refl) refl

    pub settle-row_pending :
        (s : IntentState) → settle k s (row pending ∷ c.intents) ≡ row s ∷ c.intents
    unfolding settle
    settle-row_pending s = rw (settle-no_pending k s c.intents quiet, (==_iff k k).1 refl) refl

    pub begin-table :
        c.recovery ≡ clean
        → is_taken k a c.intents ≡ false
        → begin_subscription_account_recovery k a operation c.revision before_sha256 desired_sha256
            c
          ≡ (ok tt, table pending)
    unfolding begin_subscription_account_recovery
    begin-table e free = rw ((==_iff c.revision c.revision).1 refl, e, quiet, free) refl

    pub finish-table :
        finish_subscription_account_recovery k rolled_back (table pending)
        ≡ (ok tt, table rolled_back)
    unfolding finish_subscription_account_recovery
    finish-table = rw (matching-row_pending, settle-row_pending rolled_back) refl

    pub record-table :
        (document : SubscriptionAccountDocument)
        → c.recovery ≡ clean
        → record_subscription_account_change document k (table pending)
          ≡ (ok (project_catalog changed document), changed)
    unfolding record_subscription_account_change
    record-table document e = rw (matching-row_pending, e, settle-row_pending committed) refl

    pub pending-table : pending_subscription_account_recovery (table pending) ≡ (
      ok (
          some (record {
            intent_id = k;
            action_id = a;
            operation = operation;
            before_sha256 = before_sha256;
            desired_sha256 = desired_sha256;
          })),
      table pending,
    )
    unfolding pending_subscription_account_recovery pending_rows
    pending-table = rw quiet refl
