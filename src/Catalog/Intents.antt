-- ===== src/Catalog/Intents.antt =====
-- The recovery intents of crates/routing-service/src/state/subscription_accounts.rs: at most one of
-- them is pending, and it is settled once.
use muxvia.Prelude.{
  ℕ, suc, ◌+◌, Bool, true, false, ◌&&◌, ◌||◌, Option, none, some, List, [], ◌∷◌, ◌==◌,
  if◌then◌else◌,
}
use muxvia.Text.{Text}
use muxvia.Effects.{Result, ok, err}
use muxvia.Accounts.{SubscriptionAccountDocument}
use muxvia.Catalog.{
  RecoveryState, clean, recovery_required, IntentState, pending, committed, rolled_back,
  intent_recovery_required, Intent, SubscriptionAccountCatalogView, Catalog, StateError,
  invalid_recovery_state, sqlite, PendingSubscriptionAccountRecovery,
}
use muxvia.Catalog.Projection.{project_catalog}

abbrev pub is_pending : IntentState → Bool
is_pending pending = true
is_pending _ = false

abbrev pub is_clean : RecoveryState → Bool
is_clean clean = true
is_clean recovery_required = false

-- `SELECT … WHERE state = 'pending'`
unfoldable pub pending_rows : List Intent → List Intent
pending_rows [] = []
pending_rows (i ∷ is) = let rest = pending_rows is in if is_pending i.state then i ∷ rest else rest

-- The rows that `UPDATE … SET state = ?2 WHERE id = ?1 AND state = 'pending'` changes, and the
-- table after it.
unfoldable pub matching : ℕ → List Intent → ℕ
matching k [] = 0
matching k (i ∷ is) =
    let rest = matching k is in if (i.id == k) && is_pending i.state then suc rest else rest

unfoldable pub settle : ℕ → IntentState → List Intent → List Intent
settle k s [] = []
settle k s (i ∷ is) =
    (if (i.id == k) && is_pending i.state then record i { state = s } else i) ∷ settle k s is

-- The primary key and the unique column of the table.
unfoldable pub is_taken : ℕ → ℕ → List Intent → Bool
is_taken k a [] = false
is_taken k a (i ∷ is) = (i.id == k) || ((i.action_id == a) || is_taken k a is)

abbrev is_none : List Intent → Bool
is_none [] = true
is_none (i ∷ is) = false

unfoldable pub begin_subscription_account_recovery :
    (intent_id action_id : ℕ) (operation : Text) (expected_revision : ℕ)
    (before_sha256 desired_sha256 : Text)
    → Catalog
    → Result StateError (Unit {0}) × Catalog
unfolding pending_rows is_taken
begin_subscription_account_recovery k a operation r before desired c =
    if (c.revision == r) && is_clean c.recovery
    then (if is_none (pending_rows c.intents)
        then (if is_taken k a c.intents
            then (err sqlite, c)
            else (ok tt, record c { intents = row ∷ c.intents }))
        else (err invalid_recovery_state, c))
    else (err invalid_recovery_state, c)
  where
    row : Intent
    row = record {
      id = k;
      action_id = a;
      operation = operation;
      state = pending;
      before_sha256 = before;
      desired_sha256 = desired;
      created_revision = r;
    }

unfoldable pub pending_subscription_account_recovery :
    Catalog → Result StateError (Option PendingSubscriptionAccountRecovery) × Catalog
unfolding pending_rows
pending_subscription_account_recovery c = (found (pending_rows c.intents), c)
  where
    found : List Intent → Result StateError (Option PendingSubscriptionAccountRecovery)
    found [] = ok none
    found (i ∷ []) = ok (
        some (record {
          intent_id = i.id;
          action_id = i.action_id;
          operation = i.operation;
          before_sha256 = i.before_sha256;
          desired_sha256 = i.desired_sha256;
        }))
    found (i ∷ j ∷ is) = err invalid_recovery_state

unfoldable pub state_of : ℕ → List Intent → Option IntentState
state_of k [] = none
state_of k (i ∷ is) = if i.id == k then some i.state else state_of k is

unfoldable pub subscription_account_recovery_state :
    ℕ → Catalog → Result StateError (Option IntentState) × Catalog
unfolding state_of
subscription_account_recovery_state k c = (ok (state_of k c.intents), c)

unfoldable pub require_recovery : IntentState → Catalog → Catalog
require_recovery intent_recovery_required c = record c {
  recovery = recovery_required;
  view_sequence = suc c.view_sequence;
}
require_recovery _ c = c

abbrev is_final : IntentState → Bool
is_final rolled_back = true
is_final intent_recovery_required = true
is_final _ = false

unfoldable pub finish_subscription_account_recovery :
    ℕ → IntentState → Catalog → Result StateError (Unit {0}) × Catalog
unfolding matching settle require_recovery
finish_subscription_account_recovery k s c =
    if is_final s
    then (if matching k c.intents == 1
        then (ok tt, require_recovery s (record c { intents = settle k s c.intents }))
        else (err invalid_recovery_state, c))
    else (err invalid_recovery_state, c)

unfoldable pub mark_subscription_account_recovery_required :
    Catalog → Result StateError (Unit {0}) × Catalog
mark_subscription_account_recovery_required c = (
  ok tt,
  record c {
    recovery = recovery_required;
    view_sequence = c.view_sequence + (if is_clean c.recovery then 1 else 0);
  },
)

unfoldable pub record_subscription_account_change :
    SubscriptionAccountDocument
    → ℕ
    → Catalog
    → Result StateError SubscriptionAccountCatalogView × Catalog
unfolding matching settle project_catalog
record_subscription_account_change document k c =
    if matching k c.intents == 1
    then (if is_clean c.recovery
        then (ok (project_catalog changed document), changed)
        else (err invalid_recovery_state, c))
    else (err invalid_recovery_state, c)
  where
    changed : Catalog
    changed = record c {
      intents = settle k committed c.intents;
      revision = suc c.revision;
      view_sequence = suc c.view_sequence;
    }
