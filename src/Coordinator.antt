-- ===== src/Coordinator.antt =====
-- `SubscriptionAccountCoordinator` of crates/routing-service/src/subscription/coordinator.rs: the
-- methods that change the file of the accounts and the catalog together. Its mutex makes a method
-- one sequence of calls. The text of a problem beside its code is left out.
pub mod Commit
pub mod Recover
pub mod Changes
pub mod Previews
pub mod Publish
pub mod Apply
pub mod Phases
pub mod Committing
pub mod Resuming
pub mod Recovering
pub mod Restarting
pub mod CrashSafe
pub mod Restarts
pub mod Answers
pub mod Concluding
pub mod Applying
pub mod ApplySafe
pub mod Refusals
pub mod Documents
pub mod Elected
mod Tests
use muxvia.Prelude.{
  ℕ, Bool, true, false, not, ◌&&◌, ◌||◌, Option, none, some, List, [], ◌∷◌, bytes_eq, ◌==◌,
  if◌then◌else◌,
}
use muxvia.Text.{Text}
use muxvia.Effects.{
  Result, ok, err, Action, pure, raise, transact, ◌>>=◌, ◌>>◌, or_raise, attempt, failing,
}
use muxvia.Accounts.{SubscriptionAccountDocument, document_eq}
use muxvia.Catalog.{
  Code, state_store_error, subscription_account_file_invalid, SubscriptionAccountActionFailure,
  RecoveryState, clean, recovery_required, IntentState, committed, rolled_back, pending,
  intent_recovery_required, SubscriptionAccountCatalogView, Catalog, StateError, sqlite,
  PendingSubscriptionAccountRecovery,
}
use muxvia.Catalog.Projection.{project_catalog}
use muxvia.Catalog.Intents.{
  begin_subscription_account_recovery, pending_subscription_account_recovery,
  subscription_account_recovery_state, finish_subscription_account_recovery,
  mark_subscription_account_recovery_required, record_subscription_account_change, is_clean,
}
use muxvia.AccountStore.{
  StagedMutation, SubscriptionAccountFileSnapshot, Disk, SubscriptionAccountStoreError, StoreAction,
  read, replace, read_staged_mutation, stage_mutation, clear_staged_mutation,
}

abbrev pub CoordinatorAction : Type 0 → Type 0
CoordinatorAction A = Action Disk SubscriptionAccountActionFailure A

-- A transaction of the state store.
unfoldable pub store :
    {A : Type 0} → (Catalog → Result StateError A × Catalog) → Action Disk StateError A
unfolding transact
store op = transact sqlite (λ d. let (r, c) = op d.catalog in (r, record d { catalog = c }))

unfoldable pub subscription_account_catalog :
    SubscriptionAccountDocument → Action Disk StateError SubscriptionAccountCatalogView
unfolding store project_catalog
subscription_account_catalog document = store (λ c. (ok (project_catalog c document), c))

unfoldable pub empty_failure : Code → SubscriptionAccountActionFailure
empty_failure code = record {
  code = code;
  authoritative_view = record {
    revision = 0;
    view_sequence = 0;
    default_account_id = none;
    accounts = [];
    bindings = [];
    recovery = recovery_required;
  };
}

unfoldable pub failure :
    SubscriptionAccountDocument → Code → CoordinatorAction SubscriptionAccountActionFailure
unfolding subscription_account_catalog empty_failure
failure document code = do
  view ← attempt (subscription_account_catalog document)
  pure (viewed view)
  where
    viewed : Option SubscriptionAccountCatalogView → SubscriptionAccountActionFailure
    viewed none = empty_failure code
    viewed (some view) = record { code = code; authoritative_view = view }

-- An error with the view of a document.
unfoldable pub fail_with : {A : Type 0} → SubscriptionAccountDocument → Code → CoordinatorAction A
unfolding failure
fail_with document code = failure document code >>= raise

abbrev pub fail : {A : Type 0} → Code → CoordinatorAction A
fail code = raise (empty_failure code)

unfoldable pub catalog : CoordinatorAction SubscriptionAccountCatalogView
unfolding read subscription_account_catalog empty_failure
catalog = do
  snapshot ← or_raise read (empty_failure subscription_account_file_invalid)
  or_raise (subscription_account_catalog snapshot.document) (empty_failure state_store_error)
