-- ===== src/Coordinator/Commit.antt =====
-- The change of the file of the accounts together with the catalog, and its rollback:
-- crates/routing-service/src/subscription/coordinator.rs.
use muxvia.Prelude.{ℕ, Bool, true, false, Option, none, some}
use muxvia.Text.{Text}
use muxvia.Effects.{Action, pure, ◌>>=◌, ◌>>◌, or_raise, attempt, failing}
use muxvia.Accounts.{SubscriptionAccountDocument, document_eq}
use muxvia.Catalog.{
  IntentState, rolled_back, intent_recovery_required, SubscriptionAccountCatalogView, StateError,
}
use muxvia.Catalog.Intents.{
  begin_subscription_account_recovery, finish_subscription_account_recovery,
  record_subscription_account_change, is_clean,
}
use muxvia.AccountStore.{
  SubscriptionAccountFileSnapshot, Disk, StoreAction, read, replace, stage_mutation,
  clear_staged_mutation,
}
use muxvia.Catalog.{
  SubscriptionAccountActionFailure, Code, state_store_error, subscription_account_recovery_required,
  subscription_account_write_failed,
}
use muxvia.Coordinator.{
  fail, fail_with, empty_failure, store, subscription_account_catalog, CoordinatorAction,
}

unfoldable pub finish_intent : ℕ → IntentState → Action Disk StateError (Unit {0})
finish_intent k s = store (finish_subscription_account_recovery k s)

module _ (document_sha256 : SubscriptionAccountDocument → Text) where
  abbrev pub clear : ℕ → StoreAction (Unit {0})
  clear = clear_staged_mutation document_sha256

  -- The end of a rollback: the intent is settled, then the staged mutation removed.
  unfoldable pub settle_rollback : ℕ → Code → CoordinatorAction SubscriptionAccountActionFailure
  settle_rollback k code = do
    or_raise (finish_intent k rolled_back) (empty_failure subscription_account_recovery_required)
    or_raise (clear k) (empty_failure subscription_account_recovery_required)
    pure (empty_failure code)

  unfoldable pub rollback_intent :
      ℕ
      → SubscriptionAccountFileSnapshot
      → SubscriptionAccountDocument
      → CoordinatorAction SubscriptionAccountActionFailure
  rollback_intent k before desired = do
    current ← or_raise read (empty_failure subscription_account_write_failed)
    restore current (document_eq current.document desired)
        (document_eq current.document before.document)
    where
      restore :
          SubscriptionAccountFileSnapshot
          → Bool
          → Bool
          → CoordinatorAction SubscriptionAccountActionFailure
      restore current _ true = settle_rollback k subscription_account_write_failed
      restore current true false = do
        or_raise (replace current before.document) (empty_failure subscription_account_write_failed)
        settle_rollback k state_store_error
      restore current false false = do
        attempt {F = SubscriptionAccountActionFailure} (finish_intent k intent_recovery_required)
        fail subscription_account_recovery_required

  -- The catalog is moved on, or the file is put back.
  unfoldable pub record_mutation :
      ℕ
      → SubscriptionAccountFileSnapshot
      → SubscriptionAccountDocument
      → CoordinatorAction SubscriptionAccountCatalogView
  record_mutation k before desired = do
    recorded ← attempt (store (record_subscription_account_change desired k))
    conclude recorded
    where
      conclude :
          Option SubscriptionAccountCatalogView → CoordinatorAction SubscriptionAccountCatalogView
      conclude (some view) = do attempt {F = SubscriptionAccountActionFailure} (clear k); pure view
      conclude none = do
        rollback_intent k before desired
        fail_with before.document state_store_error

  -- The file is replaced under an intent that is pending.
  unfoldable pub install_mutation :
      ℕ
      → SubscriptionAccountFileSnapshot
      → SubscriptionAccountDocument
      → CoordinatorAction SubscriptionAccountCatalogView
  install_mutation k before desired = do
    replaced ← attempt (replace before desired)
    undo_unless replaced
    record_mutation k before desired
    where
      undo_unless : Option (Unit {0}) → CoordinatorAction (Unit {0})
      undo_unless (some x) = pure tt
      undo_unless none = failing (rollback_intent k before desired)

  unfoldable pub commit_private_mutation :
      (intent_id action_id : ℕ) (operation : Text) (before : SubscriptionAccountFileSnapshot)
      (desired : SubscriptionAccountDocument)
      → CoordinatorAction SubscriptionAccountCatalogView
  commit_private_mutation k a operation before desired = do
    initial ←
        or_raise (subscription_account_catalog before.document) (empty_failure state_store_error)
    refuse_unless (is_clean initial.recovery)
    staged ←
        or_raise (stage_mutation document_sha256 k a operation before.document desired)
          (empty_failure subscription_account_write_failed)
    begun ← attempt (
        store (
          begin_subscription_account_recovery k a operation initial.revision staged.before_sha256
            staged.desired_sha256))
    drop_unless begun
    install_mutation k before desired
    where
      refuse_unless : Bool → CoordinatorAction (Unit {0})
      refuse_unless true = pure tt
      refuse_unless false = fail subscription_account_recovery_required

      drop_unless : Option (Unit {0}) → CoordinatorAction (Unit {0})
      drop_unless (some x) = pure tt
      drop_unless none = do
        attempt {F = SubscriptionAccountActionFailure} (clear k)
        fail state_store_error
