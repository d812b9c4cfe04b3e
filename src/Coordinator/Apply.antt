-- ===== src/Coordinator/Apply.antt =====
-- The account actions of a client: `apply` and `apply_raw` of
-- crates/routing-service/src/subscription/coordinator.rs.
use muxvia.Prelude.{ℕ, Bool, true, false, Option, none, some, ◌==◌}
use muxvia.Text.{Text}
use muxvia.Effects.{Result, ok, err, pure, raise, ◌>>=◌, ◌>>◌, or_raise, attempt, failing}
use muxvia.Accounts.{SubscriptionAccountDocument}
use muxvia.Catalog.{
  Code, SubscriptionAccountActionFailure, SubscriptionAccountAction, SubscriptionAccountOutcome,
  subscription_account_file_invalid, state_store_error, subscription_account_recovery_required,
  stale_subscription_catalog_revision, invalid_action_replay, subscription_account_write_failed,
  invalid_request,
}
use muxvia.Catalog.Intents.{is_clean, begin_subscription_account_recovery}
use muxvia.Catalog.Actions.{
  subscription_account_receipt, subscription_account_receipt_by_id,
  commit_subscription_account_action,
}
use muxvia.AccountStore.{SubscriptionAccountFileSnapshot, read, replace, stage_mutation}
use muxvia.Coordinator.{
  CoordinatorAction, store, subscription_account_catalog, empty_failure, fail_with, fail,
}
use muxvia.Coordinator.Commit.{clear, rollback_intent}
use muxvia.Coordinator.Previews.{
  Previews, plan_action, subscription_action_operation, without_preview,
}

-- The outcome of an action and the previews after it; a failure leaves the previews.
abbrev pub Applied : Type 0
Applied = CoordinatorAction (SubscriptionAccountOutcome × Previews)

module _ (document_sha256 : SubscriptionAccountDocument → Text) (k a r : ℕ)
    (action : SubscriptionAccountAction) (previews : Previews) where
  -- The intent of an action that changes the file, if it has one.
  abbrev intent : Bool → Option ℕ
  intent true = some k
  intent false = none

  -- `if let Some(intent_id) = recovery_intent_id { rollback_intent(…)? }`
  abbrev undo :
      Bool
      → SubscriptionAccountFileSnapshot
      → SubscriptionAccountDocument
      → CoordinatorAction (Unit {0})
  undo true before desired = do rollback_intent document_sha256 k before desired; pure tt
  undo false before desired = pure tt

  abbrev forget_staged : Bool → CoordinatorAction (Unit {0})
  forget_staged true = do
    attempt {F = SubscriptionAccountActionFailure} (clear document_sha256 k)
    pure tt
  forget_staged false = pure tt

  -- What follows each answer of the transaction.
  unfoldable pub conclude_action :
      Bool
      → SubscriptionAccountFileSnapshot
      → SubscriptionAccountDocument
      → Option (Result SubscriptionAccountActionFailure SubscriptionAccountOutcome)
      → Applied
  conclude_action changed before desired (some (ok outcome)) = do
    forget_staged changed
    pure (outcome, without_preview action previews)
  conclude_action changed before desired (some (err e)) = do undo changed before desired; raise e
  conclude_action changed before desired none = do
    undo changed before desired
    fail_with before.document state_store_error

  unfoldable pub commit_action :
      Bool → SubscriptionAccountFileSnapshot → SubscriptionAccountDocument → Applied
  commit_action changed before desired = do
    result ←
        attempt (store (commit_subscription_account_action a r action desired (intent changed)))
    conclude_action changed before desired result

  unfoldable pub install_action :
      SubscriptionAccountFileSnapshot → SubscriptionAccountDocument → Applied
  install_action before desired = do
    replaced ← attempt (replace before desired)
    undo_unless replaced
    commit_action true before desired
    where
      undo_unless : Option (Unit {0}) → CoordinatorAction (Unit {0})
      undo_unless (some x) = pure tt
      undo_unless none = failing (rollback_intent document_sha256 k before desired)

  unfoldable pub stage_action :
      SubscriptionAccountFileSnapshot → SubscriptionAccountDocument → Applied
  stage_action before desired = do
    staged ←
        or_raise
          (stage_mutation document_sha256 k a (subscription_action_operation action) before.document
            desired)
          (empty_failure subscription_account_write_failed)
    begun ← attempt (
        store (
          begin_subscription_account_recovery k a (subscription_action_operation action) r
            staged.before_sha256 staged.desired_sha256))
    drop_unless begun
    install_action before desired
    where
      drop_unless : Option (Unit {0}) → CoordinatorAction (Unit {0})
      drop_unless (some x) = pure tt
      drop_unless none = do
        attempt {F = SubscriptionAccountActionFailure} (clear document_sha256 k)
        fail_with before.document state_store_error

  -- What follows the match on the action.
  unfoldable pub carry_out :
      SubscriptionAccountFileSnapshot → Result Code (SubscriptionAccountDocument × Bool) → Applied
  carry_out before (err code) = fail_with before.document code
  carry_out before (ok (desired, true)) = stage_action before desired
  carry_out before (ok (desired, false)) = commit_action false before desired

  -- The checks of the catalog's state and of its revision.
  unfoldable pub proceed :
      SubscriptionAccountFileSnapshot
      → (is_clean is_current : Bool) → Result Code (SubscriptionAccountDocument × Bool)
      → Applied
  proceed before false _ plan = fail_with before.document subscription_account_recovery_required
  proceed before true false plan = fail_with before.document stale_subscription_catalog_revision
  proceed before true true plan = carry_out before plan

  -- The receipt is not there.
  unfoldable pub apply_new : Applied
  apply_new = do
    before ← or_raise read (empty_failure subscription_account_file_invalid)
    initial_view ←
        or_raise (subscription_account_catalog before.document) (empty_failure state_store_error)
    proceed before (is_clean initial_view.recovery) (initial_view.revision == r)
        (plan_action action r previews before.document)

  unfoldable pub apply : Applied
  apply = do receipt ← attempt (store (subscription_account_receipt a action)); answer receipt
    where
      refuse : Option SubscriptionAccountFileSnapshot → Applied
      refuse (some snapshot) = fail_with snapshot.document invalid_action_replay
      refuse none = fail state_store_error

      answer : Option (Option SubscriptionAccountOutcome) → Applied
      answer (some (some outcome)) = pure (outcome, previews)
      answer (some none) = apply_new
      answer none = do snapshot ← attempt read; refuse snapshot

-- `apply_raw`: an action that is not parsed yet; none stands for a value that serde refuses.
unfoldable pub apply_raw :
    (document_sha256 : SubscriptionAccountDocument → Text) (k a r : ℕ)
    → Option SubscriptionAccountAction
    → Previews
    → Applied
apply_raw document_sha256 k a r action previews = do
  receipt ←
      or_raise (store (subscription_account_receipt_by_id a)) (empty_failure state_store_error)
  answer receipt
  where
    parsed : Option SubscriptionAccountAction → Applied
    parsed none = fail invalid_request
    parsed (some x) = apply document_sha256 k a r x previews

    answer : Option SubscriptionAccountOutcome → Applied
    answer (some outcome) = pure (outcome, previews)
    answer none = parsed action
