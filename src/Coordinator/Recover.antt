-- ===== src/Coordinator/Recover.antt =====
-- The recovery of a mutation that was interrupted:
-- crates/routing-service/src/subscription/coordinator.rs.
use muxvia.Prelude.{ℕ, Bool, true, false, ◌&&◌, Option, none, some, bytes_eq, ◌==◌}
use muxvia.Text.{Text}
use muxvia.Effects.{pure, ◌>>=◌, ◌>>◌, or_raise, attempt}
use muxvia.Accounts.{SubscriptionAccountDocument, document_eq}
use muxvia.Catalog.{
  IntentState, committed, rolled_back, pending, intent_recovery_required,
  PendingSubscriptionAccountRecovery,
}
use muxvia.Catalog.Intents.{
  pending_subscription_account_recovery, subscription_account_recovery_state,
  mark_subscription_account_recovery_required,
}
use muxvia.AccountStore.{
  StagedMutation, SubscriptionAccountFileSnapshot, read, replace, read_staged_mutation,
}
use muxvia.Catalog.{SubscriptionAccountActionFailure, subscription_account_recovery_required}
use muxvia.Coordinator.{empty_failure, store, CoordinatorAction}
use muxvia.Coordinator.Commit.{clear, finish_intent}

-- The states of an intent whose staged mutation is only left over.
unfoldable pub is_settled : Option IntentState → Bool → Bool
is_settled (some committed) b = true
is_settled (some rolled_back) b = true
is_settled (some pending) b = false
is_settled (some intent_recovery_required) b = false
is_settled none b = b

unfoldable pub is_same_intent : PendingSubscriptionAccountRecovery → StagedMutation → Bool
is_same_intent p m =
    (p.intent_id == m.intent_id)
    && (p.action_id == m.action_id)
    && bytes_eq p.operation m.operation
    && bytes_eq p.before_sha256 m.before_sha256
    && bytes_eq p.desired_sha256 m.desired_sha256

unfoldable pub mark_required : CoordinatorAction (Unit {0})
mark_required =
    or_raise (store mark_subscription_account_recovery_required)
      (empty_failure subscription_account_recovery_required)

-- `let _ = finish_subscription_account_recovery(intent_id, "recovery-required")`
unfoldable pub give_up : ℕ → CoordinatorAction (Unit {0})
give_up k = do
  attempt {F = SubscriptionAccountActionFailure} (finish_intent k intent_recovery_required)
  pure tt

module _ (document_sha256 : SubscriptionAccountDocument → Text) where
  unfoldable pub recover_staged : StagedMutation → CoordinatorAction (Unit {0})
  recover_staged staged = do
    state ←
        or_raise (store (subscription_account_recovery_state staged.intent_id))
          (empty_failure subscription_account_recovery_required)
    current ← or_raise read (empty_failure subscription_account_recovery_required)
    tidy (is_settled state (document_eq current.document staged.before))
    where
      tidy : Bool → CoordinatorAction (Unit {0})
      tidy true =
          or_raise (clear document_sha256 staged.intent_id)
            (empty_failure subscription_account_recovery_required)
      tidy false = mark_required

  -- The last steps of a recovery: the intent is settled, then the staged mutation removed.
  unfoldable pub settle_recovery : ℕ → CoordinatorAction (Unit {0})
  settle_recovery k = do
    or_raise (finish_intent k rolled_back) (empty_failure subscription_account_recovery_required)
    cleared ← attempt (clear document_sha256 k)
    mark_unless cleared
    where
      mark_unless : Option (Unit {0}) → CoordinatorAction (Unit {0})
      mark_unless (some x) = pure tt
      mark_unless none = mark_required

  unfoldable pub recover_interrupted : ℕ → StagedMutation → CoordinatorAction (Unit {0})
  recover_interrupted k staged = do current ← attempt read; inspect current
    where
      settle_if : Option (Unit {0}) → CoordinatorAction (Unit {0})
      settle_if (some x) = settle_recovery k
      settle_if none = give_up k

      restore : SubscriptionAccountFileSnapshot → Bool → Bool → CoordinatorAction (Unit {0})
      restore current true _ = do
        replaced ← attempt (replace current staged.before)
        settle_if replaced
      restore current false true = settle_recovery k
      restore current false false = give_up k

      inspect : Option SubscriptionAccountFileSnapshot → CoordinatorAction (Unit {0})
      inspect none = give_up k
      inspect (some current) =
          restore current (document_eq current.document staged.desired)
            (document_eq current.document staged.before)

  unfoldable pub recover :
      Option PendingSubscriptionAccountRecovery
      → Option (StagedMutation × ℕ)
      → CoordinatorAction (Unit {0})
  recover none none = pure tt
  recover none (some (staged, i)) = recover_staged staged
  recover (some p) none = give_up p.intent_id
  recover (some p) (some (staged, i)) = recover_same p staged (is_same_intent p staged)
    where
      recover_same :
          PendingSubscriptionAccountRecovery → StagedMutation → Bool → CoordinatorAction (Unit {0})
      recover_same p staged true = recover_interrupted p.intent_id staged
      recover_same p staged false = give_up p.intent_id

  unfoldable pub recover_pending_intents : CoordinatorAction (Unit {0})
  unfolding read_staged_mutation mark_required store pending_subscription_account_recovery recover
      empty_failure
  recover_pending_intents = do
    staged ← attempt (read_staged_mutation document_sha256)
    recover_read staged
    where
      recover_read : Option (Option (StagedMutation × ℕ)) → CoordinatorAction (Unit {0})
      recover_read none = mark_required
      recover_read (some staged) = do
        found ←
            or_raise (store pending_subscription_account_recovery)
              (empty_failure subscription_account_recovery_required)
        recover found staged
