-- ===== src/Catalog.antt =====
-- The tables of the subscription accounts in the state store,
-- crates/routing-service/src/state/subscription_accounts.rs. A method is a transaction on the
-- tables: its error leaves them as they were. A UUID is a number, a table the list of its rows.
pub mod Projection
pub mod Intents
pub mod Pending
pub mod Actions
pub mod Replay
use muxvia.Prelude.{
  ℕ, zero, suc, ◌+◌, Bool, true, false, not, ◌&&◌, ◌||◌, Option, none, some, List, [], ◌∷◌, map,
  Bytes, bytes_eq, ◌==◌, if◌then◌else◌, get, contains_key,
}
use muxvia.Text.{Text}
use muxvia.Domain.{Target, target_eq}
use muxvia.RoutePlan.{SubscriptionProviderBinding}
use muxvia.Effects.{Result, ok, err}
use muxvia.Accounts.{
  ℤ, AccountAuthorizationState, authorized, needs_reauthorization, SubscriptionAccountRecord,
  SubscriptionAccountDocument,
}

pub data RecoveryState : Type 0 where
  clean recovery_required : RecoveryState

pub data IntentState : Type 0 where
  pending committed rolled_back intent_recovery_required : IntentState

pub record Intent : Type 0 where
  pub id : ℕ
  pub action_id : ℕ
  pub operation : Text
  pub state : IntentState
  pub before_sha256 : Text
  pub desired_sha256 : Text
  pub created_revision : ℕ

pub record BindingRow : Type 0 where
  pub target : Target
  pub provider_id : ℕ
  pub binding : SubscriptionProviderBinding

-- A row of the providers, which are in the order of target, position and identifier.
pub record ProviderRow : Type 0 where
  pub target : Target
  pub id : ℕ
  pub provider_revision : ℕ
  pub name : Text

pub record SubscriptionAccountView : Type 0 where
  pub account_id : Text
  pub email : Option Text
  pub authenticated_at : ℤ
  pub state : AccountAuthorizationState
  pub is_default : Bool

pub data ResolutionState : Type 0 where
  available resolution_needs_reauthorization missing no_default : ResolutionState

pub record SubscriptionBindingResolution : Type 0 where
  pub state : ResolutionState
  pub account_id : Option Text

pub record SubscriptionProviderBindingView : Type 0 where
  pub target : Target
  pub provider_id : ℕ
  pub provider_revision : ℕ
  pub provider_name : Text
  pub binding : SubscriptionProviderBinding
  pub resolution : SubscriptionBindingResolution

pub record SubscriptionAccountCatalogView : Type 0 where
  pub revision : ℕ
  pub view_sequence : ℕ
  pub default_account_id : Option Text
  pub accounts : List SubscriptionAccountView
  pub bindings : List SubscriptionProviderBindingView
  pub recovery : RecoveryState

pub data ActionStatus : Type 0 where
  applied replayed : ActionStatus

pub record SubscriptionAccountOutcome : Type 0 where
  pub status : ActionStatus
  pub view : SubscriptionAccountCatalogView

pub data SubscriptionAccountAction : Type 0 where
  set_default_account : (account_id : Text) (preview_token : ℕ) → SubscriptionAccountAction
  bind_provider_fixed :
      Target → (provider_id provider_revision : ℕ) (account_id : Text) → SubscriptionAccountAction
  bind_provider_follow_default :
      Target → (provider_id provider_revision : ℕ) → SubscriptionAccountAction
  delete_account : (account_id : Text) → SubscriptionAccountAction

pub record Receipt : Type 0 where
  pub action_id : ℕ
  pub action : SubscriptionAccountAction
  pub committed_revision : ℕ
  pub outcome : SubscriptionAccountOutcome

-- The singleton row of the catalog state and the tables beside it.
pub record Catalog : Type 0 where
  pub revision : ℕ
  pub view_sequence : ℕ
  pub recovery : RecoveryState
  pub intents : List Intent
  pub bindings : List BindingRow
  pub providers : List ProviderRow
  pub receipts : List Receipt

pub data StateError : Type 0 where
  invalid_recovery_state sqlite : StateError

pub record PendingSubscriptionAccountRecovery : Type 0 where
  pub intent_id : ℕ
  pub action_id : ℕ
  pub operation : Text
  pub before_sha256 : Text
  pub desired_sha256 : Text

-- The codes of the problems of both files.
pub data Code : Type 0 where
  subscription_account_file_invalid state_store_error : Code
  subscription_account_recovery_required subscription_account_write_failed : Code
  subscription_account_not_found stale_subscription_catalog_revision : Code
  stale_default_account_preview invalid_action_replay invalid_subscription_binding : Code
  invalid_request : Code

pub record SubscriptionAccountActionFailure : Type 0 where
  pub code : Code
  pub authoritative_view : SubscriptionAccountCatalogView
