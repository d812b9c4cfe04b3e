-- ===== src/Coordinator/Previews.antt =====
-- The previews of a default account and the document that an action asks for:
-- crates/routing-service/src/subscription/coordinator.rs. The previews are the state that only the
-- process keeps.
use muxvia.Prelude.{
  ℕ, Bool, true, false, not, ◌&&◌, Option, none, some, List, [], ◌∷◌, bytes_eq, ◌==◌, if◌then◌else◌,
  get, contains_key,
}
use muxvia.Text.{Text, codes}
use muxvia.Domain.{Target}
use muxvia.Effects.{Result, ok, err, pure, ◌>>=◌, or_raise}
use muxvia.Accounts.{SubscriptionAccountRecord, SubscriptionAccountDocument, document_eq}
use muxvia.RoutePlan.{SubscriptionProviderBinding, fixed, follow_default}
use muxvia.Catalog.{
  Code, ResolutionState, SubscriptionProviderBindingView, SubscriptionAccountAction,
  set_default_account, bind_provider_fixed, bind_provider_follow_default, delete_account,
  subscription_account_file_invalid, state_store_error, subscription_account_not_found,
  stale_default_account_preview,
}
use muxvia.Catalog.Projection.{resolution_of}
use muxvia.AccountStore.{SubscriptionAccountFileSnapshot, read}
use muxvia.Coordinator.{CoordinatorAction, subscription_account_catalog, empty_failure, fail_with}
use muxvia.Coordinator.Changes.{delete_account_from, set_default_to}

pub record DefaultPreviewBinding : Type 0 where
  pub token : ℕ
  pub account_id : Text
  pub revision : ℕ

abbrev pub Previews : Type 0
Previews = List DefaultPreviewBinding

pub record SubscriptionDefaultEffect : Type 0 where
  pub target : Target
  pub provider_id : ℕ
  pub provider_revision : ℕ
  pub provider_name : Text
  pub current_account_id : Option Text
  pub next_account_id : Option Text
  pub next_resolution : ResolutionState

pub record SubscriptionDefaultPreview : Type 0 where
  pub preview_token : ℕ
  pub account_id : Text
  pub effects : List SubscriptionDefaultEffect

unfoldable pub effects_of :
    Text → ResolutionState → List SubscriptionProviderBindingView → List SubscriptionDefaultEffect
effects_of i next [] = []
effects_of i next (v ∷ vs) = keep v.binding (effects_of i next vs)
  where
    keep :
        SubscriptionProviderBinding
        → List SubscriptionDefaultEffect
        → List SubscriptionDefaultEffect
    keep (fixed j) rest = rest
    keep follow_default rest =
        record {
          target = v.target;
          provider_id = v.provider_id;
          provider_revision = v.provider_revision;
          provider_name = v.provider_name;
          current_account_id = v.resolution.account_id;
          next_account_id = some i;
          next_resolution = next;
        }
        ∷ rest

unfoldable pub preview_default :
    (preview_token : ℕ)
    → Text
    → Previews
    → CoordinatorAction (SubscriptionDefaultPreview × Previews)
preview_default token i previews = do
  snapshot ← or_raise read (empty_failure subscription_account_file_invalid)
  preview snapshot (get i snapshot.document.accounts)
  where
    preview :
        SubscriptionAccountFileSnapshot
        → Option SubscriptionAccountRecord
        → CoordinatorAction (SubscriptionDefaultPreview × Previews)
    preview snapshot none = fail_with snapshot.document subscription_account_not_found
    preview snapshot (some account) = do
      view ←
          or_raise (subscription_account_catalog snapshot.document)
            (empty_failure state_store_error)
      pure (
        record {
          preview_token = token;
          account_id = i;
          effects = effects_of i (resolution_of account.state) view.bindings;
        },
        record { token = token; account_id = i; revision = view.revision } ∷ previews,
      )

-- The preview of a token is of that account and revision.
unfoldable pub is_previewed : ℕ → Text → ℕ → Previews → Bool
is_previewed token i r [] = false
is_previewed token i r (p ∷ ps) =
    if p.token == token
    then bytes_eq p.account_id i && (p.revision == r)
    else is_previewed token i r ps

unfoldable pub forget : ℕ → Previews → Previews
forget token [] = []
forget token (p ∷ ps) = if p.token == token then forget token ps else p ∷ forget token ps

unfoldable pub subscription_action_operation : SubscriptionAccountAction → Text
subscription_action_operation (set_default_account i token) = codes "set-default-account"
subscription_action_operation (bind_provider_fixed t p r i) = codes "bind-provider-fixed"
subscription_action_operation (bind_provider_follow_default t p r) =
    codes "bind-provider-follow-default"
subscription_action_operation (delete_account i) = codes "delete-account"

-- The match on the action: the desired document and whether the file changes, or the refusal.
unfoldable pub plan_action :
    SubscriptionAccountAction
    → (expected_revision : ℕ) → Previews
    → SubscriptionAccountDocument
    → Result Code (SubscriptionAccountDocument × Bool)
unfolding is_previewed set_default_to delete_account_from
plan_action (set_default_account i token) r previews d =
    if is_previewed token i r previews && contains_key i d.accounts
    then ok (set_default_to d i, not (document_eq (set_default_to d i) d))
    else err stale_default_account_preview
plan_action (delete_account i) r previews d =
    if contains_key i d.accounts
    then ok (delete_account_from d i, true)
    else err subscription_account_not_found
plan_action (bind_provider_fixed t p q i) r previews d = ok (d, false)
plan_action (bind_provider_follow_default t p q) r previews d = ok (d, false)

unfoldable pub without_preview : SubscriptionAccountAction → Previews → Previews
unfolding forget
without_preview (set_default_account i token) previews = forget token previews
without_preview _ previews = previews
