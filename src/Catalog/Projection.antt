-- ===== src/Catalog/Projection.antt =====
-- `project_catalog` of crates/routing-service/src/state/subscription_accounts.rs: what a client
-- sees of the accounts and of the bindings of the providers.
use muxvia.Prelude.{
  ℕ, Bool, false, ◌&&◌, Option, none, some, List, [], ◌∷◌, bytes_eq, ◌==◌, if◌then◌else◌, Map, get,
}
use muxvia.Text.{Text}
use muxvia.Domain.{Target, target_eq}
use muxvia.Accounts.{
  AccountAuthorizationState, authorized, needs_reauthorization, SubscriptionAccountRecord,
  SubscriptionAccountDocument,
}
use muxvia.RoutePlan.{SubscriptionProviderBinding, fixed, follow_default}
use muxvia.Catalog.{
  BindingRow, ProviderRow, SubscriptionAccountView, ResolutionState, available,
  resolution_needs_reauthorization, missing, no_default, SubscriptionBindingResolution,
  SubscriptionProviderBindingView, SubscriptionAccountCatalogView, Catalog,
}

find_binding : Target → ℕ → List BindingRow → Option SubscriptionProviderBinding
find_binding t i [] = none
find_binding t i (b ∷ bs) =
    if target_eq b.target t && (b.provider_id == i) then some b.binding else find_binding t i bs

unfoldable pub resolution_of : AccountAuthorizationState → ResolutionState
resolution_of authorized = available
resolution_of needs_reauthorization = resolution_needs_reauthorization

resolve_account : Text → Option SubscriptionAccountRecord → SubscriptionBindingResolution
unfolding resolution_of
resolve_account i none = record { state = missing; account_id = some i }
resolve_account i (some a) = record { state = resolution_of a.state; account_id = some i }

-- `fixed_id.or_else(|| document.default_account_id.clone())`
unfoldable pub resolved_id : SubscriptionProviderBinding → Option Text → Option Text
resolved_id (fixed i) default_id = some i
resolved_id follow_default default_id = default_id

resolve_id : Option Text → Map SubscriptionAccountRecord → SubscriptionBindingResolution
unfolding resolve_account
resolve_id none accounts = record { state = no_default; account_id = none }
resolve_id (some i) accounts = resolve_account i (get i accounts)

unfoldable pub resolve :
    SubscriptionProviderBinding → SubscriptionAccountDocument → SubscriptionBindingResolution
unfolding resolve_id resolved_id
resolve b document = resolve_id (resolved_id b document.default_account_id) document.accounts

unfoldable pub project_bindings :
    List ProviderRow
    → List BindingRow
    → SubscriptionAccountDocument
    → List SubscriptionProviderBindingView
unfolding resolve find_binding
project_bindings [] bindings document = []
project_bindings (p ∷ ps) bindings document =
    bound (find_binding p.target p.id bindings) (project_bindings ps bindings document)
  where
    bound :
        Option SubscriptionProviderBinding
        → List SubscriptionProviderBindingView
        → List SubscriptionProviderBindingView
    bound none rest = rest
    bound (some b) rest =
        record {
          target = p.target;
          provider_id = p.id;
          provider_revision = p.provider_revision;
          provider_name = p.name;
          binding = b;
          resolution = resolve b document;
        }
        ∷ rest

is_default_of : Option Text → Text → Bool
is_default_of none i = false
is_default_of (some j) i = bytes_eq j i

unfoldable pub project_accounts :
    Option Text → Map SubscriptionAccountRecord → List SubscriptionAccountView
unfolding is_default_of
project_accounts default_id [] = []
project_accounts default_id ((i, a) ∷ m) =
    record {
      account_id = a.account_id;
      email = a.email;
      authenticated_at = a.authenticated_at;
      state = a.state;
      is_default = is_default_of default_id a.account_id;
    }
    ∷ project_accounts default_id m

unfoldable pub project_catalog :
    Catalog → SubscriptionAccountDocument → SubscriptionAccountCatalogView
unfolding project_accounts project_bindings
project_catalog c document = record {
  revision = c.revision;
  view_sequence = c.view_sequence;
  default_account_id = document.default_account_id;
  accounts = project_accounts document.default_account_id document.accounts;
  bindings = project_bindings c.providers c.bindings document;
  recovery = c.recovery;
}
