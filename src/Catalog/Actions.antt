-- ===== src/Catalog/Actions.antt =====
-- The receipts of the account actions and the transaction that commits one,
-- crates/routing-service/src/state/subscription_accounts.rs. An action's JSON text, which a receipt
-- keeps, is the action.
use native.Mathlib.Decide.{ℕ_discrete}
use muxvia.Prelude.{
  ℕ, suc, Bool, true, false, not, ◌&&◌, ◌||◌, Option, none, some, List, [], ◌∷◌, bytes_eq, ◌==◌,
  if◌then◌else◌, same, contains_key,
}
use muxvia.Text.{Text}
use muxvia.Domain.{Target, target_eq}
use muxvia.Effects.{Result, ok, err}
use muxvia.Accounts.{SubscriptionAccountDocument}
use muxvia.RoutePlan.{SubscriptionProviderBinding, fixed, follow_default}
use muxvia.Catalog.{
  committed, Intent, BindingRow, ProviderRow, applied, replayed, SubscriptionAccountOutcome,
  SubscriptionAccountAction, set_default_account, bind_provider_fixed, bind_provider_follow_default,
  delete_account, Receipt, Catalog, StateError, invalid_recovery_state, Code,
  SubscriptionAccountActionFailure, subscription_account_not_found, invalid_subscription_binding,
  invalid_action_replay, subscription_account_recovery_required,
  stale_subscription_catalog_revision,
}
use muxvia.Catalog.Projection.{project_catalog}
use muxvia.Catalog.Intents.{is_pending, is_clean}

pub SubscriptionAccountAction-discrete : Discrete SubscriptionAccountAction
SubscriptionAccountAction-discrete = hlevel (ℕ_discrete)

abbrev pub action_eq : SubscriptionAccountAction → SubscriptionAccountAction → Bool
action_eq x y = same SubscriptionAccountAction-discrete x y

unfoldable pub find_receipt : ℕ → List Receipt → Option Receipt
find_receipt a [] = none
find_receipt a (r ∷ rs) = if r.action_id == a then some r else find_receipt a rs

abbrev pub as_replayed : SubscriptionAccountOutcome → SubscriptionAccountOutcome
as_replayed o = record o { status = replayed }

unfoldable pub subscription_account_receipt :
    ℕ
    → SubscriptionAccountAction
    → Catalog
    → Result StateError (Option SubscriptionAccountOutcome) × Catalog
unfolding find_receipt
subscription_account_receipt a action c = (replay (find_receipt a c.receipts), c)
  where
    replay : Option Receipt → Result StateError (Option SubscriptionAccountOutcome)
    replay none = ok none
    replay (some r) =
        if action_eq r.action action
        then ok (some (as_replayed r.outcome))
        else err invalid_recovery_state

unfoldable pub subscription_account_receipt_by_id :
    ℕ → Catalog → Result StateError (Option SubscriptionAccountOutcome) × Catalog
unfolding find_receipt
subscription_account_receipt_by_id a c = (replay (find_receipt a c.receipts), c)
  where
    replay : Option Receipt → Result StateError (Option SubscriptionAccountOutcome)
    replay none = ok none
    replay (some r) = ok (some (as_replayed r.outcome))

unfoldable pub provider_revision_matches : Target → ℕ → ℕ → List ProviderRow → Bool
provider_revision_matches t i r [] = false
provider_revision_matches t i r (p ∷ ps) =
    (target_eq p.target t && (p.id == i) && (p.provider_revision == r))
    || provider_revision_matches t i r ps

-- `INSERT … ON CONFLICT(target, provider_id) DO UPDATE`
unfoldable pub bind_provider :
    Target → ℕ → SubscriptionProviderBinding → List BindingRow → List BindingRow
bind_provider t i b [] = record { target = t; provider_id = i; binding = b } ∷ []
bind_provider t i b (r ∷ rs) =
    if target_eq r.target t && (r.provider_id == i)
    then record r { binding = b } ∷ rs
    else r ∷ bind_provider t i b rs

is_default : Text → Option Text → Bool
is_default i none = false
is_default i (some j) = bytes_eq j i

abbrev checked : Bool → Code → Catalog → Result Code Catalog
checked true code c = ok c
checked false code c = err code

-- The match on the action: its check, and the tables with its binding.
unfoldable pub act :
    SubscriptionAccountAction → SubscriptionAccountDocument → Catalog → Result Code Catalog
unfolding is_default provider_revision_matches bind_provider
act (set_default_account i token) document c =
    checked (is_default i document.default_account_id && contains_key i document.accounts)
      subscription_account_not_found c
act (delete_account i) document c =
    checked (not (contains_key i document.accounts)) subscription_account_not_found c
act (bind_provider_fixed t p r i) document c =
    checked (contains_key i document.accounts && provider_revision_matches t p r c.providers)
      invalid_subscription_binding (record c { bindings = bind_provider t p (fixed i) c.bindings })
act (bind_provider_follow_default t p r) document c =
    checked (provider_revision_matches t p r c.providers) invalid_subscription_binding
      (record c { bindings = bind_provider t p follow_default c.bindings })

-- `UPDATE … SET state = 'committed' WHERE id = ?1 AND action_id = ?2 AND state = 'pending'`
unfoldable pub matching_action : ℕ → ℕ → List Intent → ℕ
matching_action k a [] = 0
matching_action k a (i ∷ is) =
    let rest = matching_action k a is in
    if (i.id == k) && (i.action_id == a) && is_pending i.state then suc rest else rest

unfoldable pub settle_action : ℕ → ℕ → List Intent → List Intent
settle_action k a [] = []
settle_action k a (i ∷ is) =
    (if (i.id == k) && (i.action_id == a) && is_pending i.state
      then record i { state = committed }
      else i)
    ∷ settle_action k a is

unfoldable pub commit_intent : Option ℕ → ℕ → Catalog → Result StateError Catalog
unfolding matching_action settle_action
commit_intent none a c = ok c
commit_intent (some k) a c =
    if matching_action k a c.intents == 1
    then ok (record c { intents = settle_action k a c.intents })
    else err invalid_recovery_state

unfoldable pub subscription_failure :
    Catalog → SubscriptionAccountDocument → Code → SubscriptionAccountActionFailure
unfolding project_catalog
subscription_failure c document code = record {
  code = code;
  authoritative_view = project_catalog c document;
}

-- An answer of the transaction: an outcome or a refusal, each with the tables after it.
abbrev pub Answer : Type 0
Answer =
    Result StateError (Result SubscriptionAccountActionFailure SubscriptionAccountOutcome) × Catalog

module _ (a r : ℕ) (action : SubscriptionAccountAction)
    (document : SubscriptionAccountDocument) where
  abbrev pub moved : Catalog → Catalog
  moved c = record c { revision = suc c.revision; view_sequence = suc c.view_sequence }

  abbrev pub receipt_of : Catalog → Receipt
  receipt_of c = record {
    action_id = a;
    action = action;
    committed_revision = suc c.revision;
    outcome = record { status = applied; view = project_catalog (moved c) document };
  }

  -- The last statements: both counters move, and the receipt keeps the outcome.
  unfoldable pub complete_action : Catalog → Answer
  complete_action c =
      let row = receipt_of c in
      (ok (ok row.outcome), record (moved c) { receipts = row ∷ c.receipts })

  unfoldable pub commit_settled : Catalog → Result StateError Catalog → Answer
  unfolding complete_action
  commit_settled c (ok c') = complete_action c'
  commit_settled c (err e) = (err e, c)

  unfoldable pub commit_acted : Option ℕ → Catalog → Result Code Catalog → Answer
  unfolding commit_settled commit_intent subscription_failure
  commit_acted k c (err code) = (ok (err (subscription_failure c document code)), c)
  commit_acted k c (ok acted) = commit_settled c (commit_intent k a acted)

  unfoldable pub commit_new : Option ℕ → Catalog → Answer
  unfolding commit_acted act subscription_failure
  commit_new k c =
      if is_clean c.recovery
      then (if c.revision == r
          then commit_acted k c (act action document c)
          else (ok (err (subscription_failure c document stale_subscription_catalog_revision)), c))
      else (ok (err (subscription_failure c document subscription_account_recovery_required)), c)

  unfoldable pub commit_subscription_account_action : Option ℕ → Catalog → Answer
  unfolding commit_new find_receipt subscription_failure
  commit_subscription_account_action k c = answered (find_receipt a c.receipts)
    where
      answered : Option Receipt → Answer
      answered none = commit_new k c
      answered (some x) =
          if action_eq x.action action
          then (ok (ok (as_replayed x.outcome)), c)
          else (ok (err (subscription_failure c document invalid_action_replay)), c)
