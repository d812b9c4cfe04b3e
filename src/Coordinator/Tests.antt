-- ===== src/Coordinator/Tests.antt =====
-- Two accounts and a catalog that knows nothing of them, with runs of the methods of
-- crates/routing-service/src/subscription/coordinator.rs on them.
mod Restarts
use muxvia.Prelude.{
  ℕ, ◌≡◌, refl, ◌⊎◌, inl, inr, Bool, true, false, not, Option, none, some, List, [], ◌∷◌, every,
  remove,
}
use mathlib.Core.List.{Memᴰ}
use muxvia.Text.{Text, codes}
use muxvia.Effects.{ok, err, returned, Fault, works, fails, late, crash}
use muxvia.Effects.Ends.{Ends}
use muxvia.Accounts.{
  pos, negsuc, authorized, SubscriptionAccountRecord, SubscriptionAccountDocument, default_document,
  validate_document, sound_account, default_is_member,
}
use muxvia.Catalog.{
  clean, Catalog, SubscriptionAccountCatalogView, SubscriptionAccountAction, set_default_account,
  delete_account, stale_subscription_catalog_revision,
}
use muxvia.Catalog.Actions.{
  find_receipt, receipt_of, act, complete_action, commit_intent, commit_settled, commit_acted,
  commit_new, as_replayed, commit_subscription_account_action,
}
use muxvia.Catalog.Replay.{commit-replayed}
use muxvia.Catalog.Intents.{pending_rows, is_taken}
use muxvia.AccountStore.{absent, holds, ManagedFile, StagedMutation, read_document}
use muxvia.AccountStore.Calls.{snapshot_of}
use muxvia.Coordinator.Commit.{commit_private_mutation}
use muxvia.Coordinator.Changes.{
  authorize_account, delete_account_from, elect, elect_from, comes_before, is_default,
}
use muxvia.Coordinator.Previews.{plan_action, subscription_action_operation}
use muxvia.Coordinator.Publish.{publish_all, IsNewer, IsCurrent, Covered, publish_all-IsNewer}
use muxvia.Coordinator.Apply.{apply}
use muxvia.Coordinator.Phases.{at_rest, changed_catalog, Sound}
use muxvia.Coordinator.Answers.{applied_catalog}
use muxvia.Coordinator.Committing
use muxvia.Coordinator.Concluding
use muxvia.Coordinator.Recovering.{Recovers}
use muxvia.Coordinator.CrashSafe.{commit_private_mutation-Recovers}
use muxvia.Coordinator.ApplySafe.{apply-Recovers}
use muxvia.Coordinator.Refusals.{Same, Unchanged, refusal, refused_with, apply-Unchanged}
use muxvia.Coordinator.Documents.{plan_action-valid}
use muxvia.Coordinator.Elected.{IsPreferred, delete_account_from-Elects}

abbrev sha : SubscriptionAccountDocument → Text
sha d = d.version ∷ []

abbrev alice : SubscriptionAccountRecord
alice = record {
  account_id = codes "alice";
  email = none;
  refresh_token = codes "secret";
  authenticated_at = pos 7;
  state = authorized;
}

abbrev bob : SubscriptionAccountRecord
bob = record {
  account_id = codes "bob";
  email = none;
  refresh_token = codes "other";
  authenticated_at = negsuc 2;
  state = authorized;
}

abbrev empty_catalog : Catalog
empty_catalog = record {
  revision = 4;
  view_sequence = 9;
  recovery = clean;
  intents = [];
  bindings = [];
  providers = [];
  receipts = [];
}

abbrev no_file : ManagedFile SubscriptionAccountDocument
no_file = record { contents = absent; identity = 0 }

abbrev none_staged : ManagedFile StagedMutation
none_staged = record { contents = absent; identity = 0 }

abbrev authorization : Text
authorization = codes "authorize-account"

abbrev with_alice : SubscriptionAccountDocument
with_alice = record {
  version = 1;
  accounts = (codes "alice", alice) ∷ [];
  default_account_id = some (codes "alice");
}

alice_authorized : authorize_account default_document alice ≡ with_alice
unfolding authorize_account default_document muxvia.Prelude.insert
alice_authorized = refl

sound_authorization : Sound sha 1 2 authorization default_document with_alice empty_catalog
unfolding validate_document default_document sound_account default_is_member muxvia.Prelude.every
    muxvia.Prelude.contains_key muxvia.Prelude.bytes_eq pending_rows is_taken
sound_authorization = record {
  before_valid = refl;
  desired_valid = refl;
  named = refl;
  clean_catalog = refl;
  quiet = refl;
  fresh = refl;
}

-- The process stops between the replacement of the file and the commit of the catalog.
abbrev stopped_late : List Fault
stopped_late = works ∷ works ∷ works ∷ works ∷ works ∷ works ∷ works ∷ works ∷ crash ∷ []

commit_private_mutation-Recovers_example :
    Ends
      (λ r d.
        Recovers sha 1 2 authorization default_document with_alice empty_catalog
          (changed_catalog sha 1 2 authorization default_document with_alice empty_catalog)
          d
        × muxvia.Coordinator.Committing.Outcome sha 1 2 authorization default_document with_alice
            empty_catalog r d)
      (Recovers sha 1 2 authorization default_document with_alice empty_catalog
        (changed_catalog sha 1 2 authorization default_document with_alice empty_catalog))
      (commit_private_mutation sha 1 2 authorization
        (snapshot_of default_document (at_rest empty_catalog no_file none_staged))
        with_alice
        stopped_late
        (at_rest empty_catalog no_file none_staged))
unfolding read_document muxvia.Prelude.every
commit_private_mutation-Recovers_example =
    commit_private_mutation-Recovers sha 1 2 authorization default_document with_alice empty_catalog
      no_file none_staged stopped_late sound_authorization refl refl

-- The deletion of the default account of a file with two.
abbrev both_accounts : SubscriptionAccountDocument
both_accounts = record {
  version = 1;
  accounts = (codes "alice", alice) ∷ (codes "bob", bob) ∷ [];
  default_account_id = some (codes "alice");
}

abbrev with_bob : SubscriptionAccountDocument
with_bob = record {
  version = 1;
  accounts = (codes "bob", bob) ∷ [];
  default_account_id = some (codes "bob");
}

abbrev deletion : SubscriptionAccountAction
deletion = delete_account (codes "alice")

abbrev both_file : ManagedFile SubscriptionAccountDocument
both_file = record { contents = holds both_accounts; identity = 3 }

deletion_planned : plan_action deletion 4 [] both_accounts ≡ ok (with_bob, true)
unfolding plan_action delete_account_from elect elect_from is_default muxvia.Prelude.contains_key
    muxvia.Prelude.remove muxvia.Prelude.bytes_eq
deletion_planned = refl

sound_deletion :
    Sound sha 5 6 (subscription_action_operation deletion) both_accounts with_bob empty_catalog
unfolding validate_document sound_account default_is_member subscription_action_operation
    muxvia.Prelude.every muxvia.Prelude.contains_key muxvia.Prelude.bytes_eq pending_rows is_taken
sound_deletion = record {
  before_valid = refl;
  desired_valid = refl;
  named = refl;
  clean_catalog = refl;
  quiet = refl;
  fresh = refl;
}

reads_both :
    read_document both_file
    ≡ ok (snapshot_of both_accounts (at_rest empty_catalog both_file none_staged))
unfolding read_document validate_document sound_account default_is_member muxvia.Prelude.every
    muxvia.Prelude.contains_key muxvia.Prelude.bytes_eq
reads_both = refl

apply-Recovers_example :
    Ends
      (λ r d.
        Recovers sha 5 6
          (subscription_action_operation deletion)
          both_accounts
          with_bob
          empty_catalog
          (applied_catalog sha 5 6 deletion [] both_accounts with_bob empty_catalog)
          d
        × muxvia.Coordinator.Concluding.Outcome sha 5 6 deletion [] both_accounts with_bob
            empty_catalog r d)
      (Recovers sha 5 6
        (subscription_action_operation deletion)
        both_accounts
        with_bob
        empty_catalog
        (applied_catalog sha 5 6 deletion [] both_accounts with_bob empty_catalog))
      (apply sha 5 6 4 deletion []
        (works ∷ works ∷ fails ∷ late ∷ [])
        (at_rest empty_catalog both_file none_staged))
unfolding find_receipt
apply-Recovers_example =
    apply-Recovers sha 5 6 deletion [] both_accounts with_bob empty_catalog both_file none_staged
      (works ∷ works ∷ fails ∷ late ∷ []) sound_deletion refl deletion_planned reads_both refl

apply-Unchanged_example :
    (apply sha 5 6 3 deletion [] [] (at_rest empty_catalog both_file none_staged)
      ≡ returned
          (err (
            refused_with
              (at_rest empty_catalog both_file none_staged)
              stale_subscription_catalog_revision
              both_accounts))
          []
          (at_rest empty_catalog both_file none_staged))
    × Ends
        (Unchanged stale_subscription_catalog_revision
          (at_rest empty_catalog both_file none_staged))
        (Same (at_rest empty_catalog both_file none_staged))
        (apply sha 5 6 3 deletion []
          (works ∷ fails ∷ [])
          (at_rest empty_catalog both_file none_staged))
unfolding find_receipt refusal
apply-Unchanged_example =
    apply-Unchanged sha 5 6 3 deletion []
      (snapshot_of both_accounts (at_rest empty_catalog both_file none_staged))
      stale_subscription_catalog_revision (at_rest empty_catalog both_file none_staged)
      (works ∷ fails ∷ []) refl reads_both refl

plan_action-valid_example : validate_document with_bob ≡ true
plan_action-valid_example =
    plan_action-valid deletion 4 [] both_accounts with_bob true sound_deletion.before_valid
      deletion_planned

delete_account_from-Elects_example :
    let rest = remove (codes "alice") both_accounts.accounts in
    let after = (delete_account_from both_accounts (codes "alice")).default_account_id in
    ((rest ≡ []) × (after ≡ none))
    ⊎ ((x : Text × SubscriptionAccountRecord) × (after ≡ some x.0)
        × Memᴰ x rest
        × ((y : Text × SubscriptionAccountRecord) → Memᴰ y rest → IsPreferred x y))
delete_account_from-Elects_example = delete_account_from-Elects both_accounts (codes "alice") refl

-- An action of a client, committed and sent again.
abbrev choice : SubscriptionAccountAction
choice = set_default_account (codes "bob") 8

abbrev bob_chosen : SubscriptionAccountDocument
bob_chosen = record both_accounts { default_account_id = some (codes "bob") }

abbrev chosen_catalog : Catalog
chosen_catalog = record empty_catalog {
  revision = 5;
  view_sequence = 10;
  receipts = receipt_of 6 4 choice bob_chosen empty_catalog ∷ [];
}

choice_committed :
    commit_subscription_account_action 6 4 choice bob_chosen none empty_catalog
    ≡ (ok (ok (receipt_of 6 4 choice bob_chosen empty_catalog).outcome), chosen_catalog)
unfolding commit_subscription_account_action find_receipt act complete_action commit_intent
    commit_settled commit_acted commit_new muxvia.Prelude.contains_key muxvia.Prelude.bytes_eq
choice_committed = refl

commit-replayed_example :
    commit_subscription_account_action 6 0 choice default_document (some 3) chosen_catalog ≡ (
      ok (ok (as_replayed (receipt_of 6 4 choice bob_chosen empty_catalog).outcome)),
      chosen_catalog,
    )
commit-replayed_example =
    commit-replayed 6 4 0 choice bob_chosen default_document none (some 3) empty_catalog
      chosen_catalog (receipt_of 6 4 choice bob_chosen empty_catalog).outcome choice_committed

abbrev view_4 : SubscriptionAccountCatalogView
view_4 = (receipt_of 6 4 choice bob_chosen empty_catalog).outcome.view

abbrev published_calls :
    List (Option SubscriptionAccountCatalogView × SubscriptionAccountCatalogView)
published_calls = (some view_4, view_4) ∷ (some view_4, view_4) ∷ (none, view_4) ∷ []

publish_all-IsNewer_example :
    IsNewer none (publish_all published_calls none)
    × ((call : Option SubscriptionAccountCatalogView × SubscriptionAccountCatalogView)
        → Memᴰ call published_calls
        → IsCurrent call
        → Covered none (publish_all published_calls none) call.1.view_sequence)
publish_all-IsNewer_example = publish_all-IsNewer published_calls none
