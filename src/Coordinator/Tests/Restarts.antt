-- ===== src/Coordinator/Tests/Restarts.antt =====
-- A commit that stops, and a recovery after it that stops too:
-- crates/routing-service/src/subscription/coordinator.rs.
use muxvia.Prelude.{◌≡◌, refl, List, [], ◌∷◌}
use muxvia.Effects.{Fault, works, fails, crash, ◌>>=◌, ◌>>◌, attempt, or_raise}
use muxvia.Effects.Ends.{Ends}
use muxvia.Accounts.{default_document}
use muxvia.Catalog.{pending}
use muxvia.AccountStore.{holds, Disk, read_document}
use muxvia.AccountStore.Calls.{snapshot_of}
use muxvia.Coordinator.Commit.{commit_private_mutation}
use muxvia.Coordinator.Recover.{recover_pending_intents}
use muxvia.Coordinator.Phases.{at_rest, mutation, intent_table, changed_catalog}
use muxvia.Coordinator.Recovering.{Recovers}
use muxvia.Coordinator.Restarting.{Tended}
use muxvia.Coordinator.Restarts.{
  Breaks, cut, at_once, again, Held, commit_private_mutation-Restarts,
}
use muxvia.Coordinator.Tests.{
  sha, empty_catalog, no_file, none_staged, authorization, with_alice, sound_authorization,
}

-- The process stops when the file has been written, and the next one before it reads it.
abbrev stopped_in_replace : List Fault
stopped_in_replace = works ∷ works ∷ works ∷ works ∷ works ∷ works ∷ works ∷ crash ∷ []

abbrev left_behind : Disk
left_behind = record {
  file = record { contents = holds with_alice; identity = 1 };
  staged = record {
    contents = holds (mutation sha 1 2 authorization default_document with_alice empty_catalog);
    identity = 1;
  };
  catalog = intent_table sha 1 2 authorization default_document with_alice empty_catalog pending;
}

stopped_commit :
    Breaks
      (commit_private_mutation sha 1 2 authorization
        (snapshot_of default_document (at_rest empty_catalog no_file none_staged))
        with_alice
        stopped_in_replace
        (at_rest empty_catalog no_file none_staged))
      left_behind
unfolding commit_private_mutation ◌>>=◌ or_raise muxvia.Coordinator.subscription_account_catalog
    ◌>>◌ muxvia.AccountStore.stage_mutation default_document muxvia.Prelude.every
    muxvia.Prelude.bytes_eq muxvia.Prelude.contains_key attempt
    muxvia.Catalog.Intents.begin_subscription_account_recovery
    muxvia.Coordinator.Commit.install_mutation muxvia.AccountStore.replace
stopped_commit = cut

stopped_recovery :
    Breaks (recover_pending_intents sha (works ∷ works ∷ crash ∷ []) left_behind) left_behind
unfolding recover_pending_intents ◌>>=◌ attempt muxvia.AccountStore.mutation_of
    muxvia.Prelude.bytes_eq default_document or_raise muxvia.Coordinator.Recover.is_same_intent
    muxvia.Coordinator.Recover.recover_interrupted muxvia.AccountStore.read muxvia.Prelude.every
    muxvia.Prelude.contains_key
stopped_recovery = cut

commit_private_mutation-Restarts_example :
    Recovers sha 1 2 authorization default_document with_alice empty_catalog
      (changed_catalog sha 1 2 authorization default_document with_alice empty_catalog)
      left_behind
    × Ends
        (Tended sha 1 2 authorization default_document with_alice empty_catalog
          (changed_catalog sha 1 2 authorization default_document with_alice empty_catalog))
        (Held sha 1 2 authorization default_document with_alice empty_catalog)
        (recover_pending_intents sha (works ∷ fails ∷ []) left_behind)
unfolding read_document muxvia.Prelude.every
commit_private_mutation-Restarts_example =
    commit_private_mutation-Restarts sha 1 2 authorization default_document with_alice empty_catalog
      no_file none_staged stopped_in_replace (works ∷ fails ∷ []) left_behind left_behind
      sound_authorization refl refl stopped_commit
      (again (works ∷ works ∷ crash ∷ []) at_once stopped_recovery)
