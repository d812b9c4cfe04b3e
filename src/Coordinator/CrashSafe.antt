-- ===== src/Coordinator/CrashSafe.antt =====
-- `commit_private_mutation` and the `recover_pending_intents` of the next process,
-- crates/routing-service/src/subscription/coordinator.rs.
use muxvia.Prelude.{ℕ, ◌≡◌, refl, inl, inr, ==_iff, List}
use muxvia.Text.{Text}
use muxvia.Effects.{Result, ok, err, Fault, Run, returned, stopped}
use muxvia.Effects.Ends.{Ends, ends, stops}
use muxvia.Accounts.{SubscriptionAccountDocument}
use muxvia.Catalog.{Catalog}
use muxvia.Catalog.Intents.{pending_rows, state_of}
use muxvia.AccountStore.{ManagedFile, StagedMutation, absent, Disk}
use muxvia.AccountStore.Calls.{snapshot_of}
use muxvia.Coordinator.Commit.{commit_private_mutation}
use muxvia.Coordinator.Phases.{
  at_rest, changed_catalog, Reads, Phase, Sound, done, torn, now_new, Leftover,
}
use muxvia.Coordinator.Committing.{Outcome, commit_private_mutation-Ends}
use muxvia.Coordinator.Recovering.{Recovers, Final, Phase-Recovers}

module _ (document_sha256 : SubscriptionAccountDocument → Text) (k a : ℕ) (operation : Text)
    (b y : SubscriptionAccountDocument) (c : Catalog) where
  pub changed-Final :
      Sound document_sha256 k a operation b y c
      → Final k (changed_catalog document_sha256 k a operation b y c)
  unfolding pending_rows state_of
  changed-Final sound = record { still = sound.quiet; concluded = rw ((==_iff k k).1 refl) refl }

  module _ (z : Catalog) where
    -- What every end of a run leaves can be recovered.
    pub recovered :
        {E A : Type 0} {Q : Result E A → Disk → Type 0} (run : Run Disk E A)
        → ((r : Result E A) (d : Disk) → Q r d → Phase document_sha256 k a operation b y c z d)
        → Sound document_sha256 k a operation b y c
        → Final k z
        → Ends Q (Phase document_sha256 k a operation b y c z) run
        → Ends
            (λ r d. Recovers document_sha256 k a operation b y c z d × Q r d)
            (Recovers document_sha256 k a operation b y c z)
            run
    recovered (returned r faults d) all sound final (ends q) =
        ends (Phase-Recovers document_sha256 k a operation b y c z d sound final (all r d q), q)
    recovered (stopped d) all sound final (stops p) =
        stops (Phase-Recovers document_sha256 k a operation b y c z d sound final p)

  Outcome-Phase :
      (r : _) (d : Disk)
      → Outcome document_sha256 k a operation b y c r d
      → Phase document_sha256 k a operation b y c
          (changed_catalog document_sha256 k a operation b y c)
          d
  unfolding Outcome
  Outcome-Phase (ok v) d q = finished q.left
    where
      finished :
          Leftover document_sha256 k a operation b y c d
          → Phase document_sha256 k a operation b y c
              (changed_catalog document_sha256 k a operation b y c)
              d
      finished (inl left) = done q.desired_file left q.next_revision
      finished (inr empty) = torn empty (now_new q.desired_file q.next_revision)
  Outcome-Phase (err e) d q = q

-- Whatever the environment decides about the calls of `commit_private_mutation`, and wherever the
-- process stops in it, a recovery in which every call works ends with the file and the catalog in
-- agreement and nothing staged: the old document under the old revision, or the desired one under
-- the next. The one exception is a removal of the staged file that failed or stopped between its two
-- steps: then its empty file stays, the file and the catalog agree already, and the recovery marks
-- the catalog as requiring a recovery. If `commit_private_mutation` returns a view, the desired
-- document is installed and the catalog of the view is in place; if it returns an error, the disk
-- is one of those between its calls. The mutation has valid documents and an operation, and its
-- catalog is clean, has nothing pending and knows neither of its identifiers.
pub commit_private_mutation-Recovers :
    (document_sha256 : SubscriptionAccountDocument → Text) (k a : ℕ) (operation : Text)
    (b y : SubscriptionAccountDocument) (c : Catalog) (f : ManagedFile SubscriptionAccountDocument)
    (st : ManagedFile StagedMutation) (faults : List Fault)
    → Sound document_sha256 k a operation b y c
    → Reads b (at_rest c f st)
    → st.contents ≡ absent
    → Ends
        (λ r d.
          Recovers document_sha256 k a operation b y c
            (changed_catalog document_sha256 k a operation b y c)
            d
          × Outcome document_sha256 k a operation b y c r d)
        (Recovers document_sha256 k a operation b y c
          (changed_catalog document_sha256 k a operation b y c))
        (commit_private_mutation document_sha256 k a operation
          (snapshot_of b (at_rest c f st))
          y
          faults
          (at_rest c f st))
commit_private_mutation-Recovers document_sha256 k a operation b y c f st faults sound reads gone =
    recovered document_sha256 k a operation b y c
      (changed_catalog document_sha256 k a operation b y c) _
      (Outcome-Phase document_sha256 k a operation b y c) sound
      (changed-Final document_sha256 k a operation b y c sound)
      (commit_private_mutation-Ends document_sha256 k a operation b y c f st faults sound reads
        gone)
