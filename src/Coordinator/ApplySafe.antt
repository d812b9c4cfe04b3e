-- ===== src/Coordinator/ApplySafe.antt =====
-- `apply` and the `recover_pending_intents` of the next process,
-- crates/routing-service/src/subscription/coordinator.rs.
use muxvia.Prelude.{ℕ, ◌≡◌, refl, inl, inr, ==_iff, true, none, List, []}
use muxvia.Text.{Text}
use muxvia.Effects.{ok, err, Fault}
use muxvia.Effects.Ends.{Ends}
use muxvia.Accounts.{SubscriptionAccountDocument}
use muxvia.Catalog.{Catalog, SubscriptionAccountAction}
use muxvia.Catalog.Intents.{pending_rows, state_of}
use muxvia.Catalog.Actions.{find_receipt}
use muxvia.AccountStore.{ManagedFile, StagedMutation, absent, Disk}
use muxvia.Coordinator.Previews.{Previews, plan_action, subscription_action_operation}
use muxvia.Coordinator.Apply.{apply}
use muxvia.Coordinator.Phases.{at_rest, Reads, Phase, Sound, done, torn, now_new}
use muxvia.Coordinator.Answers.{applied_catalog}
use muxvia.Coordinator.Applying.{apply-Ends}
use muxvia.Coordinator.Concluding.{Outcome}
use muxvia.Coordinator.Recovering.{Recovers, Final}
use muxvia.Coordinator.CrashSafe.{recovered}

module _ (document_sha256 : SubscriptionAccountDocument → Text) (k a : ℕ)
    (action : SubscriptionAccountAction) (previews : Previews) (b y : SubscriptionAccountDocument)
    (c : Catalog) where
  applied-Final :
      pending_rows c.intents ≡ []
      → Final k (applied_catalog document_sha256 k a action previews b y c)
  unfolding pending_rows state_of
  applied-Final quiet = record { still = quiet; concluded = rw ((==_iff k k).1 refl) refl }

  Outcome-Phase :
      (r : _) (d : Disk)
      → Outcome document_sha256 k a action previews b y c r d
      → Phase document_sha256 k a
          (subscription_action_operation action)
          b
          y
          c
          (applied_catalog document_sha256 k a action previews b y c)
          d
  unfolding Outcome
  Outcome-Phase (ok v) d (reads, inl left, e) = done reads left e
  Outcome-Phase (ok v) d (reads, inr empty, e) = torn empty (now_new reads e)
  Outcome-Phase (err e) d q = q

-- Whatever the environment decides about the calls of `apply` for an action that changes the file,
-- and wherever the process stops in it, a recovery in which every call works ends with the file and
-- the catalog in agreement and nothing staged: the old document under the old revision, or the
-- desired one under the next with the action's receipt. The one exception is a removal of the staged
-- file that failed or stopped between its two steps: then its empty file stays, the file and the
-- catalog agree already, and the recovery marks the catalog as requiring a recovery. If `apply`
-- returns an outcome, the desired document and that catalog are in place. The action is new, expects the catalog's revision and
-- plans the desired document; the documents are valid, and the catalog is clean and has nothing
-- pending.
pub apply-Recovers :
    (document_sha256 : SubscriptionAccountDocument → Text) (k a : ℕ)
    (action : SubscriptionAccountAction) (previews : Previews) (b y : SubscriptionAccountDocument)
    (c : Catalog) (f : ManagedFile SubscriptionAccountDocument) (st : ManagedFile StagedMutation)
    (faults : List Fault)
    → Sound document_sha256 k a (subscription_action_operation action) b y c
    → find_receipt a c.receipts ≡ none
    → plan_action action c.revision previews b ≡ ok (y, true)
    → Reads b (at_rest c f st)
    → st.contents ≡ absent
    → Ends
        (λ r d.
          Recovers document_sha256 k a
            (subscription_action_operation action)
            b
            y
            c
            (applied_catalog document_sha256 k a action previews b y c)
            d
          × Outcome document_sha256 k a action previews b y c r d)
        (Recovers document_sha256 k a
          (subscription_action_operation action)
          b
          y
          c
          (applied_catalog document_sha256 k a action previews b y c))
        (apply document_sha256 k a c.revision action previews faults (at_rest c f st))
apply-Recovers document_sha256 k a action previews b y c f st faults sound new plan reads gone =
    recovered document_sha256 k a (subscription_action_operation action) b y c
      (applied_catalog document_sha256 k a action previews b y c) _
      (Outcome-Phase document_sha256 k a action previews b y c) sound
      (applied-Final document_sha256 k a action previews b y c sound.quiet)
      (apply-Ends document_sha256 k a action previews b y c sound new plan f st faults reads gone)
