-- ===== src/Coordinator/Restarts.antt =====
-- `commit_private_mutation` and the recoveries of the processes after it, which may stop in their
-- turn: crates/routing-service/src/subscription/coordinator.rs.
use muxvia.Prelude.{ℕ, ◌≡◌, List}
use muxvia.Text.{Text}
use muxvia.Effects.{Result, err, Fault, Run, returned, stopped}
use muxvia.Effects.Ends.{Ends, ends, stops}
use muxvia.Accounts.{SubscriptionAccountDocument}
use muxvia.Catalog.{Catalog, SubscriptionAccountActionFailure}
use muxvia.AccountStore.{ManagedFile, StagedMutation, absent, Disk}
use muxvia.AccountStore.Calls.{snapshot_of}
use muxvia.Coordinator.Commit.{commit_private_mutation}
use muxvia.Coordinator.Recover.{recover_pending_intents}
use muxvia.Coordinator.Phases.{at_rest, changed_catalog, Reads, Phase, Sound}
use muxvia.Coordinator.Committing.{Outcome, commit_private_mutation-Ends}
use muxvia.Coordinator.Recovering.{Recovers, Phase-Recovers}
use muxvia.Coordinator.Restarting.{Tended, recover-Ends}
use muxvia.Coordinator.CrashSafe.{changed-Final}

-- A run that stops or returns an error leaves this behind.
pub data Breaks {D E A : Type 0} : Run D E A → D → Type 0 where
  failed : {e : E} {faults : List Fault} {d : D} → Breaks (returned (err e) faults d) d
  cut : {d : D} → Breaks (stopped d) d

pub broken :
    {D E A : Type 0} {Q : Result E A → D → Type 0} {S : D → Type 0} {run : Run D E A} {d : D}
    → ((e : E) (d : D) → Q (err e) d → S d)
    → Ends Q S run
    → Breaks run d
    → S d
broken all (ends q) failed = all _ _ q
broken all (stops s) cut = s

-- Recoveries one after another, each of which stops or returns an error.
pub data Restarts (document_sha256 : SubscriptionAccountDocument → Text) (d : Disk)
    : Disk → Type 0 where
  at_once : Restarts document_sha256 d d
  again :
      {d' d'' : Disk} (faults : List Fault)
      → Restarts document_sha256 d d'
      → Breaks (recover_pending_intents document_sha256 faults d') d''
      → Restarts document_sha256 d d''

module _ (document_sha256 : SubscriptionAccountDocument → Text) (k a : ℕ) (operation : Text)
    (b y : SubscriptionAccountDocument) (c : Catalog) where
  abbrev Z : Catalog
  Z = changed_catalog document_sha256 k a operation b y c

  abbrev pub Held : Disk → Type 0
  Held = Phase document_sha256 k a operation b y c Z

  outcome_held :
      (e : SubscriptionAccountActionFailure) (d : Disk)
      → Outcome document_sha256 k a operation b y c (err e) d
      → Held d
  unfolding Outcome
  outcome_held e d p = p

  tended_held :
      (e : SubscriptionAccountActionFailure) (d : Disk)
      → Tended document_sha256 k a operation b y c Z (err e) d
      → Held d
  unfolding Tended
  tended_held e d p = p

  Restarts-Held :
      {d d' : Disk}
      → Sound document_sha256 k a operation b y c
      → Held d
      → Restarts document_sha256 d d'
      → Held d'
  Restarts-Held sound p at_once = p
  Restarts-Held sound p (again faults rs broke) =
      broken tended_held
        (recover-Ends document_sha256 k a operation b y c Z faults _ sound
          (changed-Final document_sha256 k a operation b y c sound) (Restarts-Held sound p rs))
        broke

-- A `commit_private_mutation` that stopped or failed, and any number of recoveries after it that
-- each stopped or failed, leave a disk that a recovery whose calls work settles: the old document
-- under the old revision, or the desired one under the next, and nothing staged, or, if a removal of
-- the staged file came to half, the same but for its empty file and the mark that the catalog
-- requires a recovery. Whatever calls of the next recovery
-- fail, it returns an error and leaves such a disk again, stops with the same effect, or returns
-- with such a disk or with the catalog marked as requiring a recovery and the old or the desired
-- document in the file. The mutation has valid documents and an operation, and its catalog is
-- clean, has nothing pending and knows neither of its identifiers.
pub commit_private_mutation-Restarts :
    (document_sha256 : SubscriptionAccountDocument → Text) (k a : ℕ) (operation : Text)
    (b y : SubscriptionAccountDocument) (c : Catalog) (f : ManagedFile SubscriptionAccountDocument)
    (st : ManagedFile StagedMutation) (faults next : List Fault) (d d' : Disk)
    → Sound document_sha256 k a operation b y c
    → Reads b (at_rest c f st)
    → st.contents ≡ absent
    → Breaks
        (commit_private_mutation document_sha256 k a operation
          (snapshot_of b (at_rest c f st))
          y
          faults
          (at_rest c f st))
        d
    → Restarts document_sha256 d d'
    → Recovers document_sha256 k a operation b y c
        (changed_catalog document_sha256 k a operation b y c)
        d'
      × Ends
          (Tended document_sha256 k a operation b y c
            (changed_catalog document_sha256 k a operation b y c))
          (Held document_sha256 k a operation b y c)
          (recover_pending_intents document_sha256 next d')
commit_private_mutation-Restarts document_sha256 k a operation b y c f st faults next d d' sound
      reads gone broke rs =
    let final = changed-Final document_sha256 k a operation b y c sound in
    let p : Held document_sha256 k a operation b y c d =
      broken (outcome_held document_sha256 k a operation b y c)
        (commit_private_mutation-Ends document_sha256 k a operation b y c f st faults sound reads
          gone)
        broke in
    let p' : Held document_sha256 k a operation b y c d' =
      Restarts-Held document_sha256 k a operation b y c sound p rs in
    (
      Phase-Recovers document_sha256 k a operation b y c _ d' sound final p',
      recover-Ends document_sha256 k a operation b y c _ next d' sound final p',
    )
