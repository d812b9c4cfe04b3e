-- ===== src/Coordinator/Concluding.antt =====
-- The transaction of `apply` for an action that changes the file of the accounts, and its undoing,
-- crates/routing-service/src/subscription/coordinator.rs.
use muxvia.Prelude.{ℕ, ◌≡◌, refl, ap, inl, inr, true, Option, none, some, List}
use muxvia.Text.{Text}
use muxvia.Effects.{Result, ok, err, Fault, Action, ◌>>◌, pure, raise, attempt}
use muxvia.Effects.Ends.{Ends, ends, Then, bind-Ends, seq-Ends, Attempted, attempt-Ends, Failing}
use muxvia.Accounts.{SubscriptionAccountDocument}
use muxvia.Catalog.{
  Catalog, SubscriptionAccountActionFailure, SubscriptionAccountAction, SubscriptionAccountOutcome,
}
use muxvia.Catalog.Actions.{find_receipt, commit_subscription_account_action, Answer}
use muxvia.AccountStore.{holds, SubscriptionAccountFileSnapshot, StagedMutation, Disk}
use muxvia.Coordinator.{store}
use muxvia.Coordinator.Commit.{rollback_intent}
use muxvia.Coordinator.Previews.{Previews, plan_action}
use muxvia.Coordinator.Apply.{Applied, conclude_action, commit_action}
use muxvia.Coordinator.Answers.{
  operation, applied_catalog, table, Answers, accepts, refuses, commit-Answers,
}
use muxvia.Coordinator.Phases.{
  mutation, Reads, Leftover, Phase, torn, now_new, begun_after, done, Sound, store-Ends, clear-Ends,
  rollback_intent-Ends, fail_with-Ends,
}

module _ (document_sha256 : SubscriptionAccountDocument → Text) (k a : ℕ)
    (action : SubscriptionAccountAction) (previews : Previews) (b y : SubscriptionAccountDocument)
    (c : Catalog) where
  abbrev pub Held : Disk → Type 0
  Held =
      Phase document_sha256 k a (operation document_sha256 k a action previews b y c) b y c
        (applied_catalog document_sha256 k a action previews b y c)

  abbrev pub Answered : Type 0
  Answered = Result SubscriptionAccountActionFailure (SubscriptionAccountOutcome × Previews)

  -- A success has installed the desired document under the next revision.
  unfoldable pub Outcome : Answered → Disk → Type 0
  Outcome (ok x) d =
      (Reads y d)
      × Leftover document_sha256 k a (operation document_sha256 k a action previews b y c) b y c d
      × (d.catalog ≡ (applied_catalog document_sha256 k a action previews b y c))
  Outcome (err e) d = Held d

  abbrev pub M : StagedMutation
  M = mutation document_sha256 k a (operation document_sha256 k a action previews b y c) b y c

  undone-Then :
      (rest : Action Disk SubscriptionAccountActionFailure (SubscriptionAccountOutcome × Previews))
      (all : (fs : List Fault) (d : Disk) → Held d → Ends Outcome Held (rest fs d))
      (r : Result SubscriptionAccountActionFailure SubscriptionAccountActionFailure) (d : Disk)
      → Held d
      → Then Held (λ _. pure tt) (Then Held (λ _. rest) Outcome) r d
  unfolding Then Outcome
  undone-Then rest all (ok e) d p = λ fs. ends (λ fs. all fs d p)
  undone-Then rest all (err e) d p = p

  pub undone-Failing :
      (rest : Action Disk SubscriptionAccountActionFailure (SubscriptionAccountOutcome × Previews))
      (r : Result SubscriptionAccountActionFailure SubscriptionAccountActionFailure) (d : Disk)
      → Held d
      → Failing Held {A = Unit {0}} (Then Held (λ _. rest) Outcome) r d
  unfolding Then Outcome Failing
  undone-Failing rest (ok e) d p = p
  undone-Failing rest (err e) d p = p

  -- The file is put back, and what follows fails.
  undo-Ends :
      (rest : Action Disk SubscriptionAccountActionFailure (SubscriptionAccountOutcome × Previews))
      (all : (fs : List Fault) (d : Disk) → Held d → Ends Outcome Held (rest fs d))
      (before : SubscriptionAccountFileSnapshot) (faults : List Fault) (d : Disk)
      → Sound document_sha256 k a (operation document_sha256 k a action previews b y c) b y c
      → before.document ≡ b
      → Reads y d
      → d.staged.contents ≡ holds M
      → d.catalog ≡ (table document_sha256 k a action previews b y c)
      → Ends Outcome Held
          (((rollback_intent document_sha256 k before y >> pure tt) >> rest) faults d)
  undo-Ends rest all before faults d sound eb reads staged ec =
      seq-Ends Held _ rest Outcome faults d (
        seq-Ends Held (rollback_intent document_sha256 k before y) (pure tt) _ faults d (
          rollback_intent-Ends document_sha256 k a
            (operation document_sha256 k a action previews b y c) b y c
            (applied_catalog document_sha256 k a action previews b y c) sound before faults d eb
            (inr reads) staged ec (undone-Then rest all)))

  module _ (before : SubscriptionAccountFileSnapshot)
      (sound : Sound document_sha256 k a
        (operation document_sha256 k a action previews b y c)
        b
        y
        c)
      (eb : before.document ≡ b) where
    abbrev conclusion :
        Option (Result SubscriptionAccountActionFailure SubscriptionAccountOutcome) → Applied
    conclusion = conclude_action document_sha256 k a c.revision action previews true before y

    concluded :
        (x : Answer)
        → Answers document_sha256 k a action previews b y c x
        → (d : Disk) → Reads y d
        → d.staged.contents ≡ holds M
        → Attempted Held (Then Held conclusion Outcome) x.0 (record d { catalog = x.1 })
    unfolding Attempted Then conclude_action Outcome
    concluded _ (accepts o) d reads staged =
        let d' : Disk = record d {
          catalog = (applied_catalog document_sha256 k a action previews b y c);
        } in
        let p' : Held d' = done reads (inr staged) refl in
        λ fs. seq-Ends Held _ _ Outcome fs d' (
          seq-Ends Held _ _ _ fs d' (
            attempt-Ends Held _ _ fs d' (
              clear-Ends document_sha256 k a (operation document_sha256 k a action previews b y c) b
                y c (applied_catalog document_sha256 k a action previews b y c) sound fs d'
                (inr staged) p' (λ fs. ends (λ fs. ends (reads, inl (inr staged), refl)))
                (λ e fs. ends (λ fs. ends (reads, inl (inr staged), refl)))
                (λ fs. ends (λ fs. ends (reads, inl (inl refl), refl)))
                (λ fs. ends (λ fs. ends (reads, inl (inl refl), refl)))
                (λ fs. ends (λ fs. ends (reads, inr refl, refl)))
                (torn refl (now_new reads refl)))))
    concluded _ (refuses e) d reads staged = λ fs.
        undo-Ends (raise e) (λ fs d p. ends p) before fs
          (record d { catalog = (table document_sha256 k a action previews b y c) }) sound eb reads
          staged refl

    pub commit_action-Ends :
        (faults : List Fault) (d : Disk)
        → find_receipt a c.receipts ≡ none
        → plan_action action c.revision previews b ≡ ok (y, true)
        → Reads y d
        → d.staged.contents ≡ holds M
        → d.catalog ≡ (table document_sha256 k a action previews b y c)
        → Ends Outcome Held
            (commit_action document_sha256 k a c.revision action previews true before y faults d)
    unfolding commit_action Attempted Then conclude_action Outcome
    commit_action-Ends faults d new plan reads staged ec =
        let p : Held d = begun_after reads staged ec in
        let op = commit_subscription_account_action a c.revision action y (some k) in
        bind-Ends Held (attempt (store op)) _ Outcome faults d (
          attempt-Ends Held (store op) _ faults d (
            store-Ends document_sha256 k a (operation document_sha256 k a action previews b y c) b y
              c (applied_catalog document_sha256 k a action previews b y c) op _ faults d _ _
              (ap op ec)
              (concluded (op (table document_sha256 k a action previews b y c))
                (commit-Answers document_sha256 k a action previews b y c sound.clean_catalog
                  sound.quiet new plan)
                d reads staged)
              (λ fs.
                undo-Ends _
                  (λ fs d p.
                    fail_with-Ends document_sha256 k a
                      (operation document_sha256 k a action previews b y c) b y c
                      (applied_catalog document_sha256 k a action previews b y c) Outcome _ _ fs d p
                      (λ e. p))
                  before fs d sound eb reads staged ec)
              p))
