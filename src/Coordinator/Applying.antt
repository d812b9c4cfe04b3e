-- ===== src/Coordinator/Applying.antt =====
-- `apply` for an action that changes the file of the accounts,
-- crates/routing-service/src/subscription/coordinator.rs.
use muxvia.Prelude.{ℕ, ◌≡◌, refl, sym, ap, inl, inr, true, none, List, ==_iff}
use muxvia.Text.{Text}
use muxvia.Effects.{ok, Fault, attempt}
use muxvia.Effects.Ends.{
  Ends, ends, Then, bind-Ends, seq-Ends, Raising, or_raise-Ends, Attempted, attempt-Ends,
  failing-Ends,
}
use muxvia.Accounts.{SubscriptionAccountDocument}
use muxvia.Catalog.{Catalog, SubscriptionAccountAction, state_store_error, invalid_action_replay}
use muxvia.Catalog.Projection.{project_catalog}
use muxvia.Catalog.Intents.{is_clean, begin_subscription_account_recovery}
use muxvia.Catalog.Pending.{begin-table}
use muxvia.Catalog.Actions.{find_receipt, subscription_account_receipt}
use muxvia.AccountStore.{
  absent, invalid, holds, SubscriptionAccountFileSnapshot, StagedMutation, ManagedFile, Disk, read,
  mutation_of,
}
use muxvia.AccountStore.Calls.{
  snapshot_of, with_document, read_document-holds, with_staged, read-Ends, replace-Ends,
  stage_mutation-Ends,
}
use muxvia.Coordinator.{store, subscription_account_catalog, fail_with}
use muxvia.Coordinator.Previews.{Previews, plan_action}
use muxvia.Coordinator.Apply.{install_action, stage_action, carry_out, proceed, apply_new, apply}
use muxvia.Coordinator.Answers.{operation, applied_catalog, table}
use muxvia.Coordinator.Concluding
use muxvia.Coordinator.Concluding.{Answered, Outcome, undone-Failing, commit_action-Ends}
use muxvia.Coordinator.Phases.{
  at_rest, Reads, unbegun, torn, still_old, begun_before, begun_after, Sound, store-Ends,
  clear-Ends, rollback_intent-Ends, fail_with-Ends,
}

module _ (document_sha256 : SubscriptionAccountDocument → Text) (k a : ℕ)
    (action : SubscriptionAccountAction) (previews : Previews) (b y : SubscriptionAccountDocument)
    (c : Catalog) where
  abbrev Held : Disk → Type 0
  Held = muxvia.Coordinator.Concluding.Held document_sha256 k a action previews b y c

  abbrev Ended : Answered document_sha256 k a action previews b y c → Disk → Type 0
  Ended = Outcome document_sha256 k a action previews b y c

  abbrev M : StagedMutation
  M = muxvia.Coordinator.Concluding.M document_sha256 k a action previews b y c

  module _
      (sound : Sound document_sha256 k a
        (operation document_sha256 k a action previews b y c)
        b
        y
        c)
      (new : find_receipt a c.receipts ≡ none)
      (plan : plan_action action c.revision previews b ≡ ok (y, true)) where
    install_action-Ends :
        (before : SubscriptionAccountFileSnapshot) (faults : List Fault) (d : Disk)
        → before ≡ snapshot_of b d
        → Reads b d
        → d.staged.contents ≡ holds M
        → d.catalog ≡ (table document_sha256 k a action previews b y c)
        → Ends Ended Held
            (install_action document_sha256 k a c.revision action previews before y faults d)
    unfolding install_action Then Attempted Outcome
    install_action-Ends before faults d eb reads staged ec =
        let p : Held d = begun_before reads staged ec in
        let d' : Disk = with_document y d in
        let reads' = read_document-holds y _ sound.desired_valid in
        let p' : Held d' = begun_after reads' staged ec in
        let eb' : before.document ≡ b = ap (λ x. x.document) eb in
        bind-Ends Held _ _ Ended faults d (
          attempt-Ends Held _ _ faults d (
            replace-Ends Held before y _ faults d sound.desired_valid
              (ap (λ x. x.identity) (sym eb))
              (λ fs. seq-Ends Held _ _ Ended fs d' (
                ends (λ fs.
                  commit_action-Ends document_sha256 k a action previews b y c before sound eb' fs
                    d' new plan reads' staged ec)))
              (λ e fs. seq-Ends Held _ _ Ended fs d (
                failing-Ends Held _ _ fs d (
                  rollback_intent-Ends document_sha256 k a
                    (operation document_sha256 k a action previews b y c) b y c
                    (applied_catalog document_sha256 k a action previews b y c) sound before fs d
                    eb' (inl reads) staged ec
                    (undone-Failing document_sha256 k a action previews b y c _))))
              (λ e fs. seq-Ends Held _ _ Ended fs d' (
                failing-Ends Held _ _ fs d' (
                  rollback_intent-Ends document_sha256 k a
                    (operation document_sha256 k a action previews b y c) b y c
                    (applied_catalog document_sha256 k a action previews b y c) sound before fs d'
                    eb' (inr reads') staged ec
                    (undone-Failing document_sha256 k a action previews b y c _))))
              p p'))

    lost :
        (before : SubscriptionAccountFileSnapshot) (fs : List Fault) (d : Disk)
        → Held d
        → Ends
            (Then Held
              (λ x. install_action document_sha256 k a c.revision action previews before y)
              Ended)
            Held
            (fail_with {A = Unit {0}} b state_store_error fs d)
    unfolding Then Outcome
    lost before fs d p =
        fail_with-Ends document_sha256 k a (operation document_sha256 k a action previews b y c) b y
          c (applied_catalog document_sha256 k a action previews b y c) _ b state_store_error fs d p
          (λ e. p)

    stage_action-Ends :
        (f : ManagedFile SubscriptionAccountDocument) (st : ManagedFile StagedMutation)
        (faults : List Fault)
        → Reads b (at_rest c f st)
        → st.contents ≡ absent
        → Ends Ended Held (
            stage_action document_sha256 k a c.revision action previews
              (snapshot_of b (at_rest c f st))
              y
              faults
              (at_rest c f st))
    unfolding stage_action Then Raising Attempted Outcome mutation_of
    stage_action-Ends f st faults reads gone =
        let d : Disk = at_rest c f st in
        let d1 : Disk = with_staged document_sha256 (holds M) d in
        let d2 : Disk = record d1 { catalog = (table document_sha256 k a action previews b y c) } in
        let p0 : Held d = unbegun reads (inl gone) refl in
        let p1 : Held d1 = unbegun reads (inr refl) refl in
        let p2 : Held (with_staged document_sha256 absent d1) = unbegun reads (inl refl) refl in
        let p3 : Held (with_staged document_sha256 invalid d1) =
          torn refl (still_old reads (inl refl)) in
        bind-Ends Held _ _ Ended faults d (
          or_raise-Ends Held _ _ _ faults d (
            stage_mutation-Ends document_sha256 Held k a
              (operation document_sha256 k a action previews b y c) b y _ faults d
              sound.before_valid sound.desired_valid sound.named gone
              (λ fs. bind-Ends Held _ _ Ended fs d1 (
                attempt-Ends Held _ _ fs d1 (
                  store-Ends document_sha256 k a
                    (operation document_sha256 k a action previews b y c) b y c
                    (applied_catalog document_sha256 k a action previews b y c)
                    (begin_subscription_account_recovery k a
                      (operation document_sha256 k a action previews b y c) c.revision _ _)
                    _ fs d1 (ok tt) (table document_sha256 k a action previews b y c)
                    (begin-table k a (operation document_sha256 k a action previews b y c) _ _ c
                      sound.quiet sound.clean_catalog sound.fresh)
                    (λ fs. seq-Ends Held _ _ Ended fs d2 (
                      ends
                        (λ fs. install_action-Ends (snapshot_of b d) fs d2 refl reads refl refl)))
                    (λ fs. seq-Ends Held _ _ Ended fs d1 (
                      seq-Ends Held _ _ _ fs d1 (
                        attempt-Ends Held _ _ fs d1 (
                          clear-Ends document_sha256 k a
                            (operation document_sha256 k a action previews b y c) b y c
                            (applied_catalog document_sha256 k a action previews b y c) sound fs d1
                            (inr refl) p1 (λ fs. lost (snapshot_of b d) fs d1 p1)
                            (λ e fs. lost (snapshot_of b d) fs d1 p1)
                            (λ fs. lost (snapshot_of b d) fs _ p2)
                            (λ fs. lost (snapshot_of b d) fs _ p2)
                            (λ fs. lost (snapshot_of b d) fs _ p3) p3))))
                    p1)))
              p0 p1 p0 p1))

    -- The receipt is new, the catalog clean and its revision the expected one.
    pub apply_new-Ends :
        (f : ManagedFile SubscriptionAccountDocument) (st : ManagedFile StagedMutation)
        (faults : List Fault)
        → Reads b (at_rest c f st)
        → st.contents ≡ absent
        → Ends Ended Held
            (apply_new document_sha256 k a c.revision action previews faults (at_rest c f st))
    unfolding apply_new Then Raising Outcome subscription_account_catalog project_catalog proceed
        carry_out
    apply_new-Ends f st faults reads gone =
        let d : Disk = at_rest c f st in
        let p0 : Held d = unbegun reads (inl gone) refl in
        let is_so : is_clean c.recovery ≡ true = rw sound.clean_catalog refl in
        bind-Ends Held _ _ Ended faults d (
          or_raise-Ends Held _ _ _ faults d (
            read-Ends Held _ faults d
              (rw reads (λ fs. bind-Ends Held _ _ Ended fs d (
                or_raise-Ends Held _ _ _ fs d (
                  store-Ends document_sha256 k a
                    (operation document_sha256 k a action previews b y c) b y c
                    (applied_catalog document_sha256 k a action previews b y c) _ _ fs d _ c refl
                    (λ fs.
                      rw (is_so, (==_iff c.revision c.revision).1 refl, plan)
                        (stage_action-Ends f st fs reads gone))
                    p0 p0))))
              p0 p0))

    none_stored : subscription_account_receipt a action c ≡ (ok none, c)
    unfolding subscription_account_receipt
    none_stored = rw new refl

    pub apply-Ends :
        (f : ManagedFile SubscriptionAccountDocument) (st : ManagedFile StagedMutation)
        (faults : List Fault)
        → Reads b (at_rest c f st)
        → st.contents ≡ absent
        → Ends Ended Held
            (apply document_sha256 k a c.revision action previews faults (at_rest c f st))
    unfolding apply Then Attempted Outcome
    apply-Ends f st faults reads gone =
        let d : Disk = at_rest c f st in
        let p0 : Held d = unbegun reads (inl gone) refl in
        bind-Ends Held _ _ Ended faults d (
          attempt-Ends Held _ _ faults d (
            store-Ends document_sha256 k a (operation document_sha256 k a action previews b y c) b y
              c (applied_catalog document_sha256 k a action previews b y c)
              (subscription_account_receipt a action) _ faults d (ok none) c none_stored
              (λ fs. apply_new-Ends f st fs reads gone)
              (λ fs. bind-Ends Held (attempt read) _ Ended fs d (
                attempt-Ends Held read _ fs d (
                  read-Ends Held _ fs d
                    (rw reads (λ fs.
                      fail_with-Ends document_sha256 k a
                        (operation document_sha256 k a action previews b y c) b y c
                        (applied_catalog document_sha256 k a action previews b y c) Ended b
                        invalid_action_replay fs d p0 (λ e. p0)))
                    (λ fs. ends p0) p0)))
              p0))
