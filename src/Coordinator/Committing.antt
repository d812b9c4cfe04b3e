-- ===== src/Coordinator/Committing.antt =====
-- `commit_private_mutation` of crates/routing-service/src/subscription/coordinator.rs.
use muxvia.Prelude.{ℕ, ◌≡◌, refl, sym, ap, inl, inr, true, List}
use muxvia.Text.{Text}
use muxvia.Effects.{Result, ok, err, Fault}
use muxvia.Effects.Ends.{
  Ends, ends, Then, bind-Ends, seq-Ends, Raising, or_raise-Ends, Attempted, attempt-Ends, Failing,
  failing-Ends,
}
use muxvia.Accounts.{SubscriptionAccountDocument}
use muxvia.Catalog.{pending, Catalog, SubscriptionAccountCatalogView}
use muxvia.Catalog.Projection.{project_catalog}
use muxvia.Catalog.Intents.{
  begin_subscription_account_recovery, record_subscription_account_change, is_clean,
}
use muxvia.Catalog.Pending.{begin-table, record-table}
use muxvia.AccountStore.{
  ManagedFile, StagedMutation, absent, invalid, holds, SubscriptionAccountFileSnapshot, Disk,
  mutation_of,
}
use muxvia.AccountStore.Calls.{
  snapshot_of, with_document, read_document-holds, with_staged, replace-Ends, stage_mutation-Ends,
}
use muxvia.Catalog.{SubscriptionAccountActionFailure, state_store_error, Code}
use muxvia.Coordinator.{subscription_account_catalog, fail_with}
use muxvia.Coordinator.Commit.{record_mutation, install_mutation, commit_private_mutation}
use muxvia.Coordinator.Phases.{
  mutation, at_rest, intent_table, changed_catalog, Reads, Leftover, Phase, torn, still_old,
  now_new, unbegun, begun_before, begun_after, done, Sound, store-Ends, clear-Ends,
  rollback_intent-Ends, fail_with-Ends,
}

module _ (document_sha256 : SubscriptionAccountDocument → Text) (k a : ℕ) (operation : Text)
    (b y : SubscriptionAccountDocument) (c : Catalog) where
  abbrev Z : Catalog
  Z = changed_catalog document_sha256 k a operation b y c

  abbrev Held : Disk → Type 0
  Held = Phase document_sha256 k a operation b y c Z

  -- The catalog and the file after a commit that succeeds, with the view that it returns.
  pub record Committed (v : SubscriptionAccountCatalogView) (d : Disk) : Type 0 where
    pub desired_file : Reads y d
    pub left : Leftover document_sha256 k a operation b y c d
    pub next_revision : d.catalog ≡ changed_catalog document_sha256 k a operation b y c
    pub view_of : v ≡ project_catalog d.catalog y

  unfoldable pub Outcome :
      Result SubscriptionAccountActionFailure SubscriptionAccountCatalogView → Disk → Type 0
  Outcome (ok v) d = Committed v d
  Outcome (err e) d = Held d

  -- A rollback's end, whichever it is, and the failure after it.
  after_rollback :
      (x : SubscriptionAccountDocument) (code : Code)
      (r : Result SubscriptionAccountActionFailure SubscriptionAccountActionFailure) (d : Disk)
      → Held d
      → Then Held (λ _. fail_with x code) Outcome r d
  unfolding Then Outcome
  after_rollback x code (ok e) d p =
      λ fs. fail_with-Ends document_sha256 k a operation b y c Z Outcome x code fs d p (λ e. p)
  after_rollback x code (err e) d p = p

  undone-Failing :
      (before : SubscriptionAccountFileSnapshot)
      (r : Result SubscriptionAccountActionFailure SubscriptionAccountActionFailure) (d : Disk)
      → Held d
      → Failing Held {A = Unit {0}}
          (Then Held (λ _. record_mutation document_sha256 k before y) Outcome)
          r
          d
  unfolding Then Outcome Failing
  undone-Failing before (ok e) d p = p
  undone-Failing before (err e) d p = p

  committed :
      (d : Disk)
      → Reads y d
      → Leftover document_sha256 k a operation b y c d
      → Committed
          (project_catalog (changed_catalog document_sha256 k a operation b y c) y)
          (record d { catalog = changed_catalog document_sha256 k a operation b y c })
  committed d reads left = record {
    desired_file = reads;
    left = left;
    next_revision = refl;
    view_of = refl;
  }

  record_mutation-Ends :
      (before : SubscriptionAccountFileSnapshot) (faults : List Fault) (d : Disk)
      → Sound document_sha256 k a operation b y c
      → before.document ≡ b
      → Reads y d
      → d.staged.contents ≡ holds (mutation document_sha256 k a operation b y c)
      → d.catalog ≡ intent_table document_sha256 k a operation b y c pending
      → Ends Outcome Held (record_mutation document_sha256 k before y faults d)
  unfolding record_mutation Then Attempted Outcome
  record_mutation-Ends before faults d sound eb reads staged ec =
      let p : Held d = begun_after reads staged ec in
      let d' : Disk = record d { catalog = changed_catalog document_sha256 k a operation b y c } in
      let p' : Held d' = done reads (inr staged) refl in
      bind-Ends Held _ _ Outcome faults d (
        attempt-Ends Held _ _ faults d (
          store-Ends document_sha256 k a operation b y c Z (record_subscription_account_change y k)
            _ faults d
            (ok (project_catalog (changed_catalog document_sha256 k a operation b y c) y))
            (changed_catalog document_sha256 k a operation b y c)
            (rw ec (record-table k a operation _ _ c sound.quiet y sound.clean_catalog))
            (λ fs. seq-Ends Held _ _ Outcome fs d' (
              attempt-Ends Held _ _ fs d' (
                clear-Ends document_sha256 k a operation b y c Z sound fs d' (inr staged) p'
                  (λ fs. ends (committed d reads (inl (inr staged))))
                  (λ e fs. ends (committed d reads (inl (inr staged))))
                  (λ fs.
                    ends (committed (with_staged document_sha256 absent d) reads (inl (inl refl))))
                  (λ fs.
                    ends (committed (with_staged document_sha256 absent d) reads (inl (inl refl))))
                  (λ fs. ends (committed (with_staged document_sha256 invalid d) reads (inr refl)))
                  (torn refl (now_new reads refl)))))
            (λ fs. seq-Ends Held _ _ Outcome fs d (
              rollback_intent-Ends document_sha256 k a operation b y c Z sound before fs d eb
                (inr reads) staged ec (after_rollback before.document state_store_error)))
            p))

  install_mutation-Ends :
      (before : SubscriptionAccountFileSnapshot) (faults : List Fault) (d : Disk)
      → Sound document_sha256 k a operation b y c
      → before ≡ snapshot_of b d
      → Reads b d
      → d.staged.contents ≡ holds (mutation document_sha256 k a operation b y c)
      → d.catalog ≡ intent_table document_sha256 k a operation b y c pending
      → Ends Outcome Held (install_mutation document_sha256 k before y faults d)
  unfolding install_mutation Then Attempted Outcome
  install_mutation-Ends before faults d sound eb reads staged ec =
      let p : Held d = begun_before reads staged ec in
      let d' : Disk = with_document y d in
      let reads' = read_document-holds y _ sound.desired_valid in
      let p' : Held d' = begun_after reads' staged ec in
      let eb' : before.document ≡ b = ap (λ x. x.document) eb in
      bind-Ends Held _ _ Outcome faults d (
        attempt-Ends Held _ _ faults d (
          replace-Ends Held before y _ faults d sound.desired_valid (ap (λ x. x.identity) (sym eb))
            (λ fs.
              seq-Ends Held _ _ Outcome fs d'
                (ends (λ fs. record_mutation-Ends before fs d' sound eb' reads' staged ec)))
            (λ e fs. seq-Ends Held _ _ Outcome fs d (
              failing-Ends Held _ _ fs d (
                rollback_intent-Ends document_sha256 k a operation b y c Z sound before fs d eb'
                  (inl reads) staged ec (undone-Failing before))))
            (λ e fs. seq-Ends Held _ _ Outcome fs d' (
              failing-Ends Held _ _ fs d' (
                rollback_intent-Ends document_sha256 k a operation b y c Z sound before fs d' eb'
                  (inr reads') staged ec (undone-Failing before))))
            p p'))

  pub commit_private_mutation-Ends :
      (f : ManagedFile SubscriptionAccountDocument) (st : ManagedFile StagedMutation)
      (faults : List Fault)
      → Sound document_sha256 k a operation b y c
      → Reads b (at_rest c f st)
      → st.contents ≡ absent
      → Ends Outcome Held (
          commit_private_mutation document_sha256 k a operation
            (snapshot_of b (at_rest c f st))
            y
            faults
            (at_rest c f st))
  unfolding commit_private_mutation Then Raising Attempted subscription_account_catalog Outcome
      project_catalog mutation_of
  commit_private_mutation-Ends f st faults sound reads gone =
      let d : Disk = at_rest c f st in
      let m = mutation document_sha256 k a operation b y c in
      let d1 : Disk = with_staged document_sha256 (holds m) d in
      let d2 : Disk = record d1 {
        catalog = intent_table document_sha256 k a operation b y c pending;
      } in
      let p0 : Held d = unbegun reads (inl gone) refl in
      let p1 : Held d1 = unbegun reads (inr refl) refl in
      let p2 : Held (with_staged document_sha256 absent d1) = unbegun reads (inl refl) refl in
      let p3 : Held (with_staged document_sha256 invalid d1) =
        torn refl (still_old reads (inl refl)) in
      let is_so : is_clean c.recovery ≡ true = rw sound.clean_catalog refl in
      bind-Ends Held _ _ Outcome faults d (
        or_raise-Ends Held _ _ _ faults d (
          store-Ends document_sha256 k a operation b y c Z _ _ faults d _ d.catalog refl
            (λ fs. rw is_so (
              seq-Ends Held _ _ Outcome fs d (
                ends (λ fs. bind-Ends Held _ _ Outcome fs d (
                  or_raise-Ends Held _ _ _ fs d (
                    stage_mutation-Ends document_sha256 Held k a operation b y _ fs d
                      sound.before_valid sound.desired_valid sound.named gone
                      (λ fs. bind-Ends Held _ _ Outcome fs d1 (
                        attempt-Ends Held _ _ fs d1 (
                          store-Ends document_sha256 k a operation b y c Z
                            (begin_subscription_account_recovery k a operation c.revision _ _) _ fs
                            d1 (ok tt) (intent_table document_sha256 k a operation b y c pending)
                            (begin-table k a operation _ _ c sound.quiet sound.clean_catalog
                              sound.fresh)
                            (λ fs. seq-Ends Held _ _ Outcome fs d2 (
                              ends (λ fs.
                                install_mutation-Ends (snapshot_of b d) fs d2 sound refl reads refl
                                  refl)))
                            (λ fs. seq-Ends Held _ _ Outcome fs d1 (
                              seq-Ends Held _ _ _ fs d1 (
                                attempt-Ends Held _ _ fs d1 (
                                  clear-Ends document_sha256 k a operation b y c Z sound fs d1
                                    (inr refl) p1 (λ fs. ends p1) (λ e fs. ends p1) (λ fs. ends p2)
                                    (λ fs. ends p2) (λ fs. ends p3) p3))))
                            p1)))
                      p0 p1 p0 p1))))))
            p0 p0))
