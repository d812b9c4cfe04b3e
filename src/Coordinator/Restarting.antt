-- ===== src/Coordinator/Restarting.antt =====
-- `recover_pending_intents` of crates/routing-service/src/subscription/coordinator.rs in a process
-- whose calls may fail, and which may stop.
use muxvia.Prelude.{ℕ, ◌≡◌, refl, ◌⊎◌, inl, inr, none, some, List, [], same_self, Bool-cases}
use muxvia.Text.{Text}
use muxvia.Effects.{Result, ok, err, Fault}
use muxvia.Effects.Ends.{
  Ends, ends, Then, bind-Ends, seq-Ends, Raising, or_raise-Ends, Attempted, attempt-Ends,
}
use muxvia.Accounts.{SubscriptionAccountDocument, document_eq, SubscriptionAccountDocument-discrete}
use muxvia.Catalog.{recovery_required, pending, rolled_back, intent_recovery_required, Catalog}
use muxvia.Catalog.{SubscriptionAccountActionFailure}
use muxvia.Catalog.Intents.{
  pending_rows, state_of, finish_subscription_account_recovery,
  mark_subscription_account_recovery_required, pending_subscription_account_recovery,
  subscription_account_recovery_state,
}
use muxvia.Catalog.Pending.{finish-table, finish-give_up, pending-table}
use muxvia.AccountStore.{
  absent, invalid, invalid_document, read_staged, holds, StagedMutation, Disk, mutation_of,
}
use muxvia.AccountStore.Calls.{
  snapshot_of, with_document, read_document-holds, with_staged, read-Ends, replace-Ends,
  read_staged_mutation-Ends, read_staged-absent, read_staged-holds, mutation_of-valid,
}
use muxvia.Coordinator.Commit.{finish_intent}
use muxvia.Coordinator.Recover.{
  mark_required, give_up, is_settled, recover_staged, settle_recovery, recover_interrupted, recover,
  recover_pending_intents,
}
use muxvia.Coordinator.Recovering.{Final}
use muxvia.Coordinator.Resuming.{none_pending, found, same_intent}
use muxvia.Coordinator.Phases.{
  mutation, intent_table, Reads, Left, Phase, unbegun, begun_before, begun_after, undone, done,
  Sound, torn, still_old, now_new, store-Ends, clear-Ends,
}

module _ (document_sha256 : SubscriptionAccountDocument → Text) (k a : ℕ) (operation : Text)
    (b y : SubscriptionAccountDocument) (c z : Catalog) where
  abbrev P : Disk → Type 0
  P = Phase document_sha256 k a operation b y c z

  -- The catalog is marked, so that nothing is changed any more; the file is the old one or the
  -- desired one.
  pub record Flagged (d : Disk) : Type 0 where
    pub marked : d.catalog.recovery ≡ recovery_required
    pub whole : (Reads b d) ⊎ (Reads y d)

  -- The end of a recovery.
  unfoldable pub Tended : Result SubscriptionAccountActionFailure (Unit {0}) → Disk → Type 0
  Tended (ok x) d = P d ⊎ Flagged d
  Tended (err e) d = P d

  either_document : (d : Disk) → P d → (Reads b d) ⊎ (Reads y d)
  either_document d (unbegun reads left e) = inl reads
  either_document d (begun_before reads staged e) = inl reads
  either_document d (begun_after reads staged e) = inr reads
  either_document d (undone reads left e) = inl reads
  either_document d (done reads left e) = inr reads
  either_document d (torn empty (still_old reads e)) = inl reads
  either_document d (torn empty (now_new reads e)) = inr reads

  mark_required-Ends :
      (faults : List Fault) (d : Disk) → P d → Ends Tended P (mark_required faults d)
  unfolding mark_required Raising Tended mark_subscription_account_recovery_required
  mark_required-Ends faults d p = or_raise-Ends P _ _ Tended faults d (
      store-Ends document_sha256 k a operation b y c z mark_subscription_account_recovery_required _
        faults d _ _ refl (inr (record { marked = refl; whole = either_document d p })) p p)

  give_up-Ends : (i : ℕ) (faults : List Fault) (d : Disk) → P d → Ends Tended P (give_up i faults d)
  unfolding give_up Then Attempted Tended finish_intent
  give_up-Ends i faults d p = seq-Ends P _ _ Tended faults d (
      attempt-Ends P _ _ faults d (elim (finish-give_up i d.catalog) [
        | inl (c', e, m) ↦
            store-Ends document_sha256 k a operation b y c z
              (finish_subscription_account_recovery i intent_recovery_required) _ faults d _ c' e
              (λ fs. ends (inr (record { marked = m; whole = either_document d p })))
              (λ fs. ends (inl p)) p
        | inr e ↦
            store-Ends document_sha256 k a operation b y c z
              (finish_subscription_account_recovery i intent_recovery_required) _ faults d _
              d.catalog e (λ fs. ends (inl p)) (λ fs. ends (inl p)) p
      ]))

  abbrev M : StagedMutation
  M = mutation document_sha256 k a operation b y c

  abbrev cleared : Disk → Disk
  cleared d = with_staged document_sha256 absent d

  -- The removal of the staged mutation came to half.
  abbrev halved : Disk → Disk
  halved d = with_staged document_sha256 invalid d

  -- The intent is settled and the staged mutation removed, from the old document.
  settle_recovery-Ends :
      (faults : List Fault) (d : Disk)
      → Sound document_sha256 k a operation b y c
      → Reads b d
      → d.staged.contents ≡ holds M
      → d.catalog ≡ intent_table document_sha256 k a operation b y c pending
      → Ends Tended P (settle_recovery document_sha256 k faults d)
  unfolding settle_recovery finish_intent Then Raising Attempted Tended
  settle_recovery-Ends faults d sound reads staged e =
      let d' : Disk = record d {
        catalog = intent_table document_sha256 k a operation b y c rolled_back;
      } in
      let p : P d = begun_before reads staged e in
      let p' : P d' = undone reads (inr staged) refl in
      let p'' : P (cleared d') = undone reads (inl refl) refl in
      let p3 : P (halved d') = torn refl (still_old reads (inr refl)) in
      seq-Ends P _ _ Tended faults d (
        or_raise-Ends P _ _ _ faults d (
          store-Ends document_sha256 k a operation b y c z
            (finish_subscription_account_recovery k rolled_back) _ faults d (ok tt) d'.catalog
            (rw e (finish-table k a operation _ _ c sound.quiet))
            (λ fs. bind-Ends P _ _ Tended fs d' (
              attempt-Ends P _ _ fs d' (
                clear-Ends document_sha256 k a operation b y c z sound fs d' (inr staged) p'
                  (λ fs. ends (inl p')) (λ x fs. mark_required-Ends fs d' p') (λ fs. ends (inl p''))
                  (λ fs. mark_required-Ends fs (cleared d') p'')
                  (λ fs. mark_required-Ends fs (halved d') p3) p3)))
            p p))

  -- A pending intent whose staged mutation is there is taken up.
  recover_interrupted-Ends :
      (faults : List Fault) (d : Disk)
      → Sound document_sha256 k a operation b y c
      → (Reads b d) ⊎ (Reads y d)
      → d.staged.contents ≡ holds M
      → d.catalog ≡ intent_table document_sha256 k a operation b y c pending
      → Ends Tended P (recover_interrupted document_sha256 k M faults d)
  unfolding recover_interrupted Then Attempted mutation_of
  recover_interrupted-Ends faults d sound (inl reads) staged e =
      let p : P d = begun_before reads staged e in
      let restored : Reads b (with_document b d) = read_document-holds b _ sound.before_valid in
      let p' : P (with_document b d) = begun_before restored staged e in
      bind-Ends P _ _ Tended faults d (
        attempt-Ends P _ _ faults d (
          read-Ends P _ faults d
            (rw reads (elim (Bool-cases (document_eq b y)) [
              | inl t ↦ rw t (λ fs. bind-Ends P _ _ Tended fs d (
                  attempt-Ends P _ _ fs d (
                    replace-Ends P (snapshot_of b d) b _ fs d sound.before_valid refl
                      (λ fs. settle_recovery-Ends fs (with_document b d) sound restored staged e)
                      (λ x fs. give_up-Ends k fs d p)
                      (λ x fs. give_up-Ends k fs (with_document b d) p') p p')))
              | inr t ↦
                  rw (t, same_self SubscriptionAccountDocument-discrete b)
                    (λ fs. settle_recovery-Ends fs d sound reads staged e)
            ]))
            (λ fs. give_up-Ends k fs d p) p))
  recover_interrupted-Ends faults d sound (inr reads) staged e =
      let p : P d = begun_after reads staged e in
      let restored : Reads b (with_document b d) = read_document-holds b _ sound.before_valid in
      let p' : P (with_document b d) = begun_before restored staged e in
      bind-Ends P _ _ Tended faults d (
        attempt-Ends P _ _ faults d (
          read-Ends P _ faults d
            (rw (reads, same_self SubscriptionAccountDocument-discrete y)
              (λ fs. bind-Ends P _ _ Tended fs d (
                attempt-Ends P _ _ fs d (
                  replace-Ends P (snapshot_of y d) b _ fs d sound.before_valid refl
                    (λ fs. settle_recovery-Ends fs (with_document b d) sound restored staged e)
                    (λ x fs. give_up-Ends k fs d p)
                    (λ x fs. give_up-Ends k fs (with_document b d) p') p p'))))
            (λ fs. give_up-Ends k fs d p) p))

  -- A staged mutation without a pending intent is removed, or the catalog is marked.
  recover_staged-Ends :
      (faults : List Fault) (d : Disk) (x : SubscriptionAccountDocument)
      → Sound document_sha256 k a operation b y c
      → Reads x d
      → d.staged.contents ≡ holds M
      → P d
      → P (cleared d)
      → P (halved d)
      → Ends Tended P (recover_staged document_sha256 M faults d)
  unfolding recover_staged Then Raising Tended mutation_of subscription_account_recovery_state
  recover_staged-Ends faults d x sound reads staged p p' p3 = bind-Ends P _ _ Tended faults d (
      or_raise-Ends P _ _ _ faults d (
        store-Ends document_sha256 k a operation b y c z (subscription_account_recovery_state k) _
          faults d _ d.catalog refl
          (λ fs. bind-Ends P _ _ Tended fs d (
            or_raise-Ends P _ _ _ fs d (
              read-Ends P _ fs d
                (rw reads
                  (elim (Bool-cases (is_settled (state_of k d.catalog.intents) (document_eq x b))) [
                    | inl t ↦ rw t (λ fs. or_raise-Ends P _ _ Tended fs d (
                        clear-Ends document_sha256 k a operation b y c z sound fs d (inr staged) p
                          (inl p) (λ e. p) (inl p') p' p3 p3))
                    | inr t ↦ rw t (λ fs. mark_required-Ends fs d p)
                  ]))
                p p)))
          p p))

  -- The first steps, where no intent is pending.
  recover_quiet-Ends :
      (faults : List Fault) (d : Disk) (x : SubscriptionAccountDocument)
      → Sound document_sha256 k a operation b y c
      → Reads x d
      → Left document_sha256 k a operation b y c d
      → pending_rows d.catalog.intents ≡ []
      → P d
      → P (cleared d)
      → P (halved d)
      → Ends Tended P (recover_pending_intents document_sha256 faults d)
  unfolding recover_pending_intents recover Then Raising Attempted Tended
  recover_quiet-Ends faults d x sound reads (inl gone) quiet p p' p3 =
      bind-Ends P _ _ Tended faults d (
        attempt-Ends P _ _ faults d (
          read_staged_mutation-Ends document_sha256 P _ faults d _
            (read_staged-absent document_sha256 d.staged gone)
            (λ fs. bind-Ends P _ _ Tended fs d (
              or_raise-Ends P _ _ _ fs d (
                store-Ends document_sha256 k a operation b y c z
                  pending_subscription_account_recovery _ fs d (ok none) d.catalog
                  (none_pending d.catalog quiet) (λ fs. ends (inl p)) p p)))
            (λ fs. mark_required-Ends fs d p) p))
  recover_quiet-Ends faults d x sound reads (inr staged) quiet p p' p3 =
      let v = mutation_of-valid document_sha256 k a operation b y sound.named in
      bind-Ends P _ _ Tended faults d (
        attempt-Ends P _ _ faults d (
          read_staged_mutation-Ends document_sha256 P _ faults d _
            (read_staged-holds document_sha256 M d.staged staged v)
            (λ fs. bind-Ends P _ _ Tended fs d (
              or_raise-Ends P _ _ _ fs d (
                store-Ends document_sha256 k a operation b y c z
                  pending_subscription_account_recovery _ fs d (ok none) d.catalog
                  (none_pending d.catalog quiet)
                  (λ fs. recover_staged-Ends fs d x sound reads staged p p' p3) p p)))
            (λ fs. mark_required-Ends fs d p) p))

  -- The same where the intent is pending.
  recover_begun-Ends :
      (faults : List Fault) (d : Disk)
      → Sound document_sha256 k a operation b y c
      → (Reads b d) ⊎ (Reads y d)
      → d.staged.contents ≡ holds M
      → d.catalog ≡ intent_table document_sha256 k a operation b y c pending
      → P d
      → Ends Tended P (recover_pending_intents document_sha256 faults d)
  unfolding recover_pending_intents recover Then Raising Attempted Tended
  recover_begun-Ends faults d sound reads staged e p =
      let v = mutation_of-valid document_sha256 k a operation b y sound.named in
      let there = found document_sha256 k a operation b y c in
      bind-Ends P _ _ Tended faults d (
        attempt-Ends P _ _ faults d (
          read_staged_mutation-Ends document_sha256 P _ faults d _
            (read_staged-holds document_sha256 M d.staged staged v)
            (λ fs. bind-Ends P _ _ Tended fs d (
              or_raise-Ends P _ _ _ fs d (
                store-Ends document_sha256 k a operation b y c z
                  pending_subscription_account_recovery _ fs d (ok (some there)) d.catalog
                  (rw e (
                    pending-table k a operation (document_sha256 b) (document_sha256 y) c
                      sound.quiet))
                  (rw (same_intent document_sha256 k a operation b y c)
                    (λ fs. recover_interrupted-Ends fs d sound reads staged e))
                  p p)))
            (λ fs. mark_required-Ends fs d p) p))

  -- The staged file cannot be read.
  recover_torn-Ends :
      (faults : List Fault) (d : Disk)
      → d.staged.contents ≡ invalid
      → P d
      → Ends Tended P (recover_pending_intents document_sha256 faults d)
  unfolding recover_pending_intents read_staged Then Attempted
  recover_torn-Ends faults d empty p = bind-Ends P _ _ Tended faults d (
      attempt-Ends P _ _ faults d (
        read_staged_mutation-Ends document_sha256 P _ faults d (err invalid_document)
          (rw empty refl) (λ fs. mark_required-Ends fs d p) (λ fs. mark_required-Ends fs d p) p))

  pub recover-Ends :
      (faults : List Fault) (d : Disk)
      → Sound document_sha256 k a operation b y c
      → Final k z
      → P d
      → Ends Tended P (recover_pending_intents document_sha256 faults d)
  unfolding pending_rows
  recover-Ends faults d sound final (unbegun reads left e) =
      recover_quiet-Ends faults d b sound reads left (rw e sound.quiet) (unbegun reads left e)
        (unbegun reads (inl refl) e) (torn refl (still_old reads (inl e)))
  recover-Ends faults d sound final (begun_before reads staged e) =
      recover_begun-Ends faults d sound (inl reads) staged e (begun_before reads staged e)
  recover-Ends faults d sound final (begun_after reads staged e) =
      recover_begun-Ends faults d sound (inr reads) staged e (begun_after reads staged e)
  recover-Ends faults d sound final (undone reads left e) =
      recover_quiet-Ends faults d b sound reads left (rw e sound.quiet) (undone reads left e)
        (undone reads (inl refl) e) (torn refl (still_old reads (inr e)))
  recover-Ends faults d sound final (done reads left e) =
      recover_quiet-Ends faults d y sound reads left (rw e final.still) (done reads left e)
        (done reads (inl refl) e) (torn refl (now_new reads e))
  recover-Ends faults d sound final (torn empty agreed) =
      recover_torn-Ends faults d empty (torn empty agreed)
