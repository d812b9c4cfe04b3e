-- ===== src/Coordinator/Phases.antt =====
-- The disks between the calls of `commit_private_mutation` and of `rollback_intent`,
-- crates/routing-service/src/subscription/coordinator.rs.
use muxvia.Prelude.{
  ℕ, ◌≡◌, refl, sym, subst, ◌⊎◌, inl, inr, true, false, List, [], same_self, same→eq, Bool-cases,
}
use muxvia.Text.{Text}
use muxvia.Effects.{Result, ok, err, Fault, raise}
use muxvia.Effects.Ends.{
  Ends, ends, Then, bind-Ends, seq-Ends, Raising, or_raise-Ends, Attempted, attempt-Ends,
  transact-Ends,
}
use muxvia.Accounts.{
  SubscriptionAccountDocument, document_eq, validate_document, is_empty,
  SubscriptionAccountDocument-discrete,
}
use muxvia.Catalog.{clean, IntentState, pending, rolled_back, Catalog, StateError, sqlite}
use muxvia.Catalog.Intents.{pending_rows, is_taken, finish_subscription_account_recovery}
use muxvia.Catalog.Pending.{table, changed, finish-table}
use muxvia.AccountStore.{
  absent, invalid, holds, ManagedFile, StagedMutation, SubscriptionAccountFileSnapshot, Disk,
  SubscriptionAccountStoreError, write_failed, read_document, mutation_of, clear_staged_mutation,
}
use muxvia.AccountStore.Calls.{
  snapshot_of, with_document, read_document-holds, with_staged, read-Ends, replace-Ends,
  mutation_of-valid, read_staged_mutation-Ends, read_staged-absent, clear_staged_mutation-Ends,
}
use muxvia.Catalog.{Code, SubscriptionAccountActionFailure}
use muxvia.Coordinator.{store, subscription_account_catalog, failure, fail_with}
use muxvia.Coordinator.Commit.{finish_intent, settle_rollback, rollback_intent}

-- The file of the accounts reads as a document.
abbrev pub Reads : SubscriptionAccountDocument → Disk → Type 0
Reads x d = read_document d.file ≡ ok (snapshot_of x d)

abbrev pub at_rest :
    Catalog → ManagedFile SubscriptionAccountDocument → ManagedFile StagedMutation → Disk
at_rest c f st = record { file = f; staged = st; catalog = c }

-- A mutation of the file from `b` to `y` in a catalog `c`.
module _ (document_sha256 : SubscriptionAccountDocument → Text) (k a : ℕ) (operation : Text)
    (b y : SubscriptionAccountDocument) (c : Catalog) where
  abbrev pub mutation : StagedMutation
  mutation = mutation_of document_sha256 k a operation b y

  abbrev pub intent_table : IntentState → Catalog
  intent_table = table k a operation (document_sha256 b) (document_sha256 y) c

  abbrev pub changed_catalog : Catalog
  changed_catalog = changed k a operation (document_sha256 b) (document_sha256 y) c

  -- The staged mutation is there or has been removed.
  abbrev pub Left : Disk → Type 0
  Left d = (d.staged.contents ≡ absent) ⊎ (d.staged.contents ≡ holds mutation)

  -- Or its removal came to half: the file is empty.
  abbrev pub Leftover : Disk → Type 0
  Leftover d = Left d ⊎ (d.staged.contents ≡ invalid)

  -- What the steps of a mutation rest on.
  pub record Sound : Type 0 where
    pub before_valid : validate_document b ≡ true
    pub desired_valid : validate_document y ≡ true
    pub named : is_empty operation ≡ false
    pub clean_catalog : c.recovery ≡ clean
    pub quiet : pending_rows c.intents ≡ []
    pub fresh : is_taken k a c.intents ≡ false

-- A phase of that mutation, with `z` as the catalog that a success leaves.
module _ (document_sha256 : SubscriptionAccountDocument → Text) (k a : ℕ) (operation : Text)
    (b y : SubscriptionAccountDocument) (c z : Catalog) where
  -- The file and a catalog agree: the old document with the old revision, or the desired one with
  -- the next.
  pub data Agreed (d : Disk) (c' : Catalog) : Type 0 where
    still_old :
        Reads b d
        → (c' ≡ c) ⊎ (c' ≡ intent_table document_sha256 k a operation b y c rolled_back)
        → Agreed d c'
    now_new : Reads y d → c' ≡ z → Agreed d c'

  pub data Phase (d : Disk) : Type 0 where
    unbegun : Reads b d → (Left document_sha256 k a operation b y c) d → d.catalog ≡ c → Phase d
    begun_before :
        Reads b d
        → d.staged.contents ≡ holds (mutation document_sha256 k a operation b y c)
        → d.catalog ≡ (intent_table document_sha256 k a operation b y c) pending
        → Phase d
    begun_after :
        Reads y d
        → d.staged.contents ≡ holds (mutation document_sha256 k a operation b y c)
        → d.catalog ≡ (intent_table document_sha256 k a operation b y c) pending
        → Phase d
    undone :
        Reads b d
        → (Left document_sha256 k a operation b y c) d
        → d.catalog ≡ (intent_table document_sha256 k a operation b y c) rolled_back
        → Phase d
    done : Reads y d → (Left document_sha256 k a operation b y c) d → d.catalog ≡ z → Phase d
    torn : d.staged.contents ≡ invalid → Agreed d d.catalog → Phase d

  pub store-Ends :
      {A : Type 0} (op : Catalog → Result StateError A × Catalog)
      (Q : Result StateError A → Disk → Type 0) (faults : List Fault) (d : Disk)
      (r : Result StateError A) (c' : Catalog)
      → op d.catalog ≡ (r, c')
      → Q r (record d { catalog = c' })
      → Q (err sqlite) d
      → Phase d
      → Ends Q Phase (store op faults d)
  unfolding store
  store-Ends op Q faults d r c' e kept failed s =
      transact-Ends Phase sqlite _ Q faults d
        (subst (λ p. Q p.0 (record d { catalog = p.1 })) (sym e) kept) failed s

  -- The staged (mutation document_sha256 k a operation b y c) is cleared, or not.
  pub clear-Ends :
      {Q : Result SubscriptionAccountStoreError (Unit {0}) → Disk → Type 0}
      (sound : (Sound document_sha256 k a operation b y c)) (faults : List Fault) (d : Disk)
      → (Left document_sha256 k a operation b y c) d
      → Phase d
      → Q (ok tt) d
      → ((e : SubscriptionAccountStoreError) → Q (err e) d)
      → Q (ok tt) (with_staged document_sha256 absent d)
      → Q (err write_failed) (with_staged document_sha256 absent d)
      → Q (err write_failed) (with_staged document_sha256 invalid d)
      → Phase (with_staged document_sha256 invalid d)
      → Ends Q Phase (clear_staged_mutation document_sha256 k faults d)
  unfolding clear_staged_mutation Then mutation_of
  clear-Ends {Q = Q} sound faults d (inl gone) s kept kept_failed cleared cleared_failed torn_failed
        t =
      bind-Ends Phase _ _ Q faults d (
        read_staged_mutation-Ends document_sha256 Phase _ faults d _
          (read_staged-absent document_sha256 d.staged gone) (λ fs. ends kept) (kept_failed _) s)
  clear-Ends {Q = Q} sound faults d (inr staged) s kept kept_failed cleared cleared_failed
        torn_failed t =
      clear_staged_mutation-Ends document_sha256 Phase k
        (mutation document_sha256 k a operation b y c) Q faults d staged
        (mutation_of-valid document_sha256 k a operation b y sound.named) refl cleared
        (kept_failed _) cleared_failed s torn_failed t

  -- The rollback of an intent whose file reads as before.
  pub settle_rollback-Ends :
      {Q : Result SubscriptionAccountActionFailure SubscriptionAccountActionFailure → Disk → Type 0}
      (code : Code) (sound : (Sound document_sha256 k a operation b y c)) (faults : List Fault)
      (d : Disk)
      → Reads b d
      → d.staged.contents ≡ holds (mutation document_sha256 k a operation b y c)
      → d.catalog ≡ (intent_table document_sha256 k a operation b y c) pending
      → ((r : _) (d' : Disk) → Phase d' → Q r d')
      → Ends Q Phase (settle_rollback document_sha256 k code faults d)
  unfolding settle_rollback Then Raising finish_intent
  settle_rollback-Ends {Q = Q} code sound faults d reads staged e all =
      let d' : Disk = record d {
        catalog = (intent_table document_sha256 k a operation b y c) rolled_back;
      } in
      let p = begun_before reads staged e in
      let p' : Phase d' = undone reads (inr staged) refl in
      let p'' : Phase (with_staged document_sha256 absent d') = undone reads (inl refl) refl in
      let p3 : Phase (with_staged document_sha256 invalid d') =
        torn refl (still_old reads (inr refl)) in
      seq-Ends Phase _ _ Q faults d (
        or_raise-Ends Phase _ _ _ faults d (
          store-Ends (finish_subscription_account_recovery k rolled_back) _ faults d (ok tt)
            ((intent_table document_sha256 k a operation b y c) rolled_back)
            (rw e (finish-table k a operation _ _ c sound.quiet))
            (λ fs. seq-Ends Phase _ _ Q fs d' (
              or_raise-Ends Phase _ _ _ fs d' (
                clear-Ends sound fs d' (inr staged) p' (λ fs. ends (all _ d' p')) (λ e. all _ d' p')
                  (λ fs. ends (all _ _ p'')) (all _ _ p'') (all _ _ p3) p3)))
            (all _ d p) p))

  pub rollback_intent-Ends :
      {Q : Result SubscriptionAccountActionFailure SubscriptionAccountActionFailure → Disk → Type 0}
      (sound : (Sound document_sha256 k a operation b y c))
      (before : SubscriptionAccountFileSnapshot) (faults : List Fault) (d : Disk)
      → before.document ≡ b
      → (Reads b d) ⊎ (Reads y d)
      → d.staged.contents ≡ holds (mutation document_sha256 k a operation b y c)
      → d.catalog ≡ (intent_table document_sha256 k a operation b y c) pending
      → ((r : _) (d' : Disk) → Phase d' → Q r d')
      → Ends Q Phase (rollback_intent document_sha256 k before y faults d)
  unfolding rollback_intent Then Raising
  rollback_intent-Ends {Q = Q} sound before faults d eb (inl reads) staged e all =
      let p = begun_before reads staged e in
      bind-Ends Phase _ _ Q faults d (
        or_raise-Ends Phase _ _ _ faults d (
          read-Ends Phase _ faults d
            (rw (reads, eb, same_self SubscriptionAccountDocument-discrete b)
              (λ fs. settle_rollback-Ends _ sound fs d reads staged e all))
            (all _ d p) p))
  rollback_intent-Ends {Q = Q} sound before faults d eb (inr reads) staged e all =
      let p = begun_after reads staged e in
      let restored : Reads b (with_document b d) = read_document-holds b _ sound.before_valid in
      let p' : Phase (with_document b d) = begun_before restored staged e in
      bind-Ends Phase _ _ Q faults d (
        or_raise-Ends Phase _ _ _ faults d (
          read-Ends Phase _ faults d
            (rw (reads, eb, same_self SubscriptionAccountDocument-discrete y)
              (elim (Bool-cases (document_eq y b)) [
                | inl t ↦ rw t (λ fs.
                    settle_rollback-Ends _ sound fs d
                      (subst (λ x. Reads x d) (same→eq SubscriptionAccountDocument-discrete y b t)
                        reads)
                      staged e all)
                | inr t ↦ rw t (λ fs. seq-Ends Phase _ _ Q fs d (
                    or_raise-Ends Phase _ _ _ fs d (
                      replace-Ends Phase (snapshot_of y d) b _ fs d sound.before_valid refl
                        (λ fs.
                          settle_rollback-Ends _ sound fs (with_document b d) restored staged e all)
                        (λ x. all _ d p) (λ x. all _ _ p') p p')))
              ]))
            (all _ d p) p))

  pub fail_with-Ends :
      {B : Type 0} (Q : Result SubscriptionAccountActionFailure B → Disk → Type 0)
      (x : SubscriptionAccountDocument) (code : Code) (faults : List Fault) (d : Disk)
      → Phase d
      → ((e : SubscriptionAccountActionFailure) → Q (err e) d)
      → Ends Q Phase (fail_with {A = B} x code faults d)
  unfolding fail_with failure Then Attempted subscription_account_catalog
  fail_with-Ends {B = B} Q x code faults d p q = bind-Ends Phase (failure x code) raise Q faults d (
      bind-Ends Phase _ _ _ faults d (
        attempt-Ends Phase _ _ faults d (
          store-Ends _ _ faults d _ d.catalog refl (λ fs. ends (λ fs. ends (q _)))
            (λ fs. ends (λ fs. ends (q _))) p)))
