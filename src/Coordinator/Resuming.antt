-- ===== src/Coordinator/Resuming.antt =====
-- The steps of `recover_pending_intents`, crates/routing-service/src/subscription/coordinator.rs, in a
-- process whose calls work.
use muxvia.Prelude.{
  ℕ, ◌≡◌, refl, ap, ◌∙◌, true, false, none, some, [], arith, same_self, bytes_eq_iff,
}
use muxvia.Text.{Text}
use muxvia.Effects.{Result, ok, returned, call, transact, attempt, or_raise, ◌>>=◌}
use muxvia.Effects.Works.{bind_works, seq_works, or_raise_works, attempt_works}
use muxvia.Accounts.{SubscriptionAccountDocument, document_eq, SubscriptionAccountDocument-discrete}
use muxvia.Catalog.{pending, rolled_back, Catalog, StateError, PendingSubscriptionAccountRecovery}
use muxvia.Catalog.Intents.{
  pending_rows, state_of, pending_subscription_account_recovery,
  subscription_account_recovery_state, mark_subscription_account_recovery_required,
  finish_subscription_account_recovery,
}
use muxvia.Catalog.Pending.{finish-table, pending-table}
use muxvia.AccountStore.{
  absent, invalid, read_staged, read_staged_mutation, holds, StagedMutation, Disk, mutation_of,
}
use muxvia.AccountStore.Calls.{
  snapshot_of, with_document, with_staged, mutation_of-valid, read_staged-holds, read_staged-absent,
}
use muxvia.AccountStore.Working.{read_works, replace_works, read_staged_works, clear_works}
use muxvia.Coordinator.{store}
use muxvia.Coordinator.Commit.{finish_intent}
use muxvia.Coordinator.Recover.{
  mark_required, is_settled, recover_staged, is_same_intent, settle_recovery, recover_interrupted,
  recover, recover_pending_intents,
}
use muxvia.Coordinator.Phases.{mutation, intent_table, Reads, Sound}

pub store_works :
    {A : Type 0} (op : Catalog → Result StateError A × Catalog) (d : Disk) (r : Result StateError A)
    (c : Catalog)
    → op d.catalog ≡ (r, c)
    → store op [] d ≡ returned r [] (record d { catalog = c })
unfolding store transact call
store_works op d r c e = ap (λ p. returned p.0 [] (record d { catalog = p.1 })) e

pub none_pending :
    (c : Catalog)
    → pending_rows c.intents ≡ []
    → pending_subscription_account_recovery c ≡ (ok none, c)
unfolding pending_subscription_account_recovery
none_pending c e = rw e refl

module _ (document_sha256 : SubscriptionAccountDocument → Text) (k a : ℕ) (operation : Text)
    (b y : SubscriptionAccountDocument) (c : Catalog) where
  abbrev M : StagedMutation
  M = mutation document_sha256 k a operation b y c

  abbrev pub cleared : Disk → Disk
  cleared d = with_staged document_sha256 absent d

  abbrev pub marked_catalog : Catalog → Catalog
  marked_catalog c' = (mark_subscription_account_recovery_required c').1

  -- The staged file cannot be read.
  pub recover_torn :
      (d : Disk)
      → d.staged.contents ≡ invalid
      → recover_pending_intents document_sha256 [] d
        ≡ returned (ok tt) [] (record d { catalog = marked_catalog d.catalog })
  unfolding recover_pending_intents read_staged_mutation read_staged transact call attempt ◌>>=◌
      mark_required or_raise store mark_subscription_account_recovery_required
  recover_torn d e = rw e refl

  -- Nothing is staged and nothing is pending.
  pub recover_nothing :
      (d : Disk)
      → d.staged.contents ≡ absent
      → pending_rows d.catalog.intents ≡ []
      → recover_pending_intents document_sha256 [] d ≡ returned (ok tt) [] d
  unfolding recover_pending_intents recover
  recover_nothing d gone quiet =
      bind_works _ _ [] [] d d (some none) (
        attempt_works _ [] [] d d none (
          read_staged_works document_sha256 d none
            (read_staged-absent document_sha256 d.staged gone)))
      ∙ bind_works _ _ [] [] d d none (
          or_raise_works _ _ [] [] d d none (
            store_works pending_subscription_account_recovery d _ d.catalog
              (none_pending d.catalog quiet)))

  -- A staged mutation whose intent is not pending is left over.
  pub recover_left :
      (d : Disk) (x : SubscriptionAccountDocument)
      → Sound document_sha256 k a operation b y c
      → Reads x d
      → d.staged.contents ≡ holds M
      → pending_rows d.catalog.intents ≡ []
      → is_settled (state_of k d.catalog.intents) (document_eq x b) ≡ true
      → recover_pending_intents document_sha256 [] d ≡ returned (ok tt) [] (cleared d)
  unfolding recover_pending_intents recover recover_staged mutation_of
      subscription_account_recovery_state
  recover_left d x sound reads staged quiet over =
      let v = mutation_of-valid document_sha256 k a operation b y sound.named in
      bind_works _ _ [] [] d d (some (some (M, d.staged.identity))) (
        attempt_works _ [] [] d d (some (M, d.staged.identity)) (
          read_staged_works document_sha256 d _
            (read_staged-holds document_sha256 M d.staged staged v)))
      ∙ bind_works _ _ [] [] d d none (
          or_raise_works _ _ [] [] d d none (
            store_works pending_subscription_account_recovery d _ d.catalog
              (none_pending d.catalog quiet)))
      ∙ bind_works _ _ [] [] d d (state_of k d.catalog.intents) (
          or_raise_works _ _ [] [] d d _
            (store_works (subscription_account_recovery_state k) d _ d.catalog refl))
      ∙ bind_works _ _ [] [] d d (snapshot_of x d)
          (or_raise_works _ _ [] [] d d _ (read_works d _ reads))
      ∙ rw over (
          or_raise_works _ _ [] [] d (cleared d) tt
            (clear_works document_sha256 k M d staged v refl))

  abbrev pub undone_disk : Disk → Disk
  undone_disk d = record d {
    catalog = intent_table document_sha256 k a operation b y c rolled_back;
  }

  -- The intent is settled and the staged mutation removed.
  settle_recovery_works :
      (d : Disk)
      → Sound document_sha256 k a operation b y c
      → d.staged.contents ≡ holds M
      → d.catalog ≡ intent_table document_sha256 k a operation b y c pending
      → settle_recovery document_sha256 k [] d ≡ returned (ok tt) [] (cleared (undone_disk d))
  unfolding settle_recovery finish_intent mutation_of
  settle_recovery_works d sound staged e =
      let v = mutation_of-valid document_sha256 k a operation b y sound.named in
      seq_works _ _ [] [] d (undone_disk d) tt (
        or_raise_works _ _ [] [] d (undone_disk d) tt (
          store_works (finish_subscription_account_recovery k rolled_back) d (ok tt) _
            (rw e (finish-table k a operation _ _ c sound.quiet))))
      ∙ bind_works _ _ [] [] (undone_disk d) (cleared (undone_disk d)) (some tt) (
          attempt_works _ [] [] (undone_disk d) (cleared (undone_disk d)) tt
            (clear_works document_sha256 k M (undone_disk d) staged v refl))

  abbrev pub found : PendingSubscriptionAccountRecovery
  found = record {
    intent_id = k;
    action_id = a;
    operation = operation;
    before_sha256 = document_sha256 b;
    desired_sha256 = document_sha256 y;
  }

  pub same_intent : is_same_intent found M ≡ true
  unfolding is_same_intent mutation_of
  same_intent = ground (
    arith,
    bytes_eq_iff operation operation,
    bytes_eq_iff (document_sha256 b) (document_sha256 b),
    bytes_eq_iff (document_sha256 y) (document_sha256 y),
  )

  -- A pending intent with its staged mutation is taken up.
  pub recover_pending :
      (d : Disk)
      → Sound document_sha256 k a operation b y c
      → d.staged.contents ≡ holds M
      → d.catalog ≡ intent_table document_sha256 k a operation b y c pending
      → recover_pending_intents document_sha256 [] d ≡ recover_interrupted document_sha256 k M [] d
  unfolding recover_pending_intents recover
  recover_pending d sound staged e =
      let v = mutation_of-valid document_sha256 k a operation b y sound.named in
      bind_works _ _ [] [] d d (some (some (M, d.staged.identity))) (
        attempt_works _ [] [] d d (some (M, d.staged.identity)) (
          read_staged_works document_sha256 d _
            (read_staged-holds document_sha256 M d.staged staged v)))
      ∙ bind_works _ _ [] [] d d (some found) (
          or_raise_works _ _ [] [] d d (some found) (
            store_works pending_subscription_account_recovery d (ok (some found)) d.catalog (
              rw e (
                pending-table k a operation (document_sha256 b) (document_sha256 y) c
                  sound.quiet))))
      ∙ rw same_intent refl

  -- A file that already reads as the desired document is put back.
  pub recover_replaced :
      (d : Disk) (x : SubscriptionAccountDocument)
      → Sound document_sha256 k a operation b y c
      → Reads x d
      → document_eq x y ≡ true
      → d.staged.contents ≡ holds M
      → d.catalog ≡ intent_table document_sha256 k a operation b y c pending
      → recover_interrupted document_sha256 k M [] d
        ≡ returned (ok tt) [] (cleared (undone_disk (with_document b d)))
  unfolding recover_interrupted mutation_of
  recover_replaced d x sound reads t staged e =
      bind_works _ _ [] [] d d (some (snapshot_of x d))
        (attempt_works _ [] [] d d (snapshot_of x d) (read_works d _ reads))
      ∙ rw t (
          bind_works _ _ [] [] d (with_document b d) (some tt) (
            attempt_works _ [] [] d (with_document b d) tt
              (replace_works (snapshot_of x d) b d sound.before_valid refl))
          ∙ settle_recovery_works (with_document b d) sound staged e)

  pub recover_unreplaced :
      (d : Disk)
      → Sound document_sha256 k a operation b y c
      → Reads b d
      → document_eq b y ≡ false
      → d.staged.contents ≡ holds M
      → d.catalog ≡ intent_table document_sha256 k a operation b y c pending
      → recover_interrupted document_sha256 k M [] d ≡ returned (ok tt) [] (cleared (undone_disk d))
  unfolding recover_interrupted mutation_of
  recover_unreplaced d sound reads t staged e =
      bind_works _ _ [] [] d d (some (snapshot_of b d))
        (attempt_works _ [] [] d d (snapshot_of b d) (read_works d _ reads))
      ∙ rw (t, same_self SubscriptionAccountDocument-discrete b)
          (settle_recovery_works d sound staged e)
