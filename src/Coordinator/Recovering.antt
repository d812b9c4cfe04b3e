-- ===== src/Coordinator/Recovering.antt =====
-- `recover_pending_intents` of crates/routing-service/src/subscription/coordinator.rs at the start
-- of a process whose calls work.
use muxvia.Prelude.{
  ℕ, ◌≡◌, refl, sym, ◌∙◌, subst, ◌⊎◌, inl, inr, true, some, [], same_self, Bool-cases, ==_iff,
}
use muxvia.Text.{Text}
use muxvia.Effects.{ok, returned}
use muxvia.Accounts.{SubscriptionAccountDocument, document_eq, SubscriptionAccountDocument-discrete}
use muxvia.Catalog.{pending, committed, rolled_back, Catalog}
use muxvia.Catalog.Intents.{pending_rows, state_of, mark_subscription_account_recovery_required}
use muxvia.Catalog.Pending.{state_of-not_taken}
use muxvia.AccountStore.{absent, invalid, holds, StagedMutation, Disk, read_document}
use muxvia.AccountStore.Calls.{with_document, read_document-holds}
use muxvia.Coordinator.Recover.{is_settled, recover_pending_intents}
use muxvia.Coordinator.Phases.{
  mutation, intent_table, Reads, Left, Phase, unbegun, begun_before, begun_after, undone, done,
  Sound, torn, Agreed, still_old, now_new,
}
use muxvia.Coordinator.Resuming.{
  recover_nothing, recover_left, recover_pending, recover_replaced, recover_unreplaced, cleared,
  undone_disk, recover_torn,
}

-- The catalog that a success leaves, with nothing pending and the intent committed.
pub record Final (k : ℕ) (z : Catalog) : Type 0 where
  pub still : pending_rows z.intents ≡ []
  pub concluded : state_of k z.intents ≡ some committed

module _ (document_sha256 : SubscriptionAccountDocument → Text) (k a : ℕ) (operation : Text)
    (b y : SubscriptionAccountDocument) (c z : Catalog) where
  -- A recovery that starts at `start` ends with the file and the catalog in agreement, the old
  -- document with the old revision or the desired one with the next, and the staged mutation gone. Or
  -- its removal had come to half at the start, when they agreed already, and now the catalog has the
  -- mark that it requires a recovery.
  pub data Settled (start d : Disk) : Type 0 where
    kept :
        Reads b d
        → d.staged.contents ≡ absent
        → (d.catalog ≡ c)
          ⊎ (d.catalog ≡ intent_table document_sha256 k a operation b y c rolled_back)
        → Settled start d
    moved : Reads y d → d.staged.contents ≡ absent → d.catalog ≡ z → Settled start d
    marked :
        start.staged.contents ≡ invalid
        → d.staged.contents ≡ invalid
        → Agreed document_sha256 k a operation b y c z d start.catalog
        → d.catalog ≡ (mark_subscription_account_recovery_required start.catalog).1
        → Settled start d

  -- A recovery in which every call works settles the disk.
  pub record Recovers (d : Disk) : Type 0 where
    pub after : Disk
    pub ends_well : recover_pending_intents document_sha256 [] d ≡ returned (ok tt) [] after
    pub settled : Settled d after

  abbrev M : StagedMutation
  M = mutation document_sha256 k a operation b y c

  -- What reads as before, with the intent settled and nothing staged.
  settled_back :
      (start d : Disk)
      → Reads b d
      → Settled start (
          cleared document_sha256 k a operation b y c
            (undone_disk document_sha256 k a operation b y c d))
  settled_back start d reads = kept reads refl (inr refl)

  begun-Recovers :
      (d : Disk) (x : SubscriptionAccountDocument)
      → Sound document_sha256 k a operation b y c
      → Reads x d
      → document_eq x y ≡ true
      → d.staged.contents ≡ holds M
      → d.catalog ≡ intent_table document_sha256 k a operation b y c pending
      → Recovers d
  begun-Recovers d x sound reads t staged e = record {
    after =
        cleared document_sha256 k a operation b y c
          (undone_disk document_sha256 k a operation b y c (with_document b d));
    ends_well =
        recover_pending document_sha256 k a operation b y c d sound staged e
        ∙ recover_replaced document_sha256 k a operation b y c d x sound reads t staged e;
    settled = settled_back d (with_document b d) (read_document-holds b _ sound.before_valid);
  }

  left-Recovers :
      (d : Disk) (x : SubscriptionAccountDocument)
      → Sound document_sha256 k a operation b y c
      → Reads x d
      → Left document_sha256 k a operation b y c d
      → pending_rows d.catalog.intents ≡ []
      → is_settled (state_of k d.catalog.intents) (document_eq x b) ≡ true
      → ((d' : Disk)
          → d'.file ≡ d.file
          → d'.catalog ≡ d.catalog
          → d'.staged.contents ≡ absent
          → Settled d d')
      → Recovers d
  left-Recovers d x sound reads (inl gone) quiet over to = record {
    after = d;
    ends_well = recover_nothing document_sha256 k a operation b y c d gone quiet;
    settled = to d refl refl gone;
  }
  left-Recovers d x sound reads (inr staged) quiet over to = record {
    after = cleared document_sha256 k a operation b y c d;
    ends_well = recover_left document_sha256 k a operation b y c d x sound reads staged quiet over;
    settled = to (cleared document_sha256 k a operation b y c d) refl refl refl;
  }

  same_file :
      (d d' : Disk) (x : SubscriptionAccountDocument) → d'.file ≡ d.file → Reads x d → Reads x d'
  same_file d d' x e reads =
      subst (λ f. read_document f ≡ ok (record { document = x; identity = f.identity })) (sym e)
        reads

  -- The agreement of the file with a catalog is not one of the catalog in place.
  elsewhere :
      (d : Disk) (c' : Catalog)
      → Agreed document_sha256 k a operation b y c z d d.catalog
      → Agreed document_sha256 k a operation b y c z (record d { catalog = c' }) d.catalog
  elsewhere d c' (still_old reads e) = still_old reads e
  elsewhere d c' (now_new reads e) = now_new reads e

  -- Every disk that the environment can leave behind is settled by a recovery.
  pub Phase-Recovers :
      (d : Disk)
      → Sound document_sha256 k a operation b y c
      → Final k z
      → Phase document_sha256 k a operation b y c z d
      → Recovers d
  unfolding pending_rows state_of is_settled
  Phase-Recovers d sound final (unbegun reads left e) =
      left-Recovers d b sound reads left (rw e sound.quiet)
        (rw
          (
            e,
            state_of-not_taken k a c.intents sound.fresh,
            same_self SubscriptionAccountDocument-discrete b,
          )
          refl)
        (λ d' ef ec gone. kept (same_file d d' b ef reads) gone (inl (ec ∙ e)))
  Phase-Recovers d sound final (begun_before reads staged e) = elim (Bool-cases (document_eq b y)) [
    | inl t ↦ begun-Recovers d b sound reads t staged e
    | inr t ↦ record {
      after =
          cleared document_sha256 k a operation b y c
            (undone_disk document_sha256 k a operation b y c d);
      ends_well =
          recover_pending document_sha256 k a operation b y c d sound staged e
          ∙ recover_unreplaced document_sha256 k a operation b y c d sound reads t staged e;
      settled = settled_back d d reads;
    }
  ]
  Phase-Recovers d sound final (begun_after reads staged e) =
      begun-Recovers d y sound reads (same_self SubscriptionAccountDocument-discrete y) staged e
  Phase-Recovers d sound final (undone reads left e) =
      left-Recovers d b sound reads left (rw e sound.quiet) (rw (e, (==_iff k k).1 refl) refl)
        (λ d' ef ec gone. kept (same_file d d' b ef reads) gone (inr (ec ∙ e)))
  Phase-Recovers d sound final (done reads left e) =
      left-Recovers d y sound reads left (rw e final.still) (rw (e, final.concluded) refl)
        (λ d' ef ec gone. moved (same_file d d' y ef reads) gone (ec ∙ e))
  Phase-Recovers d sound final (torn empty agreed) = record {
    after = record d { catalog = (mark_subscription_account_recovery_required d.catalog).1 };
    ends_well = recover_torn document_sha256 k a operation b y c d empty;
    settled = marked empty empty (elsewhere d _ agreed) refl;
  }
