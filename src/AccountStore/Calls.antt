-- ===== src/AccountStore/Calls.antt =====
-- What the operations of the account store can do to the disk, whatever the environment decides.
use muxvia.Prelude.{
  ℕ, suc, ◌≡◌, refl, sym, subst, Bool, true, false, ◌&&◌, Option, none, some, bytes_eq_iff, arith,
  same_self, ==_iff,
}
use muxvia.Text.{Text}
use muxvia.Effects.{Result, ok, err, Fault}
use muxvia.Effects.Ends.{Ends, ends, Then, bind-Ends, seq-Ends, call-Ends, transact-Ends}
use muxvia.Accounts.{
  SubscriptionAccountDocument, validate_document, is_empty, SubscriptionAccountDocument-discrete,
}
use muxvia.AccountStore.{
  FileContents, absent, invalid, holds, ManagedFile, StagedMutation,
  SubscriptionAccountFileSnapshot, Disk, SubscriptionAccountStoreError, write_failed, replace_file,
  read_document, read, write_document, replace, validate_staged_mutation, read_staged,
  read_staged_mutation, replace_staged, staged_identity, mutation_of, stage_mutation,
  clear_staged_mutation, remove_staged, unlink_staged,
}
use mathlib.Core.List.{List}

-- The disk after a replacement of the file.
abbrev pub with_document : SubscriptionAccountDocument → Disk → Disk
with_document y d = record d {
  file = record { contents = holds y; identity = suc d.file.identity };
}

abbrev pub snapshot_of : SubscriptionAccountDocument → Disk → SubscriptionAccountFileSnapshot
snapshot_of x d = record { document = x; identity = d.file.identity }

pub read_document-holds :
    (y : SubscriptionAccountDocument) (i : ℕ)
    → validate_document y ≡ true
    → read_document (record { contents = holds y; identity = i })
      ≡ ok (record { document = y; identity = i })
unfolding read_document
read_document-holds y i v = rw v refl

pub replace_file-same :
    {A : Type 0} (i : ℕ) (x : FileContents A) (f : ManagedFile A)
    → f.identity ≡ i
    → replace_file i x f ≡ (ok tt, record { contents = x; identity = suc f.identity })
unfolding replace_file
replace_file-same i x f e = ground (arith)

-- Two tests that hold.
pub both : (a b : Bool) → a ≡ true → b ≡ true → (a && b) ≡ true
both a b h k = ground arith

module _ (S : Disk → Type 0) where
  pub read-Ends :
      (Q : Result SubscriptionAccountStoreError SubscriptionAccountFileSnapshot → Disk → Type 0)
      (faults : List Fault) (d : Disk)
      → Q (read_document d.file) d
      → Q (err write_failed) d
      → S d
      → Ends Q S (read faults d)
  unfolding read
  read-Ends Q faults d done failed s = transact-Ends S _ _ Q faults d done failed s

  write_document-Ends :
      (i : ℕ) (y : SubscriptionAccountDocument)
      (Q : Result SubscriptionAccountStoreError (Unit {0}) → Disk → Type 0) (faults : List Fault)
      (d : Disk)
      → d.file.identity ≡ i
      → Q (ok tt) (with_document y d)
      → Q (err write_failed) d
      → Q (err write_failed) (with_document y d)
      → S d
      → Ends Q S (write_document i y faults d)
  unfolding write_document
  write_document-Ends i y Q faults d e done failed after s =
      let step = replace_file-same i (holds y) d.file e in
      call-Ends S write_failed _ Q faults d
        (subst (λ p. Q p.0 (record d { file = p.1 })) (sym step) done) failed
        (subst (λ p. Q (err write_failed) (record d { file = p.1 })) (sym step) after) s

  pub replace-Ends :
      (x : SubscriptionAccountFileSnapshot) (y : SubscriptionAccountDocument)
      (Q : Result SubscriptionAccountStoreError (Unit {0}) → Disk → Type 0) (faults : List Fault)
      (d : Disk)
      → validate_document y ≡ true
      → d.file.identity ≡ x.identity
      → Q (ok tt) (with_document y d)
      → ((e : SubscriptionAccountStoreError) → Q (err e) d)
      → ((e : SubscriptionAccountStoreError) → Q (err e) (with_document y d))
      → S d
      → S (with_document y d)
      → Ends Q S (replace x y faults d)
  unfolding replace Then
  replace-Ends x y Q faults d v same_identity done failed after s t = rw v (
      seq-Ends S (write_document x.identity y) _ Q faults d (
        write_document-Ends x.identity y _ faults d same_identity
          (λ rest. bind-Ends S read _ Q rest (with_document y d) (
            read-Ends _ rest (with_document y d)
              (rw v (λ last. rw (same_self SubscriptionAccountDocument-discrete y) (ends done)))
              (after write_failed) t))
          (failed write_failed) (after write_failed) s))

module _ (document_sha256 : SubscriptionAccountDocument → Text) where
  pub mutation_of-valid :
      (k a : ℕ) (operation : Text) (b y : SubscriptionAccountDocument)
      → is_empty operation ≡ false
      → validate_staged_mutation document_sha256 (mutation_of document_sha256 k a operation b y)
        ≡ true
  unfolding validate_staged_mutation mutation_of
  mutation_of-valid k a operation b y h = ground (
    arith,
    bytes_eq_iff (document_sha256 b) (document_sha256 b),
    bytes_eq_iff (document_sha256 y) (document_sha256 y),
  )

  abbrev pub with_staged : FileContents StagedMutation → Disk → Disk
  with_staged m d = record d { staged = record { contents = m; identity = suc d.staged.identity } }

  pub read_staged-holds :
      (m : StagedMutation) (f : ManagedFile StagedMutation)
      → f.contents ≡ holds m
      → validate_staged_mutation document_sha256 m ≡ true
      → read_staged document_sha256 f ≡ ok (some (m, f.identity))
  unfolding read_staged
  read_staged-holds m f e v = rw (e, v) refl

  pub read_staged-absent :
      (f : ManagedFile StagedMutation)
      → f.contents ≡ absent
      → read_staged document_sha256 f ≡ ok none
  unfolding read_staged
  read_staged-absent f e = rw e refl

  module _ (S : Disk → Type 0) where
    pub read_staged_mutation-Ends :
        (Q : Result SubscriptionAccountStoreError (Option (StagedMutation × ℕ)) → Disk → Type 0)
        (faults : List Fault) (d : Disk) (r : _)
        → read_staged document_sha256 d.staged ≡ r
        → Q r d
        → Q (err write_failed) d
        → S d
        → Ends Q S (read_staged_mutation document_sha256 faults d)
    unfolding read_staged_mutation
    read_staged_mutation-Ends Q faults d r e done failed s =
        transact-Ends S _ _ Q faults d (rw e done) failed s

    replace_staged-Ends :
        (m : FileContents StagedMutation)
        (Q : Result SubscriptionAccountStoreError (Unit {0}) → Disk → Type 0) (faults : List Fault)
        (d : Disk)
        → Q (ok tt) (with_staged m d)
        → Q (err write_failed) d
        → Q (err write_failed) (with_staged m d)
        → S d
        → Ends Q S (replace_staged document_sha256 d.staged.identity m faults d)
    unfolding replace_staged
    replace_staged-Ends m Q faults d done failed after s =
        let step = replace_file-same d.staged.identity m d.staged refl in
        call-Ends S write_failed _ Q faults d
          (subst (λ p. Q p.0 (record d { staged = p.1 })) (sym step) done) failed
          (subst (λ p. Q (err write_failed) (record d { staged = p.1 })) (sym step) after) s

    staged_identity-Ends :
        (Q : Result SubscriptionAccountStoreError ℕ → Disk → Type 0) (faults : List Fault)
        (d : Disk)
        → Q (ok d.staged.identity) d
        → Q (err write_failed) d
        → S d
        → Ends Q S (staged_identity document_sha256 faults d)
    unfolding staged_identity
    staged_identity-Ends Q faults d done failed s = transact-Ends S _ _ Q faults d done failed s

    pub stage_mutation-Ends :
        (k a : ℕ) (operation : Text) (b y : SubscriptionAccountDocument)
        (Q : Result SubscriptionAccountStoreError StagedMutation → Disk → Type 0)
        (faults : List Fault) (d : Disk)
        → validate_document b ≡ true
        → validate_document y ≡ true
        → is_empty operation ≡ false
        → d.staged.contents ≡ absent
        → let m = mutation_of document_sha256 k a operation b y in
          Q (ok m) (with_staged (holds m) d)
          → Q (err write_failed) d
          → Q (err write_failed) (with_staged (holds m) d)
          → S d
          → S (with_staged (holds m) d)
          → Ends Q S (stage_mutation document_sha256 k a operation b y faults d)
    unfolding stage_mutation Then
    stage_mutation-Ends k a operation b y Q faults d vb vy ne none_staged done failed after s t =
        let m = mutation_of document_sha256 k a operation b y in
        let d' = with_staged (holds m) d in
        let v = mutation_of-valid k a operation b y ne in
        rw (vb, vy, ne)
          (bind-Ends S (read_staged_mutation document_sha256) _ Q faults d (
            read_staged_mutation-Ends _ faults d _ (read_staged-absent d.staged none_staged)
              (λ fs. seq-Ends S _ _ Q fs d (
                (ends (λ fs. bind-Ends S (staged_identity document_sha256) _ Q fs d (
                  staged_identity-Ends _ fs d
                    (λ fs. seq-Ends S _ _ Q fs d (
                      replace_staged-Ends (holds m) _ fs d
                        (λ fs. bind-Ends S (read_staged_mutation document_sha256) _ Q fs d' (
                          read_staged_mutation-Ends _ fs d' _ (read_staged-holds m d'.staged refl v)
                            (λ fs. ends done) after t))
                        failed after s))
                    failed s)))))
              failed s))

    -- The exchange of an empty file and its removal, with the disk in between.
    remove_staged-Ends :
        (Q : Result SubscriptionAccountStoreError (Unit {0}) → Disk → Type 0) (faults : List Fault)
        (d : Disk)
        → Q (ok tt) (with_staged absent d)
        → Q (err write_failed) d
        → Q (err write_failed) (with_staged absent d)
        → S d
        → Q (err write_failed) (with_staged invalid d)
        → S (with_staged invalid d)
        → Ends Q S (remove_staged document_sha256 d.staged.identity faults d)
    unfolding remove_staged unlink_staged Then
    remove_staged-Ends Q faults d done failed after s torn t = seq-Ends S _ _ Q faults d (
        replace_staged-Ends invalid _ faults d
          (λ fs. call-Ends S write_failed _ Q fs (with_staged invalid d) done torn after t) failed
          torn s)

    -- A staged mutation of that intent is removed.
    pub clear_staged_mutation-Ends :
        (k : ℕ) (m : StagedMutation)
        (Q : Result SubscriptionAccountStoreError (Unit {0}) → Disk → Type 0) (faults : List Fault)
        (d : Disk)
        → d.staged.contents ≡ holds m
        → validate_staged_mutation document_sha256 m ≡ true
        → m.intent_id ≡ k
        → Q (ok tt) (with_staged absent d)
        → Q (err write_failed) d
        → Q (err write_failed) (with_staged absent d)
        → S d
        → Q (err write_failed) (with_staged invalid d)
        → S (with_staged invalid d)
        → Ends Q S (clear_staged_mutation document_sha256 k faults d)
    unfolding clear_staged_mutation Then
    clear_staged_mutation-Ends k m Q faults d e v same_intent done failed after s torn t =
        bind-Ends S (read_staged_mutation document_sha256) _ Q faults d (
          read_staged_mutation-Ends _ faults d _ (read_staged-holds m d.staged e v)
            (λ rest.
              rw ((==_iff m.intent_id k).1 same_intent)
                (remove_staged-Ends Q rest d done failed after s torn t))
            failed s)
