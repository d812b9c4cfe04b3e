-- ===== src/AccountStore/Working.antt =====
-- The operations of the account store when every call works.
use muxvia.Prelude.{ℕ, ◌≡◌, refl, ap, ◌∙◌, true, Option, some, [], same_self, ==_iff}
use muxvia.Text.{Text}
use muxvia.Effects.{ok, returned, call, transact}
use muxvia.Effects.Works.{bind_works, seq_works}
use muxvia.Accounts.{
  SubscriptionAccountDocument, validate_document, SubscriptionAccountDocument-discrete,
}
use muxvia.AccountStore.{
  FileContents, absent, invalid, holds, StagedMutation, SubscriptionAccountFileSnapshot, Disk,
  read_document, read, write_document, replace, validate_staged_mutation, read_staged,
  read_staged_mutation, replace_staged, unlink_staged, remove_staged, clear_staged_mutation,
}
use muxvia.AccountStore.Calls.{
  replace_file-same, with_document, with_staged, read_document-holds, read_staged-holds,
}

pub read_works :
    (d : Disk) (x : SubscriptionAccountFileSnapshot)
    → read_document d.file ≡ ok x
    → read [] d ≡ returned (ok x) [] d
unfolding read transact call
read_works d x e = ap (λ r. returned r [] d) e

write_works :
    (i : ℕ) (y : SubscriptionAccountDocument) (d : Disk)
    → d.file.identity ≡ i
    → write_document i y [] d ≡ returned (ok tt) [] (with_document y d)
unfolding write_document call
write_works i y d e =
    ap (λ p. returned p.0 [] (record d { file = p.1 })) (replace_file-same i (holds y) d.file e)

pub replace_works :
    (x : SubscriptionAccountFileSnapshot) (y : SubscriptionAccountDocument) (d : Disk)
    → validate_document y ≡ true
    → d.file.identity ≡ x.identity
    → replace x y [] d ≡ returned (ok tt) [] (with_document y d)
unfolding replace
replace_works x y d v e = rw v (
    seq_works _ _ [] [] d (with_document y d) tt (write_works x.identity y d e)
    ∙ bind_works read _ [] [] (with_document y d) (with_document y d) _
        (read_works _ _ (read_document-holds y _ v))
    ∙ rw (same_self SubscriptionAccountDocument-discrete y) refl)

module _ (document_sha256 : SubscriptionAccountDocument → Text) where
  pub read_staged_works :
      (d : Disk) (r : Option (StagedMutation × ℕ))
      → read_staged document_sha256 d.staged ≡ ok r
      → read_staged_mutation document_sha256 [] d ≡ returned (ok r) [] d
  unfolding read_staged_mutation transact call
  read_staged_works d r e = ap (λ x. returned x [] d) e

  replace_staged_works :
      (m : FileContents StagedMutation) (d : Disk)
      → replace_staged document_sha256 d.staged.identity m [] d
        ≡ returned (ok tt) [] (with_staged document_sha256 m d)
  unfolding replace_staged call
  replace_staged_works m d =
      ap (λ p. returned p.0 [] (record d { staged = p.1 }))
        (replace_file-same d.staged.identity m d.staged refl)

  remove_staged_works :
      (d : Disk)
      → remove_staged document_sha256 d.staged.identity [] d
        ≡ returned (ok tt) [] (with_staged document_sha256 absent d)
  unfolding remove_staged unlink_staged call
  remove_staged_works d =
      seq_works (replace_staged document_sha256 d.staged.identity invalid) _ [] [] d
        (with_staged document_sha256 invalid d) tt (replace_staged_works invalid d)

  pub clear_works :
      (k : ℕ) (m : StagedMutation) (d : Disk)
      → d.staged.contents ≡ holds m
      → validate_staged_mutation document_sha256 m ≡ true
      → m.intent_id ≡ k
      → clear_staged_mutation document_sha256 k [] d
        ≡ returned (ok tt) [] (with_staged document_sha256 absent d)
  unfolding clear_staged_mutation
  clear_works k m d e v i =
      bind_works (read_staged_mutation document_sha256) _ [] [] d d (some (m, d.staged.identity))
        (read_staged_works d _ (read_staged-holds document_sha256 m d.staged e v))
      ∙ rw ((==_iff m.intent_id k).1 i) (remove_staged_works d)
