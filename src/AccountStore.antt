-- ===== src/AccountStore.antt =====
-- `SubscriptionAccountStore` of crates/routing-service/src/subscription/accounts.rs: the file of the
-- accounts and the file of the staged mutation. A managed file is its contents and an identity,
-- which every replacement changes and the next one must name.
pub mod Calls
pub mod Working
use muxvia.Prelude.{
  ℕ, suc, Bool, true, false, not, ◌&&◌, ◌||◌, Option, none, some, bytes_eq, ◌==◌, if◌then◌else◌,
}
use muxvia.Text.{Text}
use muxvia.Effects.{Result, ok, err, Action, pure, raise, call, transact, ◌>>=◌, ◌>>◌, or_raise}
use muxvia.Accounts.{
  SubscriptionAccountDocument, default_document, document_eq, is_empty, document_version,
  validate_document,
}
use muxvia.Catalog.{Catalog}

-- `invalid`: a mode other than 0600, or a text that serde refuses.
pub data FileContents (A : Type 0) : Type 0 where
  absent invalid : FileContents A
  holds : A → FileContents A

pub record ManagedFile (A : Type 0) : Type 0 where
  pub contents : FileContents A
  pub identity : ℕ

pub record StagedMutation : Type 0 where
  pub version : ℕ
  pub intent_id : ℕ
  pub action_id : ℕ
  pub operation : Text
  pub before : SubscriptionAccountDocument
  pub desired : SubscriptionAccountDocument
  pub before_sha256 : Text
  pub desired_sha256 : Text

pub record SubscriptionAccountFileSnapshot : Type 0 where
  pub document : SubscriptionAccountDocument
  pub identity : ℕ

-- What outlives the service: the two files and the tables of the state store.
pub record Disk : Type 0 where
  pub file : ManagedFile SubscriptionAccountDocument
  pub staged : ManagedFile StagedMutation
  pub catalog : Catalog

pub data SubscriptionAccountStoreError : Type 0 where
  invalid_document write_failed : SubscriptionAccountStoreError

abbrev pub StoreAction : Type 0 → Type 0
StoreAction A = Action Disk SubscriptionAccountStoreError A

-- `ManagedFile::replace`: refused if the file is no longer the one that was read.
unfoldable pub replace_file :
    {A : Type 0}
    → ℕ
    → FileContents A
    → ManagedFile A
    → Result SubscriptionAccountStoreError (Unit {0}) × ManagedFile A
replace_file expected contents f =
    if f.identity == expected
    then (ok tt, record { contents = contents; identity = suc f.identity })
    else (err write_failed, f)

unfoldable pub read_document :
    ManagedFile SubscriptionAccountDocument
    → Result SubscriptionAccountStoreError SubscriptionAccountFileSnapshot
unfolding validate_document default_document
read_document f = checked f.contents
  where
    validated :
        SubscriptionAccountDocument
        → Result SubscriptionAccountStoreError SubscriptionAccountFileSnapshot
    validated document =
        if validate_document document
        then ok (record { document = document; identity = f.identity })
        else err invalid_document

    checked :
        FileContents SubscriptionAccountDocument
        → Result SubscriptionAccountStoreError SubscriptionAccountFileSnapshot
    checked absent = validated default_document
    checked invalid = err invalid_document
    checked (holds document) = validated document

unfoldable pub read : StoreAction SubscriptionAccountFileSnapshot
unfolding transact read_document
read = transact write_failed (λ d. (read_document d.file, d))

unfoldable pub write_document : ℕ → SubscriptionAccountDocument → StoreAction (Unit {0})
unfolding call replace_file
write_document expected desired =
    call write_failed
      (λ d. let (r, f) = replace_file expected (holds desired) d.file in (r, record d { file = f }))

unfoldable pub replace :
    SubscriptionAccountFileSnapshot → SubscriptionAccountDocument → StoreAction (Unit {0})
unfolding write_document read validate_document
replace expected desired =
    if validate_document desired
    then (do
      write_document expected.identity desired
      installed ← read
      if document_eq installed.document desired then pure tt else raise write_failed)
    else raise invalid_document

module _ (document_sha256 : SubscriptionAccountDocument → Text) where
  -- `validate_staged_mutation` succeeds.
  unfoldable pub validate_staged_mutation : StagedMutation → Bool
  validate_staged_mutation m =
      (m.version == document_version)
      && not (is_empty m.operation)
      && bytes_eq m.before_sha256 (document_sha256 m.before)
      && bytes_eq m.desired_sha256 (document_sha256 m.desired)

  -- The mutation and the identity of its file.
  unfoldable pub read_staged :
      ManagedFile StagedMutation
      → Result SubscriptionAccountStoreError (Option (StagedMutation × ℕ))
  unfolding validate_staged_mutation
  read_staged f = checked f.contents
    where
      checked :
          FileContents StagedMutation
          → Result SubscriptionAccountStoreError (Option (StagedMutation × ℕ))
      checked absent = ok none
      checked invalid = err invalid_document
      checked (holds m) =
          if validate_staged_mutation m then ok (some (m, f.identity)) else err invalid_document

  unfoldable pub read_staged_mutation : StoreAction (Option (StagedMutation × ℕ))
  unfolding transact read_staged
  read_staged_mutation = transact write_failed (λ d. (read_staged d.staged, d))

  unfoldable pub replace_staged : ℕ → FileContents StagedMutation → StoreAction (Unit {0})
  unfolding call replace_file
  replace_staged expected contents =
      call write_failed
        (λ d. let (r, f) = replace_file expected contents d.staged in (r, record d { staged = f }))

  unfoldable pub staged_identity : StoreAction ℕ
  unfolding transact
  staged_identity = transact write_failed (λ d. (ok d.staged.identity, d))

  unfoldable pub mutation_of :
      (intent_id action_id : ℕ) (operation : Text) (before desired : SubscriptionAccountDocument)
      → StagedMutation
  mutation_of k a operation before desired = record {
    version = document_version;
    intent_id = k;
    action_id = a;
    operation = operation;
    before = before;
    desired = desired;
    before_sha256 = document_sha256 before;
    desired_sha256 = document_sha256 desired;
  }

  abbrev refuse_earlier : Option (StagedMutation × ℕ) → StoreAction (Unit {0})
  refuse_earlier none = pure tt
  refuse_earlier (some m) = raise invalid_document

  abbrev ok_or : Option (StagedMutation × ℕ) → StoreAction StagedMutation
  ok_or none = raise write_failed
  ok_or (some (m, i)) = pure m

  unfoldable pub stage_mutation :
      (intent_id action_id : ℕ) (operation : Text) (before desired : SubscriptionAccountDocument)
      → StoreAction StagedMutation
  unfolding read_staged_mutation replace_staged staged_identity mutation_of validate_document
  stage_mutation k a operation before desired =
      if validate_document before && validate_document desired && not (is_empty operation)
      then (do
        earlier ← read_staged_mutation
        refuse_earlier earlier
        identity ← staged_identity
        replace_staged identity (holds (mutation_of k a operation before desired))
        staged ← read_staged_mutation
        ok_or staged)
      else raise invalid_document

  unfoldable pub unlink_staged : StoreAction (Unit {0})
  unfolding call
  unlink_staged =
      call write_failed (λ d. (ok tt, record d { staged = record d.staged { contents = absent } }))

  -- `ManagedFile::replace` with no bytes and `remove_file`: an empty file is exchanged in and then
  -- unlinked. No text of a mutation is empty, so a file that is left between the two is invalid. An
  -- exchange that is undone is a first step that fails, and so is an unlinking after which the staged
  -- file is put back since the directory cannot be synced.
  unfoldable pub remove_staged : ℕ → StoreAction (Unit {0})
  unfolding replace_staged unlink_staged
  remove_staged expected = do replace_staged expected invalid; unlink_staged

  unfoldable pub clear_staged_mutation : ℕ → StoreAction (Unit {0})
  unfolding read_staged_mutation remove_staged
  clear_staged_mutation k = do staged ← read_staged_mutation; clear staged
    where
      clear : Option (StagedMutation × ℕ) → StoreAction (Unit {0})
      clear none = pure tt
      clear (some (m, identity)) =
          if m.intent_id == k then remove_staged identity else raise invalid_document
