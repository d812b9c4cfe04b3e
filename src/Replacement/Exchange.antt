-- ===== src/Replacement/Exchange.antt =====
-- The exchange of an existing file with its replacement, in `replace_with_mode` of
-- crates/routing-service/src/config/managed_file.rs.
use muxvia.Prelude.{Bool, true, false, ◌&&◌, Option, none, some}
use muxvia.Effects.{pure, raise, ◌>>=◌, ◌>>◌, attempt}
use muxvia.Replacement.{
  FileIdentity, ManagedFileError, write_failed, recovery_required, target_name, temporary_name,
  FileAction, same_inode, identity_eq, file_identity_at, exchange, rename_noreplace, unlink,
  sync_directory, ensure,
}

-- An error, with whether the temporary file is retained.
pub record Refusal : Type 0 where
  pub error : ManagedFileError
  pub retain_temporary : Bool

abbrev pub retained : ManagedFileError → Refusal
retained e = record { error = e; retain_temporary = true }

abbrev pub released : ManagedFileError → Refusal
released e = record { error = e; retain_temporary = false }

-- What follows a rollback: `rolled_back` is that every step of it worked.
unfoldable pub conclude_rollback : {A : Type 0} → Option (Unit {0}) → FileAction Refusal A
conclude_rollback none = raise (retained recovery_required)
conclude_rollback (some x) = raise (released write_failed)

module _ (expected written_identity : FileIdentity) where
  -- The files are exchanged back, if the displaced one is the expected one, changed in place.
  unfoldable pub exchange_back :
      (displaced installed : FileIdentity) → FileAction (Unit {0}) (Unit {0})
  unfolding same_inode identity_eq exchange file_identity_at sync_directory ensure
  exchange_back displaced installed = do
    ensure tt (same_inode displaced expected)
    exchange tt
    back ← file_identity_at tt target_name
    ensure tt (identity_eq back displaced)
    out ← file_identity_at tt temporary_name
    ensure tt (identity_eq out installed)
    sync_directory tt

  -- The original file is put back after the directory could not be synchronized.
  unfoldable pub restore_original : (remove_file : Bool) → FileAction (Unit {0}) (Unit {0})
  unfolding identity_eq exchange rename_noreplace file_identity_at sync_directory ensure
  restore_original true = do
    rename_noreplace tt temporary_name target_name
    back ← file_identity_at tt target_name
    ensure tt (identity_eq back expected)
    sync_directory tt
  restore_original false = do
    exchange tt
    back ← file_identity_at tt target_name
    ensure tt (identity_eq back expected)
    out ← file_identity_at tt temporary_name
    ensure tt (identity_eq out written_identity)
    sync_directory tt

  unfoldable pub remove_target : (remove_file : Bool) → FileAction Refusal (Unit {0})
  unfolding unlink ensure
  remove_target false = pure tt
  remove_target true = do
    found ← unlink (retained recovery_required) target_name
    ensure (retained recovery_required) found

  unfoldable pub undo_mismatch :
      (displaced installed : FileIdentity) (matches : Bool) → FileAction Refusal (Unit {0})
  unfolding exchange_back conclude_rollback
  undo_mismatch displaced installed true = pure tt
  undo_mismatch displaced installed false = do
    rolled_back ← attempt (exchange_back displaced installed)
    conclude_rollback rolled_back

  unfoldable pub settle_exchange :
      (remove_file : Bool) → Option (Unit {0}) → FileAction Refusal (Unit {0})
  unfolding restore_original conclude_rollback
  settle_exchange remove_file (some x) = pure tt
  settle_exchange remove_file none = do
    rolled_back ← attempt (restore_original remove_file)
    conclude_rollback rolled_back

  unfoldable pub replace_existing : (remove_file : Bool) → FileAction Refusal (Unit {0})
  unfolding exchange file_identity_at identity_eq undo_mismatch remove_target sync_directory
      settle_exchange
  replace_existing remove_file = do
    exchange (released write_failed)
    displaced ← file_identity_at (retained recovery_required) temporary_name
    installed ← file_identity_at (retained recovery_required) target_name
    undo_mismatch displaced installed
        (identity_eq displaced expected && identity_eq installed written_identity)
    remove_target remove_file
    synced ← attempt (sync_directory tt)
    settle_exchange remove_file synced
