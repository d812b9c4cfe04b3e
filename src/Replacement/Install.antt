-- ===== src/Replacement/Install.antt =====
-- The installation of a file where there was none, in `replace_with_mode` of
-- crates/routing-service/src/config/managed_file.rs.
use muxvia.Prelude.{not, Option, none, some}
use muxvia.Effects.{pure, ◌>>=◌, ◌>>◌, attempt}
use muxvia.Replacement.{
  FileIdentity, write_failed, recovery_required, target_name, temporary_name, FileAction,
  identity_eq, file_identity_at, rename_noreplace, sync_directory, ensure,
}
use muxvia.Replacement.Exchange.{Refusal, retained, released, conclude_rollback}

module _ (written_identity : FileIdentity) where
  -- The file is taken back.
  unfoldable pub restore_absence : FileAction Refusal (Unit {0})
  unfolding rename_noreplace file_identity_at identity_eq ensure sync_directory conclude_rollback
  restore_absence = do
    rename_noreplace (retained recovery_required) target_name temporary_name
    back ← file_identity_at (retained recovery_required) target_name
    ensure (retained recovery_required) (not back.exists)
    out ← file_identity_at (retained recovery_required) temporary_name
    ensure (retained recovery_required) (identity_eq out written_identity)
    synced ← attempt (sync_directory tt)
    conclude_rollback synced

  unfoldable pub settle_install : Option (Unit {0}) → FileAction Refusal (Unit {0})
  unfolding restore_absence
  settle_install (some x) = pure tt
  settle_install none = restore_absence

  unfoldable pub replace_absent : FileAction Refusal (Unit {0})
  unfolding rename_noreplace file_identity_at identity_eq ensure sync_directory settle_install
  replace_absent = do
    rename_noreplace (released write_failed) temporary_name target_name
    installed ← file_identity_at (retained recovery_required) target_name
    ensure (retained recovery_required) (identity_eq installed written_identity)
    synced ← attempt (sync_directory tt)
    settle_install synced
