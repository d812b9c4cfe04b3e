-- ===== src/Replacement/Read.antt =====
-- `read` of crates/routing-service/src/config/managed_file.rs.
use muxvia.Prelude.{ℕ, Bool, true, false, Option, none, some, [], Bytes}
use muxvia.Effects.{Result, ok, err, pure, transact, ◌>>=◌, ◌>>◌}
use muxvia.Replacement.{
  FileIdentity, ManagedFileError, write_failed, File, Entry, regular, Parent, nowhere, linked, at,
  target_name, FileAction, missing_file_identity, identity_eq, file_identity_from_stat,
  file_identity_at, ensure,
}
use muxvia.Replacement.Write.{path_matches_directory, stat_directory}

pub record ManagedFileContents : Type 0 where
  pub identity : FileIdentity
  pub bytes : Bytes

-- A parent that is missing is no error.
abbrev opened_to_read : Parent → Result ManagedFileError (Option (ℕ × ℕ))
opened_to_read nowhere = ok none
opened_to_read linked = err write_failed
opened_to_read (at device inode) = ok (some (device, inode))

abbrev opened_file : Entry → Result ManagedFileError File
opened_file (regular file) = ok file
opened_file _ = err write_failed

-- The bytes of the file, whose identity must still be the one that was read.
unfoldable pub read_bytes : FileIdentity → Bool → FileAction ManagedFileError Bytes
unfolding identity_eq file_identity_from_stat ensure
read_bytes identity false = pure []
read_bytes identity true = do
  file ← transact write_failed (λ d. (opened_file d.target, d))
  bytes ← transact write_failed (λ d. (ok file.bytes, d))
  stat ← transact write_failed (λ d. (ok file.stat, d))
  ensure write_failed (identity_eq (file_identity_from_stat stat) identity)
  pure bytes

unfoldable pub read_in : Option (ℕ × ℕ) → FileAction ManagedFileError ManagedFileContents
unfolding stat_directory path_matches_directory ensure file_identity_at read_bytes
read_in none = pure (record { identity = missing_file_identity; bytes = [] })
read_in (some directory) = do
  stat_directory
  is_there ← path_matches_directory directory.0 directory.1
  ensure write_failed is_there
  identity ← file_identity_at write_failed target_name
  bytes ← read_bytes identity identity.exists
  pure (record { identity = identity; bytes = bytes })

unfoldable pub read : FileAction ManagedFileError ManagedFileContents
unfolding read_in
read = do directory ← transact write_failed (λ d. (opened_to_read d.parent, d)); read_in directory
