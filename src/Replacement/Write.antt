-- ===== src/Replacement/Write.antt =====
-- `replace` and `replace_with_mode` of crates/routing-service/src/config/managed_file.rs.
use muxvia.Prelude.{ℕ, Bool, true, false, ◌&&◌, ◌==◌, Option, none, some, [], Bytes}
use muxvia.Effects.{
  Result, ok, err, returned, stopped, pure, raise, call, transact, ◌>>=◌, ◌>>◌, attempt,
}
use muxvia.Replacement.{
  FileIdentity, ManagedFileError, write_failed, Stat, File, Entry, missing, regular, Parent,
  nowhere, at, Directory, target_name, temporary_name, FileAction, identity_eq,
  file_identity_from_stat, file_identity_at, ensure, cleanup_temporary,
}
use muxvia.Replacement.Exchange.{Refusal, released, replace_existing}
use muxvia.Replacement.Install.{replace_absent}

unfoldable pub is_parent : (device inode : ℕ) → Parent → Bool
is_parent device inode (at x y) = (x == device) && (y == inode)
is_parent device inode _ = false

-- Whether the path of the parent still stands for the directory that was opened; a call that fails
-- counts as no.
unfoldable pub path_matches_directory : {E : Type 0} → (device inode : ℕ) → FileAction E Bool
unfolding is_parent
path_matches_directory device inode = do
  parent ← attempt (transact tt (λ d. (ok d.parent, d)))
  pure (matches parent)
  where
    matches : Option Parent → Bool
    matches none = false
    matches (some parent) = is_parent device inode parent

-- The calls that lead to the temporary file. `made` is the identity of a directory that is made.
module _ (made : ℕ × ℕ) where
  abbrev pub created_parent : Parent → Parent
  created_parent nowhere = at made.0 made.1
  created_parent parent = parent

  unfoldable pub create_private_parent : FileAction ManagedFileError (Unit {0})
  create_private_parent =
      call write_failed (λ d. (ok tt, record d { parent = created_parent d.parent }))

abbrev pub opened : Parent → Result ManagedFileError (ℕ × ℕ)
opened (at device inode) = ok (device, inode)
opened _ = err write_failed

unfoldable pub open_directory : FileAction ManagedFileError (ℕ × ℕ)
open_directory = transact write_failed (λ d. (opened d.parent, d))

-- The identity of the directory that was opened.
unfoldable pub stat_directory : FileAction ManagedFileError (Unit {0})
stat_directory = transact write_failed (λ d. (ok tt, d))

-- fchmod to the mode of the creation; the identity is read after it.
unfoldable pub set_mode : FileAction ManagedFileError (Unit {0})
set_mode = transact write_failed (λ d. (ok tt, d))

-- Where the file was or was not.
unfoldable pub install :
    (expected written_identity : FileIdentity) (remove_file exists : Bool)
    → FileAction Refusal (Unit {0})
unfolding replace_existing replace_absent
install expected written_identity remove_file true =
    replace_existing expected written_identity remove_file
install expected written_identity remove_file false = replace_absent written_identity

-- `stat_of` is what the file system records of a file: of the bytes that it holds, and of the mode
-- that it was created with.
module _ (stat_of : ℕ → Bytes → Stat) (mode : ℕ) where
  abbrev pub file_of : Bytes → File
  file_of bytes = record { stat = stat_of mode bytes; bytes = bytes }

  abbrev pub created : Entry → Directory → Result ManagedFileError (Unit {0}) × Directory
  created missing d = (ok tt, record d { temporary = regular (file_of []) })
  created x d = (err write_failed, d)

  unfoldable pub create_temporary : FileAction ManagedFileError (Unit {0})
  create_temporary = transact write_failed (λ d. created d.temporary d)

  -- write_all, flush and sync_all, then fstat of the file that is open.
  unfoldable pub write_temporary : Bytes → FileAction Refusal FileIdentity
  unfolding file_identity_from_stat
  write_temporary bytes = do
    call (released write_failed) (λ d. (ok tt, record d { temporary = regular (file_of bytes) }))
    transact (released write_failed) (λ d. (ok (file_identity_from_stat (stat_of mode bytes)), d))

-- The checks after the write, and the exchange.
unfoldable pub exchange_written :
    (expected written_identity : FileIdentity) (remove_file : Bool) (device inode : ℕ)
    → FileAction Refusal (Unit {0})
unfolding path_matches_directory ensure file_identity_at identity_eq install
exchange_written expected written_identity remove_file device inode = do
  is_there ← path_matches_directory device inode
  ensure (released write_failed) is_there
  written ← file_identity_at (released write_failed) temporary_name
  ensure (released write_failed) (identity_eq written written_identity)
  current ← file_identity_at (released write_failed) target_name
  ensure (released write_failed) (identity_eq current expected)
  install expected written_identity remove_file expected.exists

-- The closure of replace_with_mode.
unfoldable pub exchange_temporary :
    (stat_of : ℕ → Bytes → Stat) (mode : ℕ) (expected : FileIdentity) (bytes : Bytes)
    (remove_file : Bool) (device inode : ℕ)
    → FileAction Refusal (Unit {0})
unfolding write_temporary exchange_written
exchange_temporary stat_of mode expected bytes remove_file device inode = do
  written_identity ← write_temporary stat_of mode bytes
  exchange_written expected written_identity remove_file device inode

unfoldable pub conclude_replacement :
    Result Refusal (Unit {0}) → FileAction ManagedFileError (Unit {0})
unfolding cleanup_temporary
conclude_replacement (ok x) = cleanup_temporary
conclude_replacement (err refusal) = elim refusal.retain_temporary [
  | true ↦ raise refusal.error
  | false ↦ do cleanup_temporary; raise refusal.error
]

-- The closure's result, in hand.
unfoldable pub concluded : FileAction Refusal (Unit {0}) → FileAction ManagedFileError (Unit {0})
unfolding conclude_replacement
concluded m faults d = elim (m faults d) [
  | returned result rest d' ↦ conclude_replacement result rest d'
  | stopped d' ↦ stopped d'
]

-- What follows the creation of the parent.
unfoldable pub replace_in_parent :
    (stat_of : ℕ → Bytes → Stat) (expected : FileIdentity) (bytes : Bytes) (remove_file : Bool)
    (mode : ℕ)
    → FileAction ManagedFileError (Unit {0})
unfolding open_directory stat_directory path_matches_directory ensure file_identity_at identity_eq
    create_temporary set_mode exchange_temporary concluded
replace_in_parent stat_of expected bytes remove_file mode = do
  directory ← open_directory
  stat_directory
  is_there ← path_matches_directory directory.0 directory.1
  ensure write_failed is_there
  current ← file_identity_at write_failed target_name
  ensure write_failed (identity_eq current expected)
  create_temporary stat_of mode
  set_mode
  concluded (exchange_temporary stat_of mode expected bytes remove_file directory.0 directory.1)

module _ (made : ℕ × ℕ) (stat_of : ℕ → Bytes → Stat) where
  unfoldable pub replace_with_mode :
      (expected : FileIdentity) (bytes : Bytes) (remove_file : Bool) (mode : ℕ)
      → FileAction ManagedFileError (Unit {0})
  unfolding create_private_parent replace_in_parent
  replace_with_mode expected bytes remove_file mode = do
    create_private_parent made
    replace_in_parent stat_of expected bytes remove_file mode

  abbrev mode_or : Option ℕ → ℕ
  mode_or none = 384
  mode_or (some mode) = mode

  unfoldable pub replace :
      (expected : FileIdentity) (bytes : Bytes) (remove_file : Bool)
      → FileAction ManagedFileError (Unit {0})
  unfolding replace_with_mode
  replace expected bytes remove_file =
      replace_with_mode expected bytes remove_file (mode_or expected.mode)

  unfoldable pub replace_with_mode_from :
      (expected : FileIdentity) (bytes : Bytes) (remove_file : Bool) (mode_source : FileIdentity)
      → FileAction ManagedFileError (Unit {0})
  unfolding replace_with_mode
  replace_with_mode_from expected bytes remove_file mode_source =
      replace_with_mode expected bytes remove_file (mode_or mode_source.mode)
