-- ===== src/Replacement.antt =====
-- `ManagedFile` of crates/routing-service/src/config/managed_file.rs: the replacement of a
-- configuration file by way of a temporary file beside it. The state is the directory of the file,
-- as far as its two names go. A system call that reports an error has had no effect, but for a
-- write; the process may stop before any of them. The hooks, which in_configuration_home leaves
-- out, are not modelled.
pub mod Exchange
pub mod Install
pub mod Write
pub mod Calls
pub mod Read
pub mod Races
pub mod Absence
pub mod Closing
pub mod Atomic
pub mod Working
mod Tests
use muxvia.Prelude.{
  ℕ, ◌^◌, ◌%◌, Bool, true, false, not, ◌&&◌, ◌||◌, Option, none, some, Bytes, ltb, ◌==◌,
  if◌then◌else◌,
}
use muxvia.Accounts.{ℤ, pos, negsuc}
use muxvia.Effects.{Result, ok, err, Action, pure, raise, call, transact, ◌>>=◌, ◌>>◌, attempt}

pub record FileIdentity : Type 0 where
  pub exists : Bool
  pub device : Option ℕ
  pub inode : Option ℕ
  pub modified_seconds : Option ℕ
  pub modified_nanoseconds : Option ℕ
  pub length : Option ℕ
  pub mode : Option ℕ

pub data ManagedFileError : Type 0 where
  write_failed recovery_required : ManagedFileError

-- What fstat reports of a file.
pub record Stat : Type 0 where
  pub st_dev : ℕ
  pub st_ino : ℕ
  pub st_mtime : ℤ
  pub st_mtime_nsec : ℤ
  pub st_size : ℤ
  pub st_mode : ℕ

pub record File : Type 0 where
  pub stat : Stat
  pub bytes : Bytes

-- What a name stands for; `special` is neither missing nor a regular file.
pub data Entry : Type 0 where
  missing special : Entry
  regular : File → Entry

-- What the path of the parent stands for: nothing, a link or another thing, a directory.
pub data Parent : Type 0 where
  nowhere linked : Parent
  at : (device inode : ℕ) → Parent

pub record Directory : Type 0 where
  pub parent : Parent
  pub target : Entry
  pub temporary : Entry

pub data Name : Type 0 where
  target_name temporary_name : Name

abbrev pub entry : Name → Directory → Entry
entry target_name d = d.target
entry temporary_name d = d.temporary

abbrev pub with_entry : Name → Entry → Directory → Directory
with_entry target_name e d = record d { target = e }
with_entry temporary_name e d = record d { temporary = e }

abbrev pub FileAction : Type 0 → Type 0 → Type 0
FileAction E A = Action Directory E A

unfoldable pub option_eq : Option ℕ → Option ℕ → Bool
option_eq none none = true
option_eq (some a) (some b) = a == b
option_eq _ _ = false

unfoldable pub same_inode : FileIdentity → FileIdentity → Bool
unfolding option_eq
same_inode x y = x.exists && y.exists && option_eq x.device y.device && option_eq x.inode y.inode

-- The derived `==`.
unfoldable pub identity_eq : FileIdentity → FileIdentity → Bool
unfolding option_eq
identity_eq x y =
    (if x.exists then y.exists else not y.exists)
    && option_eq x.device y.device
    && option_eq x.inode y.inode
    && option_eq x.modified_seconds y.modified_seconds
    && option_eq x.modified_nanoseconds y.modified_nanoseconds
    && option_eq x.length y.length
    && option_eq x.mode y.mode

abbrev pub missing_file_identity : FileIdentity
missing_file_identity = record {
  exists = false;
  device = none;
  inode = none;
  modified_seconds = none;
  modified_nanoseconds = none;
  length = none;
  mode = none;
}

-- `try_from(i).ok()` for an unsigned integer of `w` bits.
unfoldable pub unsigned : ℕ → ℤ → Option ℕ
unsigned w (pos n) = if ltb n (2 ^ w) then some n else none
unsigned w (negsuc n) = none

abbrev pub permission_bits : ℕ → ℕ
permission_bits mode = mode % 512

unfoldable pub file_identity_from_stat : Stat → FileIdentity
unfolding unsigned
file_identity_from_stat stat = record {
  exists = true;
  device = some stat.st_dev;
  inode = some stat.st_ino;
  modified_seconds = unsigned 64 stat.st_mtime;
  modified_nanoseconds = unsigned 32 stat.st_mtime_nsec;
  length = unsigned 64 stat.st_size;
  mode = some (permission_bits stat.st_mode);
}

module _ {E : Type 0} (e : E) where
  unfoldable pub entry_identity : Entry → Result E FileIdentity
  unfolding file_identity_from_stat
  entry_identity missing = ok missing_file_identity
  entry_identity special = err e
  entry_identity (regular file) = ok (file_identity_from_stat file.stat)

  unfoldable pub file_identity_at : Name → FileAction E FileIdentity
  unfolding transact entry_identity
  file_identity_at name = transact e (λ d. (entry_identity (entry name d), d))

  -- renameat2 with RENAME_EXCHANGE.
  abbrev pub exchanged : Entry → Entry → Directory → Result E (Unit {0}) × Directory
  exchanged missing y d = (err e, d)
  exchanged x missing d = (err e, d)
  exchanged x y d = (ok tt, record d { target = y; temporary = x })

  unfoldable pub exchange : FileAction E (Unit {0})
  unfolding transact
  exchange = transact e (λ d. exchanged d.target d.temporary d)

  -- renameat2 with RENAME_NOREPLACE.
  abbrev pub renamed : Name → Name → Entry → Entry → Directory → Result E (Unit {0}) × Directory
  renamed from to missing y d = (err e, d)
  renamed from to x missing d = (ok tt, with_entry to x (with_entry from missing d))
  renamed from to x y d = (err e, d)

  unfoldable pub rename_noreplace : Name → Name → FileAction E (Unit {0})
  unfolding transact
  rename_noreplace from to = transact e (λ d. renamed from to (entry from d) (entry to d) d)

  -- unlinkat, which finds the file or not; NOENT is an answer of its own.
  abbrev pub unlinked : Name → Entry → Directory → Result E Bool × Directory
  unlinked name missing d = (ok false, d)
  unlinked name x d = (ok true, with_entry name missing d)

  unfoldable pub unlink : Name → FileAction E Bool
  unfolding transact
  unlink name = transact e (λ d. unlinked name (entry name d) d)

  unfoldable pub sync_directory : FileAction E (Unit {0})
  unfolding transact
  sync_directory = transact e (λ d. (ok tt, d))

  unfoldable pub ensure : Bool → FileAction E (Unit {0})
  ensure true = pure tt
  ensure false = raise e

-- The checks after the removal, which both of its answers share.
unfoldable pub verify_cleanup : FileAction ManagedFileError (Unit {0})
unfolding file_identity_at ensure sync_directory
verify_cleanup = do
  gone ← file_identity_at recovery_required temporary_name
  ensure recovery_required (not gone.exists)
  sync_directory recovery_required
  still ← file_identity_at recovery_required temporary_name
  ensure recovery_required (not still.exists)

unfoldable pub cleanup_temporary : FileAction ManagedFileError (Unit {0})
unfolding unlink verify_cleanup
cleanup_temporary = do unlink recovery_required temporary_name; verify_cleanup
