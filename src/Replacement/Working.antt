-- ===== src/Replacement/Working.antt =====
-- The replacement and the reading of a file, crates/routing-service/src/config/managed_file.rs,
-- where every call works.
use muxvia.Prelude.{
  ℕ, ◌≡◌, refl, sym, ap, ◌∙◌, true, false, Bool, Option, some, none, [], Bytes, ==_iff, not,
  if◌then◌else◌,
}
use muxvia.Effects.{ok, returned, transact, call, attempt, ◌>>=◌, ◌>>◌}
use muxvia.Effects.Works.{bind_works, seq_works}
use muxvia.Replacement.{
  Entry, Directory, FileAction, FileIdentity, Stat, File, missing, regular, Parent, at, option_eq,
  identity_eq, ensure, entry_identity, file_identity_at, file_identity_from_stat, exchange,
  sync_directory, unlink, cleanup_temporary, verify_cleanup,
}
use muxvia.Replacement.Exchange.{
  Refusal, replace_existing, undo_mismatch, remove_target, settle_exchange,
}
use muxvia.Replacement.Races.{id_of, dir}
use muxvia.Replacement.Write.{
  file_of, is_parent, path_matches_directory, stat_directory, create_private_parent, open_directory,
  create_temporary, set_mode, write_temporary, exchange_written, exchange_temporary, install,
  conclude_replacement, concluded, replace_in_parent, replace_with_mode,
}
use muxvia.Replacement.Closing.{exists_agrees}
use muxvia.Replacement.Read.{read, read_in, read_bytes}

option_eq_refl : (a : Option ℕ) → option_eq a a ≡ true
unfolding option_eq
option_eq_refl none = refl
option_eq_refl (some a) = (==_iff a a).1 refl

exists_refl : (b : Bool) → (if b then b else not b) ≡ true
exists_refl true = refl
exists_refl false = refl

identity_eq_refl : (i : FileIdentity) → identity_eq i i ≡ true
unfolding identity_eq
identity_eq_refl i =
    rw
      (
        exists_refl i.exists,
        option_eq_refl i.device,
        option_eq_refl i.inode,
        option_eq_refl i.modified_seconds,
        option_eq_refl i.modified_nanoseconds,
        option_eq_refl i.length,
        option_eq_refl i.mode,
      )
      refl

exists-id_of : (x : File) → (id_of x).exists ≡ true
unfolding file_identity_from_stat
exists-id_of x = refl

path_matches-works :
    {E : Type 0} (a b : ℕ) (t u : Entry)
    → path_matches_directory {E = E} a b [] (dir (at a b) t u)
      ≡ returned (ok true) [] (dir (at a b) t u)
unfolding path_matches_directory is_parent transact call attempt ◌>>=◌
path_matches-works a b t u = rw ((==_iff a a).1 refl, (==_iff b b).1 refl) refl

read_bytes-works :
    (p : Parent) (x : File)
    → read_bytes (id_of x) true [] (dir p (regular x) missing)
      ≡ returned (ok x.bytes) [] (dir p (regular x) missing)
unfolding read_bytes transact call ensure ◌>>=◌ ◌>>◌
read_bytes-works p x = rw (identity_eq_refl (id_of x)) refl

read-works :
    (a b : ℕ) (x : File)
    → read [] (dir (at a b) (regular x) missing)
      ≡ returned
          (ok (record { identity = id_of x; bytes = x.bytes }))
          []
          (dir (at a b) (regular x) missing)
unfolding read read_in stat_directory ensure file_identity_at entry_identity transact call ◌>>=◌
    ◌>>◌ file_identity_from_stat
read-works a b x =
    let d : Directory = dir (at a b) (regular x) missing in
    bind_works (path_matches_directory a b) _ [] [] d d true (path_matches-works a b _ _)
    ∙ bind_works (read_bytes (id_of x) true) _ [] [] d d x.bytes (read_bytes-works (at a b) x)

-- A replacement whose calls work, of a file by another.
replace_existing-works :
    (expected : FileIdentity) (p : Parent) (x y : File)
    → identity_eq (id_of x) expected ≡ true
    → replace_existing expected (id_of y) false [] (dir p (regular x) (regular y))
      ≡ returned (ok tt) [] (dir p (regular y) (regular x))
unfolding replace_existing exchange undo_mismatch remove_target settle_exchange sync_directory
    file_identity_at entry_identity transact call attempt ◌>>=◌ ◌>>◌
replace_existing-works expected p x y h = rw (h, identity_eq_refl (id_of y)) refl

module _ (expected : FileIdentity) (a b : ℕ) (x : File)
    (h : identity_eq (id_of x) expected ≡ true) where
  exchange_written-works :
      (y : File)
      → exchange_written expected (id_of y) false a b [] (dir (at a b) (regular x) (regular y))
        ≡ returned (ok tt) [] (dir (at a b) (regular y) (regular x))
  unfolding exchange_written ensure file_identity_at entry_identity transact call install ◌>>=◌ ◌>>◌
  exchange_written-works y =
      let d : Directory = dir (at a b) (regular x) (regular y) in
      let e : expected.exists ≡ true = sym (exists_agrees (id_of x) expected h) ∙ exists-id_of x in
      bind_works (path_matches_directory a b) _ [] [] d d true (path_matches-works a b _ _)
      ∙ rw (identity_eq_refl (id_of y), h)
          (ap (λ exists. install expected (id_of y) false exists [] d) e
            ∙ replace_existing-works expected (at a b) x y h)

  concluded-works :
      (m : FileAction Refusal (Unit {0})) (u : Directory) (t : Entry)
      → m [] u ≡ returned (ok tt) [] (dir (at a b) t (regular x))
      → concluded m [] u ≡ returned (ok tt) [] (dir (at a b) t missing)
  unfolding concluded conclude_replacement cleanup_temporary verify_cleanup unlink sync_directory
      ensure file_identity_at entry_identity transact call ◌>>=◌ ◌>>◌
  concluded-works m u t e = rw (concluded, e) refl

  replace_in_parent-works :
      (stat_of : ℕ → Bytes → Stat) (mode : ℕ) (bytes : Bytes)
      → replace_in_parent stat_of expected bytes false mode [] (dir (at a b) (regular x) missing)
        ≡ returned (ok tt) [] (dir (at a b) (regular (file_of stat_of mode bytes)) missing)
  unfolding replace_in_parent open_directory stat_directory ensure file_identity_at entry_identity
      transact call create_temporary set_mode exchange_temporary write_temporary ◌>>=◌ ◌>>◌
  replace_in_parent-works stat_of mode bytes =
      let d : Directory = dir (at a b) (regular x) missing in
      bind_works (path_matches_directory a b) _ [] [] d d true (path_matches-works a b _ _)
      ∙ rw h (
          concluded-works (exchange_temporary stat_of mode expected bytes false a b)
            (dir (at a b) (regular x) (regular (file_of stat_of mode []))) _
            (exchange_written-works (file_of stat_of mode bytes)))

-- A replacement whose calls work writes the bytes, keeps nothing beside them, and the next read
-- gives them with the identity that the file system recorded. The parent is a directory, the file
-- that it holds has the expected identity, and no file has the temporary name.
pub read-replace_with_mode :
    (made : ℕ × ℕ) (stat_of : ℕ → Bytes → Stat) (mode : ℕ) (expected : FileIdentity) (bytes : Bytes)
    (a b : ℕ) (x : File)
    → identity_eq (id_of x) expected ≡ true
    → (replace_with_mode made stat_of expected bytes false mode >> read) []
        (dir (at a b) (regular x) missing)
      ≡ returned
          (ok (record { identity = id_of (file_of stat_of mode bytes); bytes = bytes }))
          []
          (dir (at a b) (regular (file_of stat_of mode bytes)) missing)
unfolding replace_with_mode create_private_parent call ◌>>=◌ ◌>>◌
read-replace_with_mode made stat_of mode expected bytes a b x h =
    seq_works (replace_with_mode made stat_of expected bytes false mode) read [] []
      (dir (at a b) (regular x) missing)
      (dir (at a b) (regular (file_of stat_of mode bytes)) missing) tt
      (replace_in_parent-works expected a b x h stat_of mode bytes)
    ∙ read-works a b (file_of stat_of mode bytes)
