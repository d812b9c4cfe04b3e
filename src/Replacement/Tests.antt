-- ===== src/Replacement/Tests.antt =====
-- Replacements at concrete files, of crates/routing-service/src/config/managed_file.rs.
use muxvia.Prelude.{ℕ, ◌≡◌, refl, true, false, some, [], ◌∷◌, Bytes, length}
use muxvia.Accounts.{pos}
use muxvia.Effects.{ok, works, fails, returned, ◌>>◌}
use muxvia.Effects.Ends.{Ends}
use muxvia.Replacement.{
  FileIdentity, Stat, File, missing, regular, at, identity_eq, option_eq, unsigned,
  file_identity_from_stat,
}
use muxvia.Replacement.Races.{id_of, dir, Settled, Held, replace_existing-Holds}
use muxvia.Replacement.Exchange.{replace_existing}
use muxvia.Replacement.Atomic.{Finished, Survives, replace_with_mode-Replaces}
use muxvia.Replacement.Write.{file_of, replace_with_mode}
use muxvia.Replacement.Read.{read}
use muxvia.Replacement.Working.{read-replace_with_mode}

-- A new file of the device 1 has the inode 8.
abbrev stat_of : ℕ → Bytes → Stat
stat_of mode bytes = record {
  st_dev = 1;
  st_ino = 8;
  st_mtime = pos 60;
  st_mtime_nsec = pos 5;
  st_size = pos (length bytes);
  st_mode = mode;
}

abbrev config : File
config = record {
  stat = record {
    st_dev = 1;
    st_ino = 7;
    st_mtime = pos 40;
    st_mtime_nsec = pos 0;
    st_size = pos 2;
    st_mode = 420;
  };
  bytes = 123 ∷ 125 ∷ [];
}

-- What another process has put in its place.
abbrev intruder : File
intruder = record { stat = stat_of 420 (91 ∷ []); bytes = 91 ∷ [] }

abbrev expected : FileIdentity
expected = record {
  exists = true;
  device = some 1;
  inode = some 7;
  modified_seconds = some 40;
  modified_nanoseconds = some 0;
  length = some 2;
  mode = some 420;
}

abbrev desired_bytes : Bytes
desired_bytes = 91 ∷ 93 ∷ []

config_is_expected : identity_eq (id_of config) expected ≡ true
unfolding identity_eq option_eq unsigned file_identity_from_stat
config_is_expected = refl

replace_existing-Holds_example :
    Ends
      (Settled expected (id_of (file_of stat_of 420 desired_bytes)) false intruder config)
      (Held expected (id_of (file_of stat_of 420 desired_bytes)) false intruder config)
      (replace_existing expected
        (id_of (file_of stat_of 420 desired_bytes))
        false
        (works ∷ works ∷ fails ∷ [])
        (dir (at 1 2) (regular intruder) (regular config)))
replace_existing-Holds_example =
    replace_existing-Holds expected (id_of (file_of stat_of 420 desired_bytes)) false intruder
      config (at 1 2) (works ∷ works ∷ fails ∷ [])

replace_with_mode-Replaces_example :
    Ends
      (Finished stat_of 420 expected desired_bytes true (regular config))
      (Survives stat_of 420 expected desired_bytes true (regular config))
      (replace_with_mode
        (1, 2)
        stat_of
        expected
        desired_bytes
        true
        420
        (works ∷ works ∷ [])
        (dir (at 1 2) (regular config) missing))
replace_with_mode-Replaces_example =
    replace_with_mode-Replaces stat_of 420 expected desired_bytes true (regular config) (1, 2)
      (at 1 2) (works ∷ works ∷ [])

read-replace_with_mode_example :
    (replace_with_mode (1, 2) stat_of expected desired_bytes false 420 >> read) []
      (dir (at 1 2) (regular config) missing)
    ≡ returned
        (ok
          (record { identity = id_of (file_of stat_of 420 desired_bytes); bytes = desired_bytes }))
        []
        (dir (at 1 2) (regular (file_of stat_of 420 desired_bytes)) missing)
read-replace_with_mode_example =
    read-replace_with_mode (1, 2) stat_of 420 expected desired_bytes 1 2 config config_is_expected
