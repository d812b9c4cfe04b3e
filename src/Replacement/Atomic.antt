-- ===== src/Replacement/Atomic.antt =====
-- `replace_with_mode` of crates/routing-service/src/config/managed_file.rs from its first call to
-- its last.
use muxvia.Prelude.{ℕ, ◌≡◌, refl, ◌∙◌, inl, inr, true, false, Bool, List, [], Bytes}
use muxvia.Effects.{Result, ok, err, Fault, Run, returned, stopped, Action, raise, ◌>>◌}
use muxvia.Effects.Ends.{Ends, ends, stops, Then, bind-Ends, seq-Ends, transact-Ends, call-Ends}
use muxvia.Replacement.{
  FileIdentity, ManagedFileError, write_failed, recovery_required, Stat, File, Entry, missing,
  regular, Parent, Directory, target_name, temporary_name, cleanup_temporary,
}
use muxvia.Replacement.Exchange.{Refusal, released}
use muxvia.Replacement.Races.{dir}
use muxvia.Replacement.Write.{
  created, created_parent, create_private_parent, create_temporary, set_mode, write_temporary,
  file_of, exchange_written, exchange_temporary, conclude_replacement, concluded, stat_directory,
  replace_in_parent, replace_with_mode,
}
use muxvia.Replacement.Calls.{
  look-then, transact-then, ensure-then, Ends-weaken, Cleaned, cleanup_temporary-Ends,
}
use muxvia.Replacement.Closing.{
  exists_agrees, desired, Safe, Stopped, Closed, install-Ends, path-then, open-then,
}

module _ (stat_of : ℕ → Bytes → Stat) (mode : ℕ) (expected : FileIdentity) (bytes : Bytes)
    (remove_file : Bool) (t : Entry) where
  abbrev pub new : File
  new = file_of stat_of mode bytes

  abbrev pub Survives : Directory → Type 0
  Survives = Safe remove_file t new expected.exists

  abbrev Q : Result Refusal (Unit {0}) → Directory → Type 0
  Q = Closed remove_file t new expected.exists

  exchange_written-Ends :
      (p : Parent) (written_identity : FileIdentity) (device inode : ℕ) (faults : List Fault)
      → Ends Q Survives (
          exchange_written expected written_identity remove_file device inode faults
            (dir p t (regular new)))
  unfolding exchange_written Closed Stopped Safe
  exchange_written-Ends p written_identity device inode faults =
      path-then Survives device inode _ Q faults _
        (λ there faults.
          ensure-then Survives _ there _ Q faults _
            (λ same.
              look-then Survives _ temporary_name _ Q faults _
                (λ written found faults.
                  ensure-then Survives _ _ _ Q faults _
                    (λ intact.
                      look-then Survives _ target_name _ Q faults _
                        (λ current seen faults.
                          ensure-then Survives _ _ _ Q faults _
                            (λ unchanged.
                              install-Ends expected written_identity remove_file new
                                (released write_failed) p t current expected.exists faults seen
                                (exists_agrees current expected unchanged))
                            (refl, refl))
                        (refl, refl) (inl refl))
                    (refl, refl))
                (refl, refl) (inl refl))
            (refl, refl))
        (inl refl)

  exchange_temporary-Ends :
      (p : Parent) (device inode : ℕ) (faults : List Fault)
      → Ends Q Survives (
          exchange_temporary stat_of mode expected bytes remove_file device inode faults
            (dir p t (regular (file_of stat_of mode []))))
  unfolding exchange_temporary write_temporary Closed Stopped Safe Then
  exchange_temporary-Ends p device inode faults = bind-Ends Survives _ _ Q faults _ (
      seq-Ends Survives _ _ _ faults _ (
        call-Ends Survives (released write_failed) _ _ faults _
          (λ faults.
            transact-Ends Survives (released write_failed) _ _ faults _
              (λ faults. exchange_written-Ends p _ device inode faults) (refl, refl) (inl refl))
          (refl, refl) (refl, refl) (inl refl)))

  -- The end of a replacement.
  pub data Replaced (d : Directory) : Result ManagedFileError (Unit {0}) → Type 0 where
    replaced :
        d.target ≡ desired remove_file t new expected.exists
        → d.temporary ≡ missing
        → Replaced d (ok tt)
    left_alone : d.target ≡ t → Replaced d (err write_failed)
    recoverable : Survives d → Replaced d (err recovery_required)

  abbrev pub Finished : Result ManagedFileError (Unit {0}) → Directory → Type 0
  Finished r d = Replaced d r

  conclude_replacement-Ends :
      (r : Result Refusal (Unit {0})) (faults : List Fault) (d : Directory)
      → Q r d
      → Ends Finished Survives (conclude_replacement r faults d)
  unfolding conclude_replacement Closed Safe Cleaned Then Stopped
  conclude_replacement-Ends (ok a) faults d h =
      Ends-weaken _ finished (λ d' e. inr (inl (e ∙ h)))
        (cleanup_temporary-Ends d.target d.parent d.temporary faults)
    where
      finished :
          (r : Result ManagedFileError (Unit {0})) (d' : Directory)
          → Cleaned d.target r d'
          → Finished r d'
      finished (ok a) d' (e, gone) = replaced (e ∙ h) gone
      finished (err write_failed) d' (e, k) = cc
      finished (err recovery_required) d' (e, k) = recoverable (inr (inl (e ∙ h)))
  conclude_replacement-Ends (err r) faults d h = refused r.error r.retain_temporary h
    where
      cleaned :
          d.target ≡ t
          → (r : Result ManagedFileError (Unit {0})) (d' : Directory) → Cleaned d.target r d'
          → Then Survives {A = Unit {0}} (λ _. raise {A = Unit {0}} write_failed) Finished r d'
      cleaned k (ok a) d' (e, gone) = λ faults. ends (left_alone (e ∙ k))
      cleaned k (err write_failed) d' (e, f) = cc
      cleaned k (err recovery_required) d' (e, f) = recoverable (inl (e ∙ k))

      refused :
          (e : ManagedFileError) (b : Bool)
          → Stopped remove_file t new expected.exists e b d
          → Ends Finished Survives
              (conclude_replacement (err (record { error = e; retain_temporary = b })) faults d)
      refused recovery_required true (e, k) = ends (recoverable k)
      refused write_failed false (e, k) = seq-Ends Survives cleanup_temporary _ Finished faults d (
          Ends-weaken _ (cleaned k) (λ d' e. inl (e ∙ k))
            (cleanup_temporary-Ends d.target d.parent d.temporary faults))
      refused write_failed true (e, k) = cc
      refused recovery_required false (e, k) = cc

  concluded-Ends :
      (m : Action Directory Refusal (Unit {0})) (faults : List Fault) (d : Directory)
      → Ends Q Survives (m faults d)
      → Ends Finished Survives (concluded m faults d)
  unfolding concluded
  concluded-Ends m faults d h = go (m faults d) h
    where
      go :
          (run : Run Directory Refusal (Unit {0}))
          → Ends Q Survives run
          → Ends Finished Survives (elim run [
            | returned result rest d' ↦ conclude_replacement result rest d'
            | stopped d' ↦ stopped d'
          ])
      go (returned r rest d') (ends q) = conclude_replacement-Ends r rest d' q
      go (stopped d') (stops s) = stops s

  replace_in_parent-Ends :
      (p : Parent) (faults : List Fault)
      → Ends Finished Survives
          (replace_in_parent stat_of expected bytes remove_file mode faults (dir p t missing))
  unfolding replace_in_parent stat_directory create_temporary set_mode Safe
  replace_in_parent-Ends p faults =
      open-then Survives _ Finished faults _
        (λ i faults.
          transact-then Survives write_failed _ tt (dir p t missing) _ Finished faults _ refl
            (λ faults.
              path-then Survives i.0 i.1 _ Finished faults _
                (λ there faults.
                  ensure-then Survives _ there _ Finished faults _
                    (λ same.
                      look-then Survives _ target_name _ Finished faults _
                        (λ current seen faults.
                          ensure-then Survives _ _ _ Finished faults _
                            (λ unchanged. created_then i faults) (left_alone refl))
                        (left_alone refl) (inl refl))
                    (left_alone refl))
                (inl refl))
            (left_alone refl) (inl refl))
        (left_alone refl) (inl refl)
    where
      at_work : Directory
      at_work = dir p t (regular (file_of stat_of mode []))

      created_then :
          (i : ℕ × ℕ) (faults : List Fault)
          → Ends Finished Survives (
              (create_temporary stat_of mode
                  >> (set_mode
                      >> concluded
                          (exchange_temporary stat_of mode expected bytes remove_file i.0 i.1)))
                faults
                (dir p t missing))
      created_then i faults =
          transact-then Survives write_failed (λ d. created stat_of mode d.temporary d) tt at_work
            (set_mode
              >> concluded (exchange_temporary stat_of mode expected bytes remove_file i.0 i.1))
            Finished faults (dir p t missing) refl
            (λ faults.
              transact-then Survives write_failed (λ d. (ok tt, d)) tt at_work
                (concluded (exchange_temporary stat_of mode expected bytes remove_file i.0 i.1))
                Finished faults at_work refl
                (λ faults.
                  concluded-Ends
                    (exchange_temporary stat_of mode expected bytes remove_file i.0 i.1) faults
                    at_work (exchange_temporary-Ends p i.0 i.1 faults))
                (left_alone refl) (inl refl))
            (left_alone refl) (inl refl)

  -- Whatever calls fail and wherever the process stops, the target of a replacement is what it was
  -- or what it was to be, or, of an existing file that is to be removed, the new file while the old
  -- one is set aside under the temporary name. A success has replaced it and left no temporary
  -- file, and write-failed leaves it as it was. No file has the temporary name at the start.
  pub replace_with_mode-Replaces :
      (made : ℕ × ℕ) (p : Parent) (faults : List Fault)
      → Ends Finished Survives
          (replace_with_mode made stat_of expected bytes remove_file mode faults (dir p t missing))
  unfolding replace_with_mode create_private_parent Safe Then
  replace_with_mode-Replaces made p faults =
      let begun = replace_in_parent-Ends (created_parent made p) in
      seq-Ends Survives _ _ Finished faults _ (
        call-Ends Survives write_failed _ _ faults _ begun (left_alone refl) (left_alone refl)
          (inl refl))
