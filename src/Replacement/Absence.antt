-- ===== src/Replacement/Absence.antt =====
-- The installation of a file where there is none, crates/routing-service/src/config/managed_file.rs.
use muxvia.Prelude.{◌≡◌, refl, ◌⊎◌, inl, inr, true, false, Bool, Option, some, none, List}
use muxvia.Effects.{Result, ok, err, Fault}
use muxvia.Effects.Ends.{Ends, ends}
use muxvia.Replacement.{
  FileIdentity, ManagedFileError, write_failed, recovery_required, File, missing, regular, Parent,
  Directory, target_name, temporary_name, missing_file_identity, entry_identity, sync_directory,
}
use muxvia.Replacement.Exchange.{Refusal, conclude_rollback, retained, released}
use muxvia.Replacement.Install.{restore_absence, settle_install, replace_absent}
use muxvia.Replacement.Races.{id_of, dir}
use muxvia.Replacement.Calls.{
  stat-then, rename-then, sync_directory-Ends, ensure-then, attempt-then,
}

module _ (written_identity : FileIdentity) (y : File) where
  -- The whole file or none.
  abbrev pub AllOrNothing : Directory → Type 0
  AllOrNothing d = (d.target ≡ missing) ⊎ (d.target ≡ regular y)

  abbrev pub Declined : ManagedFileError → Bool → Directory → Type 0
  Declined e true d = (e ≡ recovery_required) × AllOrNothing d
  Declined e false d = (e ≡ write_failed) × (d.target ≡ missing)

  unfoldable pub Installed : Result Refusal (Unit {0}) → Directory → Type 0
  Installed (ok a) d = d.target ≡ regular y
  Installed (err r) d = Declined r.error r.retain_temporary d

  restore_absence-Ends :
      (p : Parent) (faults : List Fault)
      → Ends Installed AllOrNothing
          (restore_absence written_identity faults (dir p (regular y) missing))
  unfolding restore_absence Installed entry_identity conclude_rollback
  restore_absence-Ends p faults =
      rename-then AllOrNothing (retained recovery_required) target_name temporary_name
        (dir p missing (regular y)) _ Installed faults _ refl
        (λ faults.
          stat-then AllOrNothing (retained recovery_required) target_name missing_file_identity _
            Installed faults _ refl
            (λ faults.
              ensure-then AllOrNothing (retained recovery_required) true _ Installed faults _
                (λ back.
                  stat-then AllOrNothing (retained recovery_required) temporary_name (id_of y) _
                    Installed faults _ refl
                    (λ faults.
                      ensure-then AllOrNothing (retained recovery_required) _ _ Installed faults _
                        (λ out.
                          attempt-then AllOrNothing (sync_directory tt) _
                            (λ r d. d.target ≡ missing) Installed faults _
                            (sync_directory-Ends AllOrNothing tt _ faults _ refl refl (inl refl))
                            (λ a rest d' e. ends (refl, e)) (λ a rest d' e. ends (refl, inl e)))
                        (refl, inl refl))
                    (refl, inl refl) (inl refl))
                (refl, inl refl))
            (refl, inl refl) (inl refl))
        (refl, inr refl) (inr refl)

  settle_install-Ends :
      (p : Parent) (synced : Option (Unit {0})) (faults : List Fault)
      → Ends Installed AllOrNothing
          (settle_install written_identity synced faults (dir p (regular y) missing))
  unfolding settle_install Installed
  settle_install-Ends p (some a) faults = ends refl
  settle_install-Ends p none faults = restore_absence-Ends p faults

  pub replace_absent-Ends :
      (p : Parent) (faults : List Fault)
      → Ends Installed AllOrNothing
          (replace_absent written_identity faults (dir p missing (regular y)))
  unfolding replace_absent Installed entry_identity
  replace_absent-Ends p faults =
      rename-then AllOrNothing (released write_failed) temporary_name target_name
        (dir p (regular y) missing) _ Installed faults _ refl
        (λ faults.
          stat-then AllOrNothing (retained recovery_required) target_name (id_of y) _ Installed
            faults _ refl
            (λ faults.
              ensure-then AllOrNothing (retained recovery_required) _ _ Installed faults _
                (λ good.
                  attempt-then AllOrNothing (sync_directory tt) _
                    (λ r d. d ≡ dir p (regular y) missing) Installed faults _
                    (sync_directory-Ends AllOrNothing tt _ faults _ refl refl (inr refl))
                    (λ a rest d' e. rw e (settle_install-Ends p (some a) rest))
                    (λ a rest d' e. rw e (settle_install-Ends p none rest)))
                (refl, inr refl))
            (refl, inr refl) (inr refl))
        (refl, refl) (inl refl)
