-- ===== src/Replacement/Races.antt =====
-- The exchange of two files, crates/routing-service/src/config/managed_file.rs, from whatever
-- another process has put under their names since they were looked at.
use muxvia.Prelude.{
  ◌≡◌, refl, ◌⊎◌, inl, inr, true, false, Bool, ◌&&◌, and_parts, Option, some, none, List,
  if◌then◌else◌,
}
use muxvia.Effects.{Result, ok, err, Fault, Action, ◌>>=◌, ◌>>◌, attempt}
use muxvia.Effects.Ends.{Ends, ends, Then, bind-Ends, seq-Ends}
use muxvia.Replacement.{
  FileIdentity, ManagedFileError, write_failed, recovery_required, File, Entry, missing, regular,
  Parent, Directory, target_name, temporary_name, identity_eq, file_identity_from_stat,
  entry_identity, sync_directory,
}
use muxvia.Replacement.Exchange.{
  Refusal, conclude_rollback, exchange_back, restore_original, remove_target, undo_mismatch,
  settle_exchange, replace_existing, retained, released,
}
use muxvia.Replacement.Calls.{
  stat-then, exchange-then, rename-then, sync_directory-Ends, unlink-Ends, ensure-Ends, ensure-then,
  attempt-then,
}

abbrev pub id_of : File → FileIdentity
id_of x = file_identity_from_stat x.stat

abbrev pub dir : Parent → Entry → Entry → Directory
dir p t u = record { parent = p; target = t; temporary = u }

module _ (expected written_identity : FileIdentity) (remove_file : Bool) (x y : File) where
  abbrev pub wanted : Entry
  wanted = if remove_file then missing else regular y

  -- The displaced file is the target, or set aside behind the new one or the end that is wanted.
  unfoldable pub Held : Directory → Type 0
  Held d =
      (d.target ≡ regular x)
      ⊎ ((d.temporary ≡ regular x) × ((d.target ≡ regular y) ⊎ (d.target ≡ wanted)))

  unfoldable pub RolledBack : Result (Unit {0}) (Unit {0}) → Directory → Type 0
  RolledBack (ok a) d = d.target ≡ regular x
  RolledBack (err e) d = Held d

  -- `x` was the target and `y` the temporary file when the names were exchanged.
  pub record Exchanged (d : Directory) : Type 0 where
    pub replaced : d.target ≡ wanted
    pub set_aside : d.temporary ≡ regular x
    pub was_expected : identity_eq (id_of x) expected ≡ true
    pub was_written : identity_eq (id_of y) written_identity ≡ true

  unfoldable pub Refused : ManagedFileError → Bool → Directory → Type 0
  Refused e true d = (e ≡ recovery_required) × Held d
  Refused e false d = (e ≡ write_failed) × (d.target ≡ regular x)

  unfoldable pub Settled : Result Refusal (Unit {0}) → Directory → Type 0
  Settled (ok a) d = Exchanged d
  Settled (err r) d = Refused r.error r.retain_temporary d

  abbrev swapped : Parent → Directory
  swapped p = dir p (regular y) (regular x)

  exchange_back-Ends :
      (p : Parent) (displaced installed : FileIdentity) (faults : List Fault)
      → Ends RolledBack Held
          (exchange_back expected written_identity displaced installed faults (swapped p))
  unfolding exchange_back RolledBack Held entry_identity
  exchange_back-Ends p displaced installed faults =
      ensure-then Held tt _ _ RolledBack faults _
        (λ same.
          exchange-then Held tt (dir p (regular x) (regular y)) _ RolledBack faults _ refl
            (λ faults.
              stat-then Held tt target_name (id_of x) _ RolledBack faults _ refl
                (λ faults.
                  ensure-then Held tt _ _ RolledBack faults _
                    (λ back.
                      stat-then Held tt temporary_name (id_of y) _ RolledBack faults _ refl
                        (λ faults.
                          ensure-then Held tt _ _ RolledBack faults _
                            (λ out.
                              sync_directory-Ends Held tt RolledBack faults _ refl (inl refl)
                                (inl refl))
                            (inl refl))
                        (inl refl) (inl refl))
                    (inl refl))
                (inl refl) (inl refl))
            (inr (refl, inl refl)) (inr (refl, inl refl)))
        (inr (refl, inl refl))

  restore_original-Ends :
      (p : Parent) (r : Bool) (faults : List Fault)
      → (if r then missing else regular y) ≡ wanted
      → Ends RolledBack Held (
          restore_original expected written_identity r faults
            (dir p (if r then missing else regular y) (regular x)))
  unfolding restore_original RolledBack Held entry_identity
  restore_original-Ends p true faults w =
      rename-then Held tt temporary_name target_name (dir p (regular x) missing) _ RolledBack faults
        _ refl
        (λ faults.
          stat-then Held tt target_name (id_of x) _ RolledBack faults _ refl
            (λ faults.
              ensure-then Held tt _ _ RolledBack faults _
                (λ back. sync_directory-Ends Held tt RolledBack faults _ refl (inl refl) (inl refl))
                (inl refl))
            (inl refl) (inl refl))
        (inr (refl, inr w)) (inr (refl, inr w))
  restore_original-Ends p false faults w =
      exchange-then Held tt (dir p (regular x) (regular y)) _ RolledBack faults _ refl
        (λ faults.
          stat-then Held tt target_name (id_of x) _ RolledBack faults _ refl
            (λ faults.
              ensure-then Held tt _ _ RolledBack faults _
                (λ back.
                  stat-then Held tt temporary_name (id_of y) _ RolledBack faults _ refl
                    (λ faults.
                      ensure-then Held tt _ _ RolledBack faults _
                        (λ out.
                          sync_directory-Ends Held tt RolledBack faults _ refl (inl refl)
                            (inl refl))
                        (inl refl))
                    (inl refl) (inl refl))
                (inl refl))
            (inl refl) (inl refl))
        (inr (refl, inr w)) (inr (refl, inr w))

  -- What a rollback ends in, once it is concluded.
  conclude_rollback-Ends :
      {A : Type 0} (Q : Result Refusal A → Directory → Type 0)
      → ((e : ManagedFileError) (b : Bool) (d : Directory)
          → Refused e b d
          → Q (err (record { error = e; retain_temporary = b })) d)
      → (m : Action Directory (Unit {0}) (Unit {0})) (faults : List Fault) (d : Directory)
      → Ends RolledBack Held (m faults d)
      → Ends Q Held ((attempt m >>= conclude_rollback) faults d)
  unfolding RolledBack Refused conclude_rollback
  conclude_rollback-Ends Q all m faults d h =
      attempt-then Held m conclude_rollback RolledBack Q faults d h
        (λ a rest d' r. ends (all write_failed false d' (refl, r)))
        (λ e rest d' r. ends (all recovery_required true d' (refl, r)))

  Settled-err :
      (e : ManagedFileError) (b : Bool) (d : Directory)
      → Refused e b d
      → Settled (err (record { error = e; retain_temporary = b })) d
  unfolding Settled
  Settled-err e b d h = h

  Then-err :
      (k : Action Directory Refusal (Unit {0})) (e : ManagedFileError) (b : Bool) (d : Directory)
      → Refused e b d
      → Then Held {A = Unit {0}}
          (λ _. k)
          Settled
          (err (record { error = e; retain_temporary = b }))
          d
  unfolding Then Settled
  Then-err k e b d h = h

  mismatch-then :
      (p : Parent) (displaced installed : FileIdentity) (matches : Bool)
      (k : Action Directory Refusal (Unit {0})) (faults : List Fault)
      → (matches ≡ true → (faults : List Fault) → Ends Settled Held (k faults (swapped p)))
      → Ends Settled Held (
          (undo_mismatch expected written_identity displaced installed matches >> k) faults
            (swapped p))
  unfolding undo_mismatch Then
  mismatch-then p displaced installed true k faults done =
      seq-Ends Held _ k Settled faults (swapped p) (ends (done refl))
  mismatch-then p displaced installed false k faults done =
      seq-Ends Held _ k Settled faults (swapped p) (
        conclude_rollback-Ends (Then Held (λ _. k) Settled) (Then-err k)
          (exchange_back expected written_identity displaced installed) faults (swapped p)
          (exchange_back-Ends p displaced installed faults))

  -- The unlinked target is not the only copy.
  remove_target-then :
      (p : Parent) (r : Bool) (k : Action Directory Refusal (Unit {0})) (faults : List Fault)
      → (if r then missing else regular y) ≡ wanted
      → ((faults : List Fault)
          → Ends Settled Held (k faults (dir p (if r then missing else regular y) (regular x))))
      → Ends Settled Held ((remove_target expected written_identity r >> k) faults (swapped p))
  unfolding remove_target Settled Refused Held Then
  remove_target-then p true k faults w done = seq-Ends Held _ k Settled faults (swapped p) (
      bind-Ends Held _ _ (Then Held (λ _. k) Settled) faults (swapped p) (
        unlink-Ends Held (retained recovery_required) target_name true (dir p missing (regular x)) _
          faults (swapped p) refl
          (λ faults.
            ensure-Ends Held (retained recovery_required) true _ faults _ (λ h. done)
              (refl, inr (refl, inr w)))
          (refl, inr (refl, inl refl)) (inr (refl, inl refl))))
  remove_target-then p false k faults w done =
      seq-Ends Held _ k Settled faults (swapped p) (ends done)

  abbrev set_aside_at : Parent → Directory
  set_aside_at p = dir p wanted (regular x)

  settle_exchange-Ends :
      (p : Parent) (synced : Option (Unit {0})) (faults : List Fault)
      → Exchanged (set_aside_at p)
      → Ends Settled Held
          (settle_exchange expected written_identity remove_file synced faults (set_aside_at p))
  unfolding settle_exchange Settled
  settle_exchange-Ends p (some a) faults h = ends h
  settle_exchange-Ends p none faults h =
      conclude_rollback-Ends Settled Settled-err
        (restore_original expected written_identity remove_file) faults (set_aside_at p)
        (restore_original-Ends p remove_file faults refl)

  -- Whatever calls fail and wherever the process stops, the file that the exchange displaces is
  -- under the target's name, or under the temporary one while the target is the new file or what
  -- it was to be. It is the target still if the temporary file
  -- may be removed after an error, which is write-failed then and recovery-required otherwise. A
  -- success tells that the displaced file and the new one are those that were looked at, and that
  -- the target is the new file, or gone if it was to be removed.
  pub replace_existing-Holds :
      (p : Parent) (faults : List Fault)
      → Ends Settled Held (
          replace_existing expected written_identity remove_file faults
            (dir p (regular x) (regular y)))
  unfolding replace_existing Settled Refused Held entry_identity
  replace_existing-Holds p faults =
      exchange-then Held (released write_failed) (swapped p) _ Settled faults _ refl
        (λ faults.
          stat-then Held (retained recovery_required) temporary_name (id_of x) _ Settled faults _
            refl
            (λ faults.
              stat-then Held (retained recovery_required) target_name (id_of y) _ Settled faults _
                refl
                (λ faults. mismatch-then p (id_of x) (id_of y) _ _ faults (λ good faults.
                  remove_target-then p remove_file _ faults refl (λ faults. synced good faults)))
                (refl, inr (refl, inl refl)) (inr (refl, inl refl)))
            (refl, inr (refl, inl refl)) (inr (refl, inl refl)))
        (refl, refl) (inl refl)
    where
      synced :
          (identity_eq (id_of x) expected && identity_eq (id_of y) written_identity) ≡ true
          → (faults : List Fault)
          → Ends Settled Held (
              (attempt {F = Refusal} (sync_directory tt)
                  >>= settle_exchange expected written_identity remove_file)
                faults
                (set_aside_at p))
      synced good faults =
          let parts : _ × _ = and_parts _ _ good in
          let h : Exchanged (set_aside_at p) = record {
            replaced = refl;
            set_aside = refl;
            was_expected = parts.0;
            was_written = parts.1;
          } in
          attempt-then Held (sync_directory tt) _ (λ r d. d ≡ set_aside_at p) Settled faults _
            (sync_directory-Ends Held tt _ faults _ refl refl (inr (refl, inr refl)))
            (λ a rest d' e. rw e (settle_exchange-Ends p (some a) rest h))
            (λ a rest d' e. rw e (settle_exchange-Ends p none rest h))
