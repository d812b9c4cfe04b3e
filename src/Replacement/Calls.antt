-- ===== src/Replacement/Calls.antt =====
-- The steps of a replacement, crates/routing-service/src/config/managed_file.rs, whatever the
-- environment decides.
use muxvia.Prelude.{◌≡◌, refl, sym, subst, true, false, Bool, Option, some, none, List}
use muxvia.Effects.{
  Result, ok, err, Fault, Run, returned, stopped, Action, transact, ◌>>=◌, ◌>>◌, attempt,
}
use muxvia.Effects.Ends.{Ends, ends, stops, Then, bind-Ends, seq-Ends, transact-Ends}
use muxvia.Replacement.{
  ManagedFileError, recovery_required, Directory, Entry, missing, special, regular, unlink,
  file_identity_at, entry_identity, sync_directory, ensure, cleanup_temporary, verify_cleanup,
  unlinked, temporary_name, Parent, Name, FileIdentity, entry, exchange, exchanged, renamed,
  rename_noreplace, missing_file_identity,
}

-- What holds of every end holds in a weaker form too.
pub Ends-weaken :
    {E A : Type 0} {Q R : Result E A → Directory → Type 0} {S T : Directory → Type 0}
    (run : Run Directory E A)
    → ((r : Result E A) (d : Directory) → Q r d → R r d)
    → ((d : Directory) → S d → T d)
    → Ends Q S run
    → Ends R T run
Ends-weaken (returned r faults d) f g (ends q) = ends (f r d q)
Ends-weaken (stopped d) f g (stops s) = stops (g d s)

module _ (S : Directory → Type 0) where
  -- The steps of a chain: a call that works or fails without an effect.
  pub stat-then :
      {E B : Type 0} (e : E) (name : Name) (i : FileIdentity)
      (f : FileIdentity → Action Directory E B) (Q : Result E B → Directory → Type 0)
      (faults : List Fault) (d : Directory)
      → entry_identity e (entry name d) ≡ ok i
      → ((rest : List Fault) → Ends Q S (f i rest d))
      → Q (err e) d
      → S d
      → Ends Q S ((file_identity_at e name >>= f) faults d)
  unfolding file_identity_at Then
  stat-then e name i f Q faults d h done failed s =
      bind-Ends S (file_identity_at e name) f Q faults d
        (transact-Ends S e _ (Then S f Q) faults d (rw h done) failed s)

  -- The same, whatever the name stands for.
  pub look-then :
      {E B : Type 0} (e : E) (name : Name) (f : FileIdentity → Action Directory E B)
      (Q : Result E B → Directory → Type 0) (faults : List Fault) (d : Directory)
      → ((i : FileIdentity)
          → entry_identity e (entry name d) ≡ ok i
          → (rest : List Fault) → Ends Q S (f i rest d))
      → Q (err e) d
      → S d
      → Ends Q S ((file_identity_at e name >>= f) faults d)
  unfolding file_identity_at Then entry_identity
  look-then e name f Q faults d done failed s =
      bind-Ends S (file_identity_at e name) f Q faults d
        (transact-Ends S e _ (Then S f Q) faults d (go (entry name d) done) failed s)
    where
      go :
          (t : Entry)
          → ((i : FileIdentity)
              → entry_identity e t ≡ ok i
              → (rest : List Fault) → Ends Q S (f i rest d))
          → Then S f Q (entry_identity e t) d
      go missing done = done _ refl
      go (regular x) done = done _ refl
      go special done = failed

  pub transact-then :
      {E A B : Type 0} (e : E) (op : Directory → Result E A × Directory) (a : A) (d' : Directory)
      (k : Action Directory E B) (Q : Result E B → Directory → Type 0) (faults : List Fault)
      (d : Directory)
      → op d ≡ (ok a, d')
      → ((rest : List Fault) → Ends Q S (k rest d'))
      → Q (err e) d
      → S d
      → Ends Q S ((transact e op >> k) faults d)
  unfolding Then
  transact-then e op a d' k Q faults d h done failed s = seq-Ends S (transact e op) k Q faults d (
      transact-Ends S e op (Then S (λ _. k) Q) faults d
        (subst (λ p. Then S (λ _. k) Q p.0 p.1) (sym h) done) failed s)

  pub exchange-then :
      {E B : Type 0} (e : E) (d' : Directory) (k : Action Directory E B)
      (Q : Result E B → Directory → Type 0) (faults : List Fault) (d : Directory)
      → exchanged e d.target d.temporary d ≡ (ok tt, d')
      → ((rest : List Fault) → Ends Q S (k rest d'))
      → Q (err e) d
      → S d
      → Ends Q S ((exchange e >> k) faults d)
  unfolding exchange
  exchange-then e d' k Q faults d h done failed s =
      transact-then e _ tt d' k Q faults d h done failed s

  pub rename-then :
      {E B : Type 0} (e : E) (from to : Name) (d' : Directory) (k : Action Directory E B)
      (Q : Result E B → Directory → Type 0) (faults : List Fault) (d : Directory)
      → renamed e from to (entry from d) (entry to d) d ≡ (ok tt, d')
      → ((rest : List Fault) → Ends Q S (k rest d'))
      → Q (err e) d
      → S d
      → Ends Q S ((rename_noreplace e from to >> k) faults d)
  unfolding rename_noreplace
  rename-then e from to d' k Q faults d h done failed s =
      transact-then e _ tt d' k Q faults d h done failed s

  pub sync_directory-Ends :
      {E : Type 0} (e : E) (Q : Result E (Unit {0}) → Directory → Type 0) (faults : List Fault)
      (d : Directory)
      → Q (ok tt) d
      → Q (err e) d
      → S d
      → Ends Q S (sync_directory e faults d)
  unfolding sync_directory
  sync_directory-Ends e Q faults d done failed s = transact-Ends S e _ Q faults d done failed s

  pub sync-then :
      {E B : Type 0} (e : E) (k : Action Directory E B) (Q : Result E B → Directory → Type 0)
      (faults : List Fault) (d : Directory)
      → ((rest : List Fault) → Ends Q S (k rest d))
      → Q (err e) d
      → S d
      → Ends Q S ((sync_directory e >> k) faults d)
  unfolding sync_directory
  sync-then e k Q faults d done failed s = transact-then e _ tt d k Q faults d refl done failed s

  pub unlink-Ends :
      {E : Type 0} (e : E) (name : Name) (b : Bool) (d' : Directory)
      (Q : Result E Bool → Directory → Type 0) (faults : List Fault) (d : Directory)
      → unlinked e name (entry name d) d ≡ (ok b, d')
      → Q (ok b) d'
      → Q (err e) d
      → S d
      → Ends Q S (unlink e name faults d)
  unfolding unlink
  unlink-Ends e name b d' Q faults d h done failed s =
      transact-Ends S e _ Q faults d (subst (λ p. Q p.0 p.1) (sym h) done) failed s

  pub ensure-Ends :
      {E : Type 0} (e : E) (b : Bool) (Q : Result E (Unit {0}) → Directory → Type 0)
      (faults : List Fault) (d : Directory)
      → (b ≡ true → Q (ok tt) d)
      → Q (err e) d
      → Ends Q S (ensure e b faults d)
  unfolding ensure
  ensure-Ends e true Q faults d done failed = ends (done refl)
  ensure-Ends e false Q faults d done failed = ends failed

  pub ensure-then :
      {E B : Type 0} (e : E) (b : Bool) (k : Action Directory E B)
      (Q : Result E B → Directory → Type 0) (faults : List Fault) (d : Directory)
      → (b ≡ true → Ends Q S (k faults d))
      → Q (err e) d
      → Ends Q S ((ensure e b >> k) faults d)
  unfolding ensure ◌>>◌ ◌>>=◌
  ensure-then e true k Q faults d done failed = done refl
  ensure-then e false k Q faults d done failed = ends failed

  pub attempt-then :
      {E F A B : Type 0} (m : Action Directory E A) (f : Option A → Action Directory F B)
      (R : Result E A → Directory → Type 0) (Q : Result F B → Directory → Type 0)
      (faults : List Fault) (d : Directory)
      → Ends R S (m faults d)
      → ((a : A) (rest : List Fault) (d' : Directory) → R (ok a) d' → Ends Q S (f (some a) rest d'))
      → ((e : E) (rest : List Fault) (d' : Directory) → R (err e) d' → Ends Q S (f none rest d'))
      → Ends Q S ((attempt m >>= f) faults d)
  unfolding attempt ◌>>=◌
  attempt-then {E = E} {F = F} {A = A} {B = B} m f R Q faults d h done failed = go (m faults d) h
    where
      tried : Run Directory E A → Run Directory F (Option A)
      tried run = elim run [
        | returned (ok a) rest d' ↦ returned (ok (some a)) rest d'
        | returned (err e) rest d' ↦ returned (ok none) rest d'
        | stopped d' ↦ stopped d'
      ]

      go :
          (run : Run Directory E A)
          → Ends R S run
          → Ends Q S (elim (tried run) [
            | returned (ok a) rest d' ↦ f a rest d'
            | returned (err e) rest d' ↦ returned (err e) rest d'
            | stopped d' ↦ stopped d'
          ])
      go (returned (ok a) rest d') (ends r) = done a rest d' r
      go (returned (err e) rest d') (ends r) = failed e rest d' r
      go (stopped d') (stops s) = stops s

module _ (t : Entry) where
  -- A clean-up leaves the target alone, and no temporary file if it succeeds.
  unfoldable pub Cleaned : Result ManagedFileError (Unit {0}) → Directory → Type 0
  Cleaned (ok x) d = (d.target ≡ t) × (d.temporary ≡ missing)
  Cleaned (err e) d = (d.target ≡ t) × (e ≡ recovery_required)

  abbrev pub Untouched : Directory → Type 0
  Untouched d = d.target ≡ t

  abbrev cleaned_up : Parent → Directory
  cleaned_up p = record { parent = p; target = t; temporary = missing }

  verify_cleanup-Ends :
      (p : Parent) (faults : List Fault)
      → Ends Cleaned Untouched (verify_cleanup faults (cleaned_up p))
  unfolding verify_cleanup Cleaned entry_identity
  verify_cleanup-Ends p faults =
      stat-then Untouched recovery_required temporary_name missing_file_identity _ Cleaned faults _
        refl
        (λ faults.
          ensure-then Untouched recovery_required true _ Cleaned faults _
            (λ gone.
              sync-then Untouched recovery_required _ Cleaned faults _
                (λ faults.
                  stat-then Untouched recovery_required temporary_name missing_file_identity _
                    Cleaned faults _ refl
                    (λ faults.
                      ensure-Ends Untouched recovery_required true Cleaned faults _
                        (λ still. (refl, refl)) (refl, refl))
                    (refl, refl) refl)
                (refl, refl) refl)
            (refl, refl))
        (refl, refl) refl

  pub cleanup_temporary-Ends :
      (p : Parent) (u : Entry) (faults : List Fault)
      → Ends Cleaned Untouched
          (cleanup_temporary faults (record { parent = p; target = t; temporary = u }))
  unfolding cleanup_temporary Cleaned unlink
  cleanup_temporary-Ends p u faults =
      transact-then Untouched recovery_required _ (was_there u) (cleaned_up p) verify_cleanup
        Cleaned faults _ (removed u) (verify_cleanup-Ends p) (refl, refl) refl
    where
      was_there : Entry → Bool
      was_there missing = false
      was_there _ = true

      removed :
          (u : Entry)
          → unlinked recovery_required temporary_name u
              (record { parent = p; target = t; temporary = u })
            ≡ (ok (was_there u), cleaned_up p)
      removed missing = refl
      removed special = refl
      removed (regular f) = refl
