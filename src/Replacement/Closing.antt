-- ===== src/Replacement/Closing.antt =====
-- The closure of `replace_with_mode`, crates/routing-service/src/config/managed_file.rs, where a file
-- is expected and where none is.
use muxvia.Prelude.{
  ℕ, ◌≡◌, refl, ap, ◌∙◌, ◌⊎◌, inl, inr, true, false, Bool, List, arith, if◌then◌else◌,
}
use muxvia.Effects.{Result, ok, err, Fault, Action, transact, ◌>>=◌}
use muxvia.Effects.Ends.{Ends, ends, Then, bind-Ends, transact-Ends}
use muxvia.Replacement.{
  FileIdentity, ManagedFileError, write_failed, recovery_required, File, Entry, missing, special,
  regular, Parent, nowhere, linked, at, Directory, identity_eq, entry_identity,
}
use muxvia.Replacement.Exchange.{Refusal}
use muxvia.Replacement.Races.{dir, Held, Refused, Settled, replace_existing-Holds}
use muxvia.Replacement.Absence.{AllOrNothing, Declined, Installed, replace_absent-Ends}
use muxvia.Replacement.Write.{opened, path_matches_directory, open_directory, install}
use muxvia.Replacement.Calls.{attempt-then, Ends-weaken}

pub exists_agrees : (i j : FileIdentity) → identity_eq i j ≡ true → i.exists ≡ j.exists
unfolding identity_eq
exists_agrees i j h = ground (arith)

-- A replacement of `t` by `new`; `exists` is whether a file was expected.
module _ (remove_file : Bool) (t : Entry) (new : File) where
  abbrev pub desired : Bool → Entry
  desired exists = if exists then (if remove_file then missing else regular new) else regular new

  -- The target is what it was or what it was to be, or the new file with the one that it was set
  -- aside.
  unfoldable pub Safe : Bool → Directory → Type 0
  Safe exists d =
      (d.target ≡ t)
      ⊎ ((d.target ≡ desired exists)
          ⊎ ((exists ≡ true) × ((d.temporary ≡ t) × (d.target ≡ regular new))))

  unfoldable pub Stopped : Bool → ManagedFileError → Bool → Directory → Type 0
  Stopped exists e true d = (e ≡ recovery_required) × Safe exists d
  Stopped exists e false d = (e ≡ write_failed) × (d.target ≡ t)

  unfoldable pub Closed : Bool → Result Refusal (Unit {0}) → Directory → Type 0
  Closed exists (ok a) d = d.target ≡ desired exists
  Closed exists (err r) d = Stopped exists r.error r.retain_temporary d

module _ (expected written_identity : FileIdentity) (remove_file : Bool) (new : File) where
  Settled-Closed :
      (x : File) (r : Result Refusal (Unit {0})) (d : Directory)
      → Settled expected written_identity remove_file x new r d
      → Closed remove_file (regular x) new true r d
  unfolding Settled Closed Refused Held Stopped Safe
  Settled-Closed x (ok a) d h = h.replaced
  Settled-Closed x (err r) d h = go r.error r.retain_temporary h
    where
      go :
          (e : ManagedFileError) (b : Bool)
          → Refused expected written_identity remove_file x new e b d
          → Stopped remove_file (regular x) new true e b d
      go e true (h, inl k) = (h, inl k)
      go e true (h, inr (k, inl n)) = (h, inr (inr (refl, (k, n))))
      go e true (h, inr (k, inr n)) = (h, inr (inl n))
      go e false h = h

  Held-Safe :
      (x : File) (d : Directory)
      → Held expected written_identity remove_file x new d
      → Safe remove_file (regular x) new true d
  unfolding Held Safe
  Held-Safe x d (inl k) = inl k
  Held-Safe x d (inr (k, inl n)) = inr (inr (refl, (k, n)))
  Held-Safe x d (inr (k, inr n)) = inr (inl n)

  AllOrNothing-Safe :
      (d : Directory) → AllOrNothing written_identity new d → Safe remove_file missing new false d
  unfolding Safe
  AllOrNothing-Safe d (inl k) = inl k
  AllOrNothing-Safe d (inr k) = inr (inl k)

  Installed-Closed :
      (r : Result Refusal (Unit {0})) (d : Directory)
      → Installed written_identity new r d
      → Closed remove_file missing new false r d
  unfolding Installed Closed Stopped
  Installed-Closed (ok a) d h = h
  Installed-Closed (err r) d h = go r.error r.retain_temporary h
    where
      go :
          (e : ManagedFileError) (b : Bool)
          → Declined written_identity new e b d
          → Stopped remove_file missing new false e b d
      go e true (h, k) = (h, AllOrNothing-Safe d k)
      go e false h = h

  exists_in : {E : Type 0} → Result E FileIdentity → Bool
  exists_in (ok i) = i.exists
  exists_in (err e) = false

  pub install-Ends :
      {E : Type 0} (e : E) (p : Parent) (t : Entry) (i : FileIdentity) (exists : Bool)
      (faults : List Fault)
      → entry_identity e t ≡ ok i
      → i.exists ≡ exists
      → Ends
          (Closed remove_file t new exists)
          (Safe remove_file t new exists)
          (install expected written_identity remove_file exists faults (dir p t (regular new)))
  unfolding install entry_identity exists_in
  install-Ends failure p missing i false faults h k =
      Ends-weaken _ Installed-Closed AllOrNothing-Safe
        (replace_absent-Ends written_identity new p faults)
  install-Ends failure p (regular x) i true faults h k =
      Ends-weaken _ (Settled-Closed x) (Held-Safe x)
        (replace_existing-Holds expected written_identity remove_file x new p faults)
  install-Ends failure p missing i true faults h k =
      let clash : false ≡ true = ap exists_in h ∙ k in cc
  install-Ends failure p (regular x) i false faults h k =
      let clash : true ≡ false = ap exists_in h ∙ k in cc
  install-Ends failure p special i exists faults h k = cc

module _ (S : Directory → Type 0) where
  pub path-then :
      {E B : Type 0} (device inode : ℕ) (f : Bool → Action Directory E B)
      (Q : Result E B → Directory → Type 0) (faults : List Fault) (d : Directory)
      → ((b : Bool) (rest : List Fault) → Ends Q S (f b rest d))
      → S d
      → Ends Q S ((path_matches_directory device inode >>= f) faults d)
  unfolding path_matches_directory Then
  path-then device inode f Q faults d done s = bind-Ends S _ f Q faults d (
      attempt-then S (transact tt (λ d. (ok d.parent, d))) _ (λ r d'. d' ≡ d) (Then S f Q) faults d
        (transact-Ends S tt _ _ faults d refl refl s) (λ a rest d' e. rw e (ends (done _)))
        (λ a rest d' e. rw e (ends (done _))))

  pub open-then :
      {B : Type 0} (f : ℕ × ℕ → Action Directory ManagedFileError B)
      (Q : Result ManagedFileError B → Directory → Type 0) (faults : List Fault) (d : Directory)
      → ((i : ℕ × ℕ) (rest : List Fault) → Ends Q S (f i rest d))
      → Q (err write_failed) d
      → S d
      → Ends Q S ((open_directory >>= f) faults d)
  unfolding open_directory Then
  open-then f Q faults d done failed s =
      bind-Ends S open_directory f Q faults d
        (transact-Ends S write_failed _ (Then S f Q) faults d (go d.parent) failed s)
    where
      go : (p : Parent) → Then S f Q (opened p) d
      go nowhere = failed
      go linked = failed
      go (at device inode) = done (device, inode)
