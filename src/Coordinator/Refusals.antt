-- ===== src/Coordinator/Refusals.antt =====
-- The refusals of `apply`, crates/routing-service/src/subscription/coordinator.rs.
use muxvia.Prelude.{
  ℕ, ◌≡◌, refl, ap, ◌∙◌, arith, ◌⊎◌, inl, inr, Bool, true, false, ◌==◌, Option, none, some, List,
  [],
}
use muxvia.Text.{Text}
use muxvia.Effects.{Result, ok, err, Fault, returned, raise, attempt}
use muxvia.Effects.Works.{bind_works, or_raise_works, attempt_works}
use muxvia.AccountStore.Working.{read_works}
use muxvia.Coordinator.Resuming.{store_works}
use muxvia.Effects.Ends.{
  Ends, ends, Then, bind-Ends, Raising, or_raise-Ends, Attempted, attempt-Ends, transact-Ends,
}
use muxvia.Accounts.{SubscriptionAccountDocument}
use muxvia.Catalog.{
  Code, SubscriptionAccountAction, SubscriptionAccountActionFailure, state_store_error,
  subscription_account_file_invalid, subscription_account_recovery_required, invalid_action_replay,
  stale_subscription_catalog_revision, sqlite,
}
use muxvia.Catalog.Projection.{project_catalog}
use muxvia.Catalog.Intents.{is_clean}
use muxvia.Catalog.Actions.{find_receipt, subscription_account_receipt}
use muxvia.AccountStore.{Disk, SubscriptionAccountFileSnapshot, read_document, read}
use muxvia.AccountStore.Calls.{read-Ends}
use muxvia.Coordinator.{store, subscription_account_catalog, failure, fail_with, empty_failure}
use muxvia.Coordinator.Previews.{Previews, plan_action}
use muxvia.Coordinator.Apply.{carry_out, proceed, apply_new, apply}

-- Why an action is refused, if it is: the state of the catalog, then its revision, then the action.
unfoldable pub refusal :
    (is_clean is_current : Bool) → Result Code (SubscriptionAccountDocument × Bool) → Option Code
refusal false _ _ = some subscription_account_recovery_required
refusal true false _ = some stale_subscription_catalog_revision
refusal true true (err code) = some code
refusal true true (ok plan) = none

-- A failure with that code, or with one of those of a call that failed on the way.
unfoldable pub Told : {A : Type 0} → Code → Result SubscriptionAccountActionFailure A → Type 0
Told code (ok x) = ⊥
Told code (err e) =
    (e.code ≡ code)
    ⊎ (e.code ≡ state_store_error)
    ⊎ (e.code ≡ subscription_account_file_invalid)
    ⊎ (e.code ≡ invalid_action_replay)

module _ (d : Disk) where
  abbrev pub Same : Disk → Type 0
  Same d' = d' ≡ d

module _ {A : Type 0} (code : Code) (d : Disk) where
  unfoldable pub Unchanged : Result SubscriptionAccountActionFailure A → Disk → Type 0
  Unchanged r d' = (d' ≡ d) × Told code r

  fail_with-Unchanged :
      (x : SubscriptionAccountDocument) (sent : Code) (faults : List Fault)
      → ((e : SubscriptionAccountActionFailure) → e.code ≡ sent → Told {A = A} code (err e))
      → Ends Unchanged (Same d) (fail_with {A = A} x sent faults d)
  unfolding fail_with failure Then Attempted subscription_account_catalog store Unchanged
      empty_failure
  fail_with-Unchanged x sent faults told =
      bind-Ends (Same d) (failure x sent) raise Unchanged faults d (
        bind-Ends (Same d) _ _ _ faults d (
          attempt-Ends (Same d) _ _ faults d (
            transact-Ends (Same d) _ _ _ faults d (λ fs. ends (λ fs. ends (refl, told _ refl)))
              (λ fs. ends (λ fs. ends (refl, told _ refl))) refl)))

module _ (document_sha256 : SubscriptionAccountDocument → Text) (k a r : ℕ)
    (action : SubscriptionAccountAction) (previews : Previews) where
  proceed-Unchanged :
      (before : SubscriptionAccountFileSnapshot) (code : Code) (d : Disk)
      (is_clean is_current : Bool) (plan : Result Code (SubscriptionAccountDocument × Bool))
      (faults : List Fault)
      → refusal is_clean is_current plan ≡ some code
      → Ends
          (Unchanged code d)
          (Same d)
          (proceed document_sha256 k a r action previews before is_clean is_current plan faults d)
  unfolding proceed carry_out refusal Told
  proceed-Unchanged before code d false _ plan faults e =
      fail_with-Unchanged code d before.document _ faults (λ x h. inl (ground arith))
  proceed-Unchanged before code d true false plan faults e =
      fail_with-Unchanged code d before.document _ faults (λ x h. inl (ground arith))
  proceed-Unchanged before code d true true (err sent) faults e =
      fail_with-Unchanged code d before.document sent faults (λ x h. inl (ground arith))
  proceed-Unchanged before code d true true (ok plan) faults e = ground arith

  apply_new-Unchanged :
      (before : SubscriptionAccountFileSnapshot) (code : Code) (d : Disk) (faults : List Fault)
      → read_document d.file ≡ ok before
      → refusal
          (is_clean d.catalog.recovery)
          (d.catalog.revision == r)
          (plan_action action r previews before.document)
        ≡ some code
      → Ends (Unchanged code d) (Same d) (apply_new document_sha256 k a r action previews faults d)
  unfolding apply_new Then Raising Unchanged Told subscription_account_catalog store project_catalog
      empty_failure
  apply_new-Unchanged before code d faults reads refused = bind-Ends (Same d) _ _ _ faults d (
      or_raise-Ends (Same d) _ _ _ faults d (
        read-Ends (Same d) _ faults d
          (rw reads (λ fs. bind-Ends (Same d) _ _ _ fs d (
            or_raise-Ends (Same d) _ _ _ fs d (
              transact-Ends (Same d) sqlite _ _ fs d
                (λ fs. proceed-Unchanged before code d _ _ _ fs refused) (refl, inr (inl refl))
                refl))))
          (refl, inr (inr (inl refl))) refl))

apply-Told :
    (document_sha256 : SubscriptionAccountDocument → Text) (k a r : ℕ)
    (action : SubscriptionAccountAction) (previews : Previews)
    (before : SubscriptionAccountFileSnapshot) (code : Code) (d : Disk) (faults : List Fault)
    → find_receipt a d.catalog.receipts ≡ none
    → read_document d.file ≡ ok before
    → refusal
        (is_clean d.catalog.recovery)
        (d.catalog.revision == r)
        (plan_action action r previews before.document)
      ≡ some code
    → Ends (Unchanged code d) (Same d) (apply document_sha256 k a r action previews faults d)
unfolding apply Then Attempted Raising store subscription_account_receipt Unchanged Told
    empty_failure
apply-Told document_sha256 k a r action previews before code d faults new reads refused =
    bind-Ends (Same d) _ _ _ faults d (
      attempt-Ends (Same d) _ _ faults d (
        transact-Ends (Same d) sqlite _ _ faults d
          (rw new (λ fs.
            apply_new-Unchanged document_sha256 k a r action previews before code d fs reads
              refused))
          (λ fs. bind-Ends (Same d) (attempt read) _ _ fs d (
            attempt-Ends (Same d) read _ fs d (
              read-Ends (Same d) _ fs d
                (rw reads (λ fs.
                  fail_with-Unchanged code d before.document invalid_action_replay fs
                    (λ e h. inr (inr (inr h)))))
                (λ fs. ends (refl, inr (inl refl))) refl)))
          refl))

-- When every call works.
module _ (d : Disk) where
  view_works :
      (x : SubscriptionAccountDocument)
      → subscription_account_catalog x [] d ≡ returned (ok (project_catalog d.catalog x)) [] d
  unfolding subscription_account_catalog
  view_works x = store_works (λ c. (ok (project_catalog c x), c)) d _ d.catalog refl

  -- The failure with that code and with the view of that document.
  abbrev pub refused_with : Code → SubscriptionAccountDocument → SubscriptionAccountActionFailure
  refused_with code x = record { code = code; authoritative_view = project_catalog d.catalog x }

  fail_with_works :
      {A : Type 0} (x : SubscriptionAccountDocument) (code : Code)
      → fail_with {A = A} x code [] d ≡ returned (err (refused_with code x)) [] d
  unfolding fail_with failure
  fail_with_works x code = bind_works (failure x code) raise [] [] d d (refused_with code x) (
      bind_works _ _ [] [] d d (some (project_catalog d.catalog x))
        (attempt_works _ [] [] d d _ (view_works x)))

  fail_with_code :
      {A : Type 0} (x : SubscriptionAccountDocument) (sent code : Code)
      → some sent ≡ some code
      → fail_with {A = A} x sent [] d ≡ returned (err (refused_with code x)) [] d
  fail_with_code x sent code e =
      let same : sent ≡ code = ground arith in
      fail_with_works x sent ∙ ap (λ c. returned (err (refused_with c x)) [] d) same

  module _ (document_sha256 : SubscriptionAccountDocument → Text) (k a r : ℕ)
      (action : SubscriptionAccountAction) (previews : Previews)
      (before : SubscriptionAccountFileSnapshot) (code : Code) where
    proceed_refuses :
        (is_clean is_current : Bool) (plan : Result Code (SubscriptionAccountDocument × Bool))
        → refusal is_clean is_current plan ≡ some code
        → proceed document_sha256 k a r action previews before is_clean is_current plan [] d
          ≡ returned (err (refused_with code before.document)) [] d
    unfolding proceed carry_out refusal
    proceed_refuses false _ plan e = fail_with_code before.document _ code e
    proceed_refuses true false plan e = fail_with_code before.document _ code e
    proceed_refuses true true (err sent) e = fail_with_code before.document sent code e
    proceed_refuses true true (ok plan) e = ground arith

    apply_refuses :
        find_receipt a d.catalog.receipts ≡ none
        → read_document d.file ≡ ok before
        → refusal
            (is_clean d.catalog.recovery)
            (d.catalog.revision == r)
            (plan_action action r previews before.document)
          ≡ some code
        → apply document_sha256 k a r action previews [] d
          ≡ returned (err (refused_with code before.document)) [] d
    unfolding apply apply_new subscription_account_receipt project_catalog
    apply_refuses new reads refused =
        bind_works _ _ [] [] d d (some none) (
          attempt_works _ [] [] d d none
            (store_works (subscription_account_receipt a action) d _ d.catalog (rw new refl)))
        ∙ bind_works _ _ [] [] d d before
            (or_raise_works read _ [] [] d d before (read_works d before reads))
        ∙ bind_works _ _ [] [] d d (project_catalog d.catalog before.document)
            (or_raise_works _ _ [] [] d d _ (view_works before.document))
        ∙ proceed_refuses (is_clean d.catalog.recovery) (d.catalog.revision == r)
            (plan_action action r previews before.document) refused

-- An action that is refused: when every call works, it fails with exactly the code of the refusal
-- and the view of the catalog, and the disk is as it was; and whatever the environment decides about
-- the calls, the disk is as it was, and the failure has that code or one that stands for a failed call.
pub apply-Unchanged :
    (document_sha256 : SubscriptionAccountDocument → Text) (k a r : ℕ)
    (action : SubscriptionAccountAction) (previews : Previews)
    (before : SubscriptionAccountFileSnapshot) (code : Code) (d : Disk) (faults : List Fault)
    → find_receipt a d.catalog.receipts ≡ none
    → read_document d.file ≡ ok before
    → refusal
        (is_clean d.catalog.recovery)
        (d.catalog.revision == r)
        (plan_action action r previews before.document)
      ≡ some code
    → (apply document_sha256 k a r action previews [] d
        ≡ returned (err (refused_with d code before.document)) [] d)
      × Ends (Unchanged code d) (Same d) (apply document_sha256 k a r action previews faults d)
apply-Unchanged document_sha256 k a r action previews before code d faults new reads refused = (
  apply_refuses d document_sha256 k a r action previews before code new reads refused,
  apply-Told document_sha256 k a r action previews before code d faults new reads refused,
)
