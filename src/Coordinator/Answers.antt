-- ===== src/Coordinator/Answers.antt =====
-- The answers of the transaction to an action that changes the file of the accounts,
-- crates/routing-service/src/subscription/coordinator.rs.
use muxvia.Prelude.{
  ℕ, ◌≡◌, refl, ◌⊎◌, inl, inr, true, none, some, List, [], ◌∷◌, arith, Bool-cases, ==_iff,
}
use muxvia.Text.{Text}
use muxvia.Effects.{ok, err}
use muxvia.Accounts.{SubscriptionAccountDocument}
use muxvia.Catalog.{
  clean, pending, committed, Catalog, Code, SubscriptionAccountActionFailure,
  SubscriptionAccountAction, set_default_account, bind_provider_fixed, bind_provider_follow_default,
  delete_account, SubscriptionAccountOutcome,
}
use muxvia.Catalog.Intents.{is_pending, pending_rows, is_clean}
use muxvia.Catalog.Actions.{
  find_receipt, act, matching_action, settle_action, commit_intent, complete_action, moved,
  receipt_of, commit_settled, commit_acted, commit_new, commit_subscription_account_action, Answer,
}
use muxvia.Coordinator.Previews.{Previews, plan_action, subscription_action_operation}
use muxvia.Coordinator.Phases.{intent_table}

-- Rows that have no pending one among them are not changed.
matching_action-no_pending :
    (k a : ℕ) (is : List _) → pending_rows is ≡ [] → matching_action k a is ≡ 0
unfolding matching_action pending_rows
matching_action-no_pending k a [] e = refl
matching_action-no_pending k a (i ∷ is) e = elim (Bool-cases (is_pending i.state)) [
  | inl p ↦ ground arith
  | inr p ↦ ground (arith, matching_action-no_pending k a is)
]

settle_action-no_pending :
    (k a : ℕ) (is : List _) → pending_rows is ≡ [] → settle_action k a is ≡ is
unfolding settle_action pending_rows
settle_action-no_pending k a [] e = refl
settle_action-no_pending k a (i ∷ is) e = elim (Bool-cases (is_pending i.state)) [
  | inl p ↦ ground arith
  | inr p ↦ ground (arith, settle_action-no_pending k a is)
]

-- An action that changes the file leaves the bindings alone.
act-file :
    (action : SubscriptionAccountAction) (r : ℕ) (previews : Previews)
    (b y : SubscriptionAccountDocument) (c : Catalog)
    → plan_action action r previews b ≡ ok (y, true)
    → (act action y c ≡ ok c) ⊎ ((code : Code) × (act action y c ≡ err code))
unfolding plan_action act
act-file (set_default_account i token) r previews b y c e = ground arith
act-file (delete_account i) r previews b y c e = ground arith
act-file (bind_provider_fixed t p q i) r previews b y c e = ground arith
act-file (bind_provider_follow_default t p q) r previews b y c e = ground arith

module _ (document_sha256 : SubscriptionAccountDocument → Text) (k a : ℕ)
    (action : SubscriptionAccountAction) (previews : Previews) (b y : SubscriptionAccountDocument)
    (c : Catalog) where
  abbrev pub operation : Text
  operation = subscription_action_operation action

  -- The catalog that the action leaves.
  abbrev pub applied_catalog : Catalog
  applied_catalog =
      let row =
        receipt_of a c.revision action y
          (intent_table document_sha256 k a operation b y c committed) in
      record (moved a c.revision action y
        (intent_table document_sha256 k a operation b y c committed)) {
          receipts = row ∷ c.receipts;
        }

  abbrev pub table : Catalog
  table = intent_table document_sha256 k a operation b y c pending

  -- The answers of the transaction.
  pub data Answers : Answer → Type 0 where
    accepts : (o : SubscriptionAccountOutcome) → Answers (ok (ok o), applied_catalog)
    refuses : (e : SubscriptionAccountActionFailure) → Answers (ok (err e), table)

  settled-Answers :
      pending_rows c.intents ≡ []
      → Answers (commit_settled a c.revision action y table (commit_intent (some k) a table))
  unfolding commit_settled commit_intent matching_action settle_action complete_action
  settled-Answers quiet =
      rw
        (
          matching_action-no_pending k a c.intents quiet,
          settle_action-no_pending k a c.intents quiet,
          (==_iff k k).1 refl,
          (==_iff a a).1 refl,
        )
        (accepts _)

  pub commit-Answers :
      c.recovery ≡ clean
      → pending_rows c.intents ≡ []
      → find_receipt a c.receipts ≡ none
      → plan_action action c.revision previews b ≡ ok (y, true)
      → Answers (commit_subscription_account_action a c.revision action y (some k) table)
  unfolding commit_subscription_account_action commit_new commit_acted
  commit-Answers is_so quiet new plan =
      let cl : is_clean c.recovery ≡ true = rw is_so refl in
      rw (new, cl, (==_iff c.revision c.revision).1 refl)
        (elim (act-file action c.revision previews b y table plan) [
          | inl e ↦ rw e (settled-Answers quiet)
          | inr (code, e) ↦ rw e (refuses _)
        ])
