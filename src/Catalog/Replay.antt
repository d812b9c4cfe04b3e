-- ===== src/Catalog/Replay.antt =====
-- `commit_subscription_account_action` called twice with one action identifier,
-- crates/routing-service/src/state/subscription_accounts.rs.
use muxvia.Prelude.{
  ℕ, ◌≡◌, refl, ap, subst, Option, none, some, same_self, same→eq, if_both, ==_iff, Bool-cases, inl,
  inr, ◌==◌,
}
use muxvia.Effects.{Result, ok, err}
use muxvia.Accounts.{SubscriptionAccountDocument}
use muxvia.Catalog.{
  Catalog, Receipt, SubscriptionAccountAction, SubscriptionAccountOutcome, StateError, Code,
}
use muxvia.Catalog.Intents.{is_clean}
use muxvia.Catalog.Actions.{
  Answer, SubscriptionAccountAction-discrete, action_eq, find_receipt, as_replayed, act,
  commit_intent, receipt_of, complete_action, commit_settled, commit_acted, commit_new,
  commit_subscription_account_action,
}

-- An answer that kept its outcome in the receipts.
pub record Kept (a : ℕ) (action : SubscriptionAccountAction) (o : SubscriptionAccountOutcome)
    (c : Catalog) : Type 0 where
  pub receipt : Receipt
  pub stored : find_receipt a c.receipts ≡ some receipt
  pub of_action : receipt.action ≡ action
  pub with_outcome : as_replayed receipt.outcome ≡ as_replayed o

-- An answer with an outcome has kept it.
KeptIn : ℕ → SubscriptionAccountAction → Answer → Type 0
KeptIn a action (ok (ok o), c) = Kept a action o c
KeptIn a action (ok (err e), c) = Unit {0}
KeptIn a action (err e, c) = Unit {0}

module _ (a r : ℕ) (action : SubscriptionAccountAction)
    (document : SubscriptionAccountDocument) where
  complete_action-KeptIn : (c : Catalog) → KeptIn a action (complete_action a r action document c)
  unfolding complete_action find_receipt KeptIn
  complete_action-KeptIn c = record {
    receipt = receipt_of a r action document c;
    stored = rw ((==_iff a a).1 refl) refl;
    of_action = refl;
    with_outcome = refl;
  }

  commit_settled-KeptIn :
      (c : Catalog) (x : Result StateError Catalog)
      → KeptIn a action (commit_settled a r action document c x)
  unfolding commit_settled KeptIn
  commit_settled-KeptIn c (ok c') = complete_action-KeptIn c'
  commit_settled-KeptIn c (err e) = tt

  commit_acted-KeptIn :
      (k : Option ℕ) (c : Catalog) (x : Result Code Catalog)
      → KeptIn a action (commit_acted a r action document k c x)
  unfolding commit_acted KeptIn
  commit_acted-KeptIn k c (err code) = tt
  commit_acted-KeptIn k c (ok acted) = commit_settled-KeptIn c (commit_intent k a acted)

  commit_new-KeptIn :
      (k : Option ℕ) (c : Catalog) → KeptIn a action (commit_new a r action document k c)
  unfolding commit_new KeptIn
  commit_new-KeptIn k c =
      if_both (KeptIn a action) (is_clean c.recovery) _ _
        (if_both (KeptIn a action) (c.revision == r) _ _
          (commit_acted-KeptIn k c (act action document c)) tt)
        tt

  commit-KeptIn :
      (k : Option ℕ) (c : Catalog)
      → KeptIn a action (commit_subscription_account_action a r action document k c)
  unfolding commit_subscription_account_action KeptIn
  commit-KeptIn k c = go (find_receipt a c.receipts) refl
    where
      go :
          (x : Option Receipt)
          → find_receipt a c.receipts ≡ x
          → KeptIn a action (commit_subscription_account_action a r action document k c)
      go none e = rw e (commit_new-KeptIn k c)
      go (some x) e = rw e (elim (Bool-cases (action_eq x.action action)) [
        | inl t ↦ rw t (record {
          receipt = x;
          stored = e;
          of_action = same→eq SubscriptionAccountAction-discrete x.action action t;
          with_outcome = refl;
        })
        | inr t ↦ rw t tt
      ])

  replayed_again :
      (k : Option ℕ) (c : Catalog) (o : SubscriptionAccountOutcome)
      → Kept a action o c
      → commit_subscription_account_action a r action document k c ≡ (ok (ok (as_replayed o)), c)
  unfolding commit_subscription_account_action
  replayed_again k c o h =
      rw (h.stored, h.of_action, same_self SubscriptionAccountAction-discrete action)
        (ap (λ x. (ok (ok x), c)) h.with_outcome)

-- An outcome of `commit_subscription_account_action` is given again, and changes nothing, whenever
-- the same action identifier commits the same action later on in the tables that it left, with
-- whatever revision, document and intent.
pub commit-replayed :
    (a r r' : ℕ) (action : SubscriptionAccountAction)
    (document document' : SubscriptionAccountDocument) (k k' : Option ℕ) (c c' : Catalog)
    (o : SubscriptionAccountOutcome)
    → commit_subscription_account_action a r action document k c ≡ (ok (ok o), c')
    → commit_subscription_account_action a r' action document' k' c' ≡ (ok (ok (as_replayed o)), c')
unfolding KeptIn
commit-replayed a r r' action document document' k k' c c' o e =
    replayed_again a r' action document' k' c' o
      (subst (KeptIn a action) e (commit-KeptIn a r action document k c))
