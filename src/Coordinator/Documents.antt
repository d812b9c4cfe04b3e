-- ===== src/Coordinator/Documents.antt =====
-- The documents that crates/routing-service/src/subscription/coordinator.rs makes, and
-- `validate_document` of accounts.rs.
use muxvia.Prelude.{
  ℕ, ◌≡◌, refl, inl, inr, Bool, true, false, ◌&&◌, ◌==◌, Option, none, some, [], ◌∷◌, arith,
  bytes_eq, bytes_eq_iff, Map, get, insert, remove, contains_key, every, get-insert,
  contains_key-insert, contains_key-get, every-insert, every-remove, every-get, contains_key-remove,
  Bool-cases, and_parts, sym, subst, if◌then◌else◌,
}
use muxvia.Text.{Text}
use muxvia.Effects.{Result, ok, err}
use muxvia.Accounts.{
  ℤ, AccountAuthorizationState, SubscriptionAccountRecord, SubscriptionAccountDocument,
  validate_document, sound_account, default_is_member, is_empty, document_version,
}
use muxvia.Catalog.{
  SubscriptionAccountAction, set_default_account, bind_provider_fixed, bind_provider_follow_default,
  delete_account, Code,
}
use muxvia.Coordinator.Changes.{
  authorize_account, refresh_account, delete_account_from, set_default_to, is_default, or_first,
  or_else, elect, elect_from, comes_before,
}
use muxvia.Coordinator.Elected.{elect_round}
use muxvia.Coordinator.Previews.{Previews, plan_action}

module _ (k : Text) (x y : Text × SubscriptionAccountRecord)
    (m : Map SubscriptionAccountRecord) where
  contains_key-skip : contains_key k (y ∷ m) ≡ true → contains_key k (x ∷ y ∷ m) ≡ true
  unfolding contains_key
  contains_key-skip h = ground arith

  contains_key-under : contains_key k (x ∷ m) ≡ true → contains_key k (x ∷ y ∷ m) ≡ true
  unfolding contains_key
  contains_key-under h = ground arith

elect-contains_key :
    (m : Map SubscriptionAccountRecord) (x : Text × SubscriptionAccountRecord)
    → contains_key (elect_from x m).0 (x ∷ m) ≡ true
unfolding contains_key elect_from
elect-contains_key [] x = rw ((bytes_eq_iff x.0 x.0).1 refl) refl
elect-contains_key (y ∷ m) x = elim (Bool-cases (comes_before y x)) [
  | inl e ↦
      subst (λ z. contains_key z.0 (x ∷ y ∷ m) ≡ true) (sym (elect_round x y m true e))
        (contains_key-skip (elect_from y m).0 x y m (elect-contains_key m y))
  | inr e ↦
      subst (λ z. contains_key z.0 (x ∷ y ∷ m) ≡ true) (sym (elect_round x y m false e))
        (contains_key-under (elect_from x m).0 x y m (elect-contains_key m x))
]

elect-default_is_member : (m : Map SubscriptionAccountRecord) → default_is_member (elect m) m ≡ true
unfolding elect default_is_member
elect-default_is_member [] = refl
elect-default_is_member (x ∷ m) = elect-contains_key m x

module _ (d : SubscriptionAccountDocument) where
  valid_whole :
      (d.version == document_version) ≡ true
      → every sound_account d.accounts ≡ true
      → default_is_member d.default_account_id d.accounts ≡ true
      → validate_document d ≡ true
  unfolding validate_document
  valid_whole v s m = rw (v, s, m) refl

  valid_parts :
      validate_document d ≡ true
      → ((d.version == document_version) ≡ true)
        × (every sound_account d.accounts ≡ true)
        × (default_is_member d.default_account_id d.accounts ≡ true)
  unfolding validate_document
  valid_parts v =
      let (w, r) =
        and_parts ((d.version == document_version) && every sound_account d.accounts) _ v in
      let (p, q) = and_parts (d.version == document_version) _ w in (p, q, r)

or_first-member :
    (o : Option Text) (i : Text) (a : SubscriptionAccountRecord) (m : Map SubscriptionAccountRecord)
    → default_is_member o m ≡ true
    → default_is_member (or_first o i) (insert i a m) ≡ true
unfolding default_is_member
or_first-member none i a m h = contains_key-get i (insert i a m) a (get-insert i a m)
or_first-member (some j) i a m h = contains_key-insert j i a m h

-- An authorization keeps a document valid.
pub authorize_account-valid :
    (d : SubscriptionAccountDocument) (a : SubscriptionAccountRecord)
    → sound_account a.account_id a ≡ true
    → validate_document d ≡ true
    → validate_document (authorize_account d a) ≡ true
unfolding authorize_account
authorize_account-valid d a s v =
    let (p, q, r) = valid_parts d v in
    valid_whole (authorize_account d a) p (every-insert sound_account a.account_id a d.accounts s q)
      (or_first-member d.default_account_id a.account_id a d.accounts r)

default-insert :
    (o : Option Text) (i : Text) (a : SubscriptionAccountRecord) (m : Map SubscriptionAccountRecord)
    → default_is_member o m ≡ true
    → default_is_member o (insert i a m) ≡ true
unfolding default_is_member
default-insert none i a m h = refl
default-insert (some j) i a m h = contains_key-insert j i a m h

sound_refreshed :
    (i : Text) (a : SubscriptionAccountRecord) (token : Option Text) (at : Option ℤ)
    (state : AccountAuthorizationState)
    → is_empty (or_else token a.refresh_token) ≡ false
    → sound_account i a ≡ true
    → sound_account i (record a {
      refresh_token = or_else token a.refresh_token;
      authenticated_at = or_else at a.authenticated_at;
      state = state;
    })
      ≡ true
unfolding sound_account
sound_refreshed i a token at state ne s = ground arith

-- So does the refresh of an account that is stored, with a token that is not empty.
pub refresh_account-valid :
    (d : SubscriptionAccountDocument) (i : Text) (a : SubscriptionAccountRecord)
    (token : Option Text) (at : Option ℤ) (state : AccountAuthorizationState)
    → get i d.accounts ≡ some a
    → is_empty (or_else token a.refresh_token) ≡ false
    → validate_document d ≡ true
    → validate_document (refresh_account d i a token at state) ≡ true
unfolding refresh_account
refresh_account-valid d i a token at state stored ne v =
    let (p, q, r) = valid_parts d v in
    valid_whole (refresh_account d i a token at state) p
      (every-insert sound_account i _ d.accounts
        (sound_refreshed i a token at state ne (every-get sound_account i d.accounts a q stored)) q)
      (default-insert d.default_account_id i _ d.accounts r)

rest-member :
    (o : Option Text) (i : Text) (m : Map SubscriptionAccountRecord)
    → default_is_member o m ≡ true
    → default_is_member (if is_default o i then elect (remove i m) else o) (remove i m) ≡ true
unfolding default_is_member is_default
rest-member none i m h = refl
rest-member (some j) i m h = elim (Bool-cases (bytes_eq j i)) [
  | inl e ↦ rw e (elect-default_is_member (remove i m))
  | inr e ↦ rw e (contains_key-remove j i m h e)
]

if_ok :
    {A : Type 0} (b : Bool) (x y : A) (code : Code)
    → ◌≡◌ {A = Result Code A} (if b then ok x else err code) (ok y)
    → (b ≡ true) × (x ≡ y)
if_ok true x y code e = (refl, ground arith)
if_ok false x y code e = ground arith

-- So does every action that is planned.
pub plan_action-valid :
    (action : SubscriptionAccountAction) (r : ℕ) (previews : Previews)
    (d y : SubscriptionAccountDocument) (changed : Bool)
    → validate_document d ≡ true
    → plan_action action r previews d ≡ ok (y, changed)
    → validate_document y ≡ true
unfolding plan_action set_default_to delete_account_from default_is_member
plan_action-valid (set_default_account i token) r previews d y changed v e =
    let (p, q, r) = valid_parts d v in
    let (b, s) = if_ok _ _ _ _ e in
    subst (λ z. validate_document z.0 ≡ true) s
      (valid_whole (set_default_to d i) p q (and_parts _ _ b).1)
plan_action-valid (delete_account i) r previews d y changed v e =
    let (p, q, r) = valid_parts d v in
    let (b, s) = if_ok _ _ _ _ e in
    subst (λ z. validate_document z.0 ≡ true) s
      (valid_whole (delete_account_from d i) p (every-remove sound_account i d.accounts q)
        (rest-member d.default_account_id i d.accounts r))
plan_action-valid (bind_provider_fixed t p q i) r previews d y changed v e = ground arith
plan_action-valid (bind_provider_follow_default t p q) r previews d y changed v e = ground arith
