-- ===== src/Coordinator/Changes.antt =====
-- The documents that the methods of crates/routing-service/src/subscription/coordinator.rs make of
-- the one that they read, and the methods that record an authorization and a refresh.
use muxvia.Prelude.{
  ℕ, Bool, true, false, not, ◌&&◌, ◌||◌, Option, none, some, [], ◌∷◌, bytes_eq, bytes_lt,
  if◌then◌else◌, Map, get, insert, remove,
}
use muxvia.Text.{Text, codes}
use muxvia.Effects.{pure, ◌>>=◌, or_raise}
use muxvia.Accounts.{
  ℤ, ltz, AccountAuthorizationState, SubscriptionAccountRecord, SubscriptionAccountDocument,
  record_eq,
}
use muxvia.Catalog.{
  SubscriptionAccountCatalogView, subscription_account_file_invalid, subscription_account_not_found,
  stale_subscription_catalog_revision,
}
use muxvia.AccountStore.{SubscriptionAccountFileSnapshot, read}
use muxvia.Coordinator.{CoordinatorAction, empty_failure, fail_with, fail}
use muxvia.Coordinator.Commit.{commit_private_mutation}

abbrev pub or_first : Option Text → Text → Option Text
or_first none i = some i
or_first (some j) i = some j

-- The document with an account that was authorized.
unfoldable pub authorize_account :
    SubscriptionAccountDocument → SubscriptionAccountRecord → SubscriptionAccountDocument
authorize_account d a = record d {
  accounts = insert a.account_id a d.accounts;
  default_account_id = or_first d.default_account_id a.account_id;
}

abbrev pub or_else : {A : Type 0} → Option A → A → A
or_else none a = a
or_else (some b) a = b

unfoldable pub refresh_account :
    SubscriptionAccountDocument
    → Text
    → SubscriptionAccountRecord
    → (refresh_token : Option Text) (authenticated_at : Option ℤ) → AccountAuthorizationState
    → SubscriptionAccountDocument
refresh_account d i a token at state = record d {
  accounts =
      insert i
        (record a {
          refresh_token = or_else token a.refresh_token;
          authenticated_at = or_else at a.authenticated_at;
          state = state;
        })
        d.accounts;
}

-- The comparison of `min_by`, as a test for `Less`: the later authentication comes first, then the
-- smaller identity.
unfoldable pub comes_before :
    Text × SubscriptionAccountRecord → Text × SubscriptionAccountRecord → Bool
comes_before (i, a) (j, b) =
    ltz b.authenticated_at a.authenticated_at
    || (not (ltz a.authenticated_at b.authenticated_at) && bytes_lt i j)

unfoldable pub elect_from :
    Text × SubscriptionAccountRecord
    → Map SubscriptionAccountRecord
    → Text × SubscriptionAccountRecord
unfolding comes_before
elect_from x [] = x
elect_from x (y ∷ m) = elect_from (if comes_before y x then y else x) m

-- `min_by` over the accounts, and the identity of the least.
unfoldable pub elect : Map SubscriptionAccountRecord → Option Text
unfolding elect_from
elect [] = none
elect (x ∷ m) = some (elect_from x m).0

unfoldable pub is_default : Option Text → Text → Bool
is_default none i = false
is_default (some j) i = bytes_eq j i

unfoldable pub delete_account_from :
    SubscriptionAccountDocument → Text → SubscriptionAccountDocument
unfolding is_default elect
delete_account_from d i =
    let rest = remove i d.accounts in
    record d {
      accounts = rest;
      default_account_id =
          if is_default d.default_account_id i then elect rest else d.default_account_id;
    }

unfoldable pub set_default_to : SubscriptionAccountDocument → Text → SubscriptionAccountDocument
set_default_to d i = record d { default_account_id = some i }

pub data SubscriptionAuthorizationCommit : Type 0 where
  cancelled : SubscriptionAuthorizationCommit
  committed_view : SubscriptionAccountCatalogView → SubscriptionAuthorizationCommit

-- `begin_commit`: with a cancellation, whether its token is cancelled once the gate is held.
abbrev is_cancelled : Option Bool → Bool
is_cancelled none = false
is_cancelled (some b) = b

module _ (document_sha256 : SubscriptionAccountDocument → Text) where
  -- An intent identifier is new: `Uuid::new_v4`.
  unfoldable pub record_authorization_inner :
      (intent_id flow_id : ℕ)
      → SubscriptionAccountRecord
      → (cancellation : Option Bool) → CoordinatorAction SubscriptionAuthorizationCommit
  record_authorization_inner k flow account cancellation = begun (is_cancelled cancellation)
    where
      begun : Bool → CoordinatorAction SubscriptionAuthorizationCommit
      begun true = pure cancelled
      begun false = do
        before ← or_raise read (empty_failure subscription_account_file_invalid)
        view ←
            commit_private_mutation document_sha256 k flow (codes "authorize-account") before
              (authorize_account before.document account)
        pure (committed_view view)

  unfoldable pub record_refresh :
      (intent_id action_id : ℕ)
      → (expected : SubscriptionAccountRecord)
      → (refresh_token : Option Text) (authenticated_at : Option ℤ) → AccountAuthorizationState
      → CoordinatorAction SubscriptionAccountCatalogView
  record_refresh k action expected token at state = do
    before ← or_raise read (empty_failure subscription_account_file_invalid)
    refresh before (get expected.account_id before.document.accounts)
    where
      refresh_same :
          SubscriptionAccountFileSnapshot
          → SubscriptionAccountRecord
          → Bool
          → CoordinatorAction SubscriptionAccountCatalogView
      refresh_same before current true =
          commit_private_mutation document_sha256 k action (codes "refresh-account") before
            (refresh_account before.document expected.account_id current token at state)
      refresh_same before current false =
          fail_with before.document stale_subscription_catalog_revision

      refresh :
          SubscriptionAccountFileSnapshot
          → Option SubscriptionAccountRecord
          → CoordinatorAction SubscriptionAccountCatalogView
      refresh before none = fail subscription_account_not_found
      refresh before (some current) = refresh_same before current (record_eq current expected)
