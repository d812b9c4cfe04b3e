-- ===== src/Accounts.antt =====
-- The private file of the subscription accounts, crates/routing-service/src/subscription/accounts.rs:
-- its document and what a document must satisfy. SHA-256 of a document's JSON text is a parameter.
use native.Mathlib.Decide.{ℕ_discrete}
use muxvia.Prelude.{
  ℕ, Bool, true, false, not, ◌&&◌, ◌||◌, Option, none, some, [], ◌∷◌, Bytes, bytes_eq, ltb, ◌==◌,
  if◌then◌else◌, same, Map, contains_key, every,
}
use muxvia.Text.{Text}

-- An i64, as the time of an authentication is.
pub data ℤ : Type 0 where
  pos : ℕ → ℤ
  negsuc : ℕ → ℤ

unfoldable pub ltz : ℤ → ℤ → Bool
ltz (pos a) (pos b) = ltb a b
ltz (pos a) (negsuc b) = false
ltz (negsuc a) (pos b) = true
ltz (negsuc a) (negsuc b) = ltb b a

pub data AccountAuthorizationState : Type 0 where
  authorized needs_reauthorization : AccountAuthorizationState

pub record SubscriptionAccountRecord : Type 0 where
  pub account_id : Text
  pub email : Option Text
  pub refresh_token : Text
  pub authenticated_at : ℤ
  pub state : AccountAuthorizationState

pub record SubscriptionAccountDocument : Type 0 where
  pub version : ℕ
  pub accounts : Map SubscriptionAccountRecord
  pub default_account_id : Option Text

ℤ-discrete : Discrete ℤ
ℤ-discrete = hlevel (ℕ_discrete)

AccountAuthorizationState-discrete : Discrete AccountAuthorizationState
AccountAuthorizationState-discrete = hlevel

pub SubscriptionAccountRecord-discrete : Discrete SubscriptionAccountRecord
SubscriptionAccountRecord-discrete = hlevel (ℕ_discrete)

pub SubscriptionAccountDocument-discrete : Discrete SubscriptionAccountDocument
SubscriptionAccountDocument-discrete = hlevel (ℕ_discrete)

abbrev pub document_version : ℕ
document_version = 1

unfoldable pub default_document : SubscriptionAccountDocument
default_document = record { version = document_version; accounts = []; default_account_id = none }

abbrev pub record_eq : SubscriptionAccountRecord → SubscriptionAccountRecord → Bool
record_eq a b = same SubscriptionAccountRecord-discrete a b

abbrev pub document_eq : SubscriptionAccountDocument → SubscriptionAccountDocument → Bool
document_eq a b = same SubscriptionAccountDocument-discrete a b

abbrev pub is_empty : Text → Bool
is_empty [] = true
is_empty (c ∷ t) = false

-- The account stored under an identity: the negation of the test that refuses it.
unfoldable pub sound_account : Text → SubscriptionAccountRecord → Bool
sound_account identity a =
    not (is_empty identity || not (bytes_eq a.account_id identity) || is_empty a.refresh_token)

unfoldable pub default_is_member : Option Text → Map SubscriptionAccountRecord → Bool
default_is_member none m = true
default_is_member (some identity) m = contains_key identity m

-- `validate_document` succeeds.
unfoldable pub validate_document : SubscriptionAccountDocument → Bool
unfolding sound_account default_is_member
validate_document d =
    (d.version == document_version)
    && every sound_account d.accounts
    && default_is_member d.default_account_id d.accounts

abbrev pub private_file_mode : ℕ
private_file_mode = 384

-- `validate_recovery_contents`: the document in a recovery archive; none stands for the error.
unfoldable pub validate_recovery_contents :
    Bool
    → Option ℕ
    → Bytes
    → (Bytes → Option SubscriptionAccountDocument)
    → Option SubscriptionAccountDocument
unfolding validate_document default_document
validate_recovery_contents false none [] from_slice = some default_document
validate_recovery_contents false _ _ from_slice = none
validate_recovery_contents true none bytes from_slice = none
validate_recovery_contents true (some mode) bytes from_slice =
    if mode == private_file_mode then checked (from_slice bytes) else none
  where
    checked : Option SubscriptionAccountDocument → Option SubscriptionAccountDocument
    checked none = none
    checked (some d) = if validate_document d then some d else none
