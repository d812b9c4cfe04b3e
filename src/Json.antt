-- ===== src/Json.antt =====
-- What the service uses of serde_json, which is not part of the repository: values, and the two
-- parsers that yield one from a text and from bytes.
use muxvia.Prelude.{ℕ, Bool, Option, Bytes}
use muxvia.Text.{Text}

pub record JsonLib : Type 1 where
  pub Value : Type 0
  pub from_str : Text → Option Value
  pub from_slice : Bytes → Option Value
  -- `Value::get`: the member of an object.
  pub get : Value → Text → Option Value
  pub as_str : Value → Option Text
  pub as_u64 : Value → Option ℕ
  pub is_object : Value → Bool
