-- ===== src/Http.antt =====
-- What the service uses of the crates `http` and `flate2`, which are not part of the repository:
-- header maps, which hold several values under one name, and the gzip reader. A header name is
-- its text in lower case.
use muxvia.Prelude.{ℕ, Option, none, some, List, [], ◌∷◌, Bytes}
use muxvia.Text.{Text}

pub record HttpLib : Type 1 where
  pub HeaderMap : Type 0
  pub HeaderValue : Type 0
  pub new_map : HeaderMap
  -- The entries in iteration order, and the values under one name.
  pub iter : HeaderMap → List (Text × HeaderValue)
  pub get_all : HeaderMap → Text → List HeaderValue
  pub append : HeaderMap → Text → HeaderValue → HeaderMap
  pub insert : HeaderMap → Text → HeaderValue → HeaderMap
  -- `HeaderName::from_bytes`, `HeaderValue::from_str`, `to_str` and `as_bytes`.
  pub name_from_bytes : Bytes → Option Text
  pub value_from_str : Text → Option HeaderValue
  pub to_str : HeaderValue → Option Text
  pub as_bytes : HeaderValue → Bytes
  -- `MultiGzDecoder::new(bytes).take(limit)`, read to its end; `none` is an error of the reader.
  pub gunzip : (limit : ℕ) → Bytes → Option Bytes

-- `get`: the first value under a name.
abbrev pub first_of_list {ℓ} : {A : Type ℓ} → List A → Option A
first_of_list [] = none
first_of_list (x ∷ xs) = some x
