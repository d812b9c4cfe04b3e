-- ===== src/Framing.antt =====
-- The frames of the control socket, crates/routing-service/src/control/framing.rs: four bytes of
-- length, most significant first, and a JSON text. A reader is the sequence of what its reads can
-- get, at least one byte each, up to the end of the stream or an input error.
pub mod Exact
pub mod RoundTrip
mod Tests
use muxvia.Prelude.{
  ℕ, zero, suc, ◌+◌, ◌-◌, ◌*◌, ◌/◌, ◌%◌, Bool, true, false, Option, none, some, List, [], ◌∷◌, ◌++◌,
  Bytes, length, take, drop, ltb, if◌then◌else◌,
}
use muxvia.Text.{Text, from_utf8}
use muxvia.Json.{JsonLib}

-- `FRAME_LIMIT` of control/protocol.rs
abbrev pub frame_limit : ℕ
frame_limit = 1048576

pub data FrameError : Type 0 where
  end_of_stream frame_too_large invalid_utf8 invalid_json unexpected_eof io : FrameError

pub data Framed {ℓ} (A : Type ℓ) : Type ℓ where
  ok : A → Framed A
  err : FrameError → Framed A

infixl 5 ◌>>=◌
abbrev pub ◌>>=◌ {ℓ κ} : {A : Type ℓ} {B : Type κ} → Framed A → (A → Framed B) → Framed B
ok a >>= f = f a
err e >>= f = err e

pub data Reader : Type 0 where
  eof : Reader
  broken : Reader
  packet : (first : ℕ) (more : Bytes) → Reader → Reader

-- The bytes of a part, before those that the next read gets.
unfoldable pub prepend {ℓ} : {A : Type ℓ} → Bytes → Framed (Bytes × A) → Framed (Bytes × A)
prepend front (ok (bytes, rest)) = ok (front ++ bytes, rest)
prepend front (err e) = err e

-- What is left of a packet.
unread : Bytes → Reader → Reader
unread [] r = r
unread (b ∷ bs) r = packet b bs r

-- `read` into a buffer with room for that many bytes, at least one.
unfoldable pub read : ℕ → Reader → Framed (Bytes × Reader)
unfolding unread
read room eof = ok ([], eof)
read room broken = err io
read room (packet first more r) = ok (take room (first ∷ more), unread (drop room (first ∷ more)) r)

-- `read_exact`: reads until the buffer is full.
unfoldable pub read_exact : ℕ → Reader → Framed (Bytes × Reader)
unfolding prepend
read_exact zero r = ok ([], r)
read_exact (suc n) eof = err unexpected_eof
read_exact (suc n) broken = err io
read_exact (suc n) (packet first [] r) = prepend (first ∷ []) (read_exact n r)
read_exact (suc n) (packet first (next ∷ more) r) =
    prepend (first ∷ []) (read_exact n (packet next more r))

-- The rest of the prefix, after the first read of it.
fill_prefix : Bytes → Reader → Framed (Bytes × Reader)
unfolding read_exact prepend
fill_prefix [] r = err end_of_stream
fill_prefix (b ∷ bs) r = prepend (b ∷ bs) (read_exact (4 - length (b ∷ bs)) r)

unfoldable pub read_prefix : Reader → Framed (Bytes × Reader)
unfolding read fill_prefix
read_prefix r = read 4 r >>= λ got. fill_prefix got.0 got.1

-- `u32::from_be_bytes` of the four bytes of a prefix, and `to_be_bytes`.
unfoldable pub from_be_bytes : Bytes → ℕ
from_be_bytes (a ∷ b ∷ c ∷ d ∷ []) = ((a * 256 + b) * 256 + c) * 256 + d
from_be_bytes _ = 0

unfoldable pub to_be_bytes : ℕ → Bytes
to_be_bytes n = n / 16777216 % 256 ∷ n / 65536 % 256 ∷ n / 256 % 256 ∷ n % 256 ∷ []

module _ (json : JsonLib) where
  open json use {Value, from_str}

  parse_body : Bytes → Framed Value
  parse_body body = elim (from_utf8 body) [
    | none ↦ err invalid_utf8
    | some text ↦ elim (from_str text) [ none ↦ err invalid_json | some value ↦ ok value ]
  ]

  parse_part {ℓ} : {A : Type ℓ} → Framed (Bytes × A) → Framed (Value × A)
  unfolding parse_body
  parse_part (err e) = err e
  parse_part (ok (body, rest)) = parse_body body >>= λ value. ok (value, rest)

  -- The body that a prefix announces.
  read_body : Framed (Bytes × Reader) → Framed (Bytes × Reader)
  unfolding from_be_bytes read_exact
  read_body (err e) = err e
  read_body (ok (prefix, r)) =
      if ltb frame_limit (from_be_bytes prefix)
      then err frame_too_large
      else read_exact (from_be_bytes prefix) r

  unfoldable pub read_frame : Reader → Framed (Value × Reader)
  unfolding read_prefix read_body parse_part
  read_frame r = parse_part (read_body (read_prefix r))

-- `serde_json::to_vec` and the writer, which are not part of the repository.
pub record FrameWriter (json : JsonLib) : Type 1 where
  pub to_vec : json.Value → Option Bytes
  pub Writer : Type 0
  pub write_all : Writer → Bytes → Option Writer
  -- All that was written.
  pub written : Writer → Bytes

unfoldable pub or_error {ℓ} : {A : Type ℓ} → FrameError → Option A → Framed A
or_error e none = err e
or_error e (some a) = ok a

module _ (json : JsonLib) (out : FrameWriter json) where
  open out use {Writer, to_vec, write_all}

  unfoldable pub write_frame : Writer → json.Value → Framed Writer
  unfolding to_be_bytes or_error
  write_frame w value = do
    body ← or_error invalid_json (to_vec value)
    w1 ←
        (if ltb frame_limit (length body)
          then err frame_too_large
          else or_error io (write_all w (to_be_bytes (length body))))
    or_error io (write_all w1 body)
