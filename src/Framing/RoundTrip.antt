-- ===== src/Framing/RoundTrip.antt =====
-- Writing a frame and reading it, `write_frame` and `read_frame` of
-- crates/routing-service/src/control/framing.rs.
use muxvia.Prelude.{
  ℕ, ◌+◌, ◌≤◌, ◌≡◌, refl, ap, ◌∙◌, Bool, true, false, Option, none, some, [], ◌∷◌, ◌++◌,
  append_assoc, Bytes, length, length-append, take, drop, ltb, if◌then◌else◌, arith,
}
use muxvia.Text.{Text, from_utf8}
use muxvia.Json.{JsonLib}
use muxvia.Framing.{
  frame_limit, FrameError, invalid_json, frame_too_large, io, Framed, ok, err, ◌>>=◌, Reader,
  from_be_bytes, to_be_bytes, parse_body, parse_part, read_frame, FrameWriter, or_error,
  write_frame,
}
use muxvia.Framing.Exact.{End, inside, contents, ending, view, frame_of, read_frame-frame_of}

-- What serde_json and the writer promise.
pub record IsFrameWriter (json : JsonLib) (out : FrameWriter json) : Type 0 where
  pub write_all-written :
      (w w' : out.Writer) (bytes : Bytes)
      → out.write_all w bytes ≡ some w'
      → out.written w' ≡ out.written w ++ bytes
  pub to_vec-from_str :
      (value : json.Value) (bytes : Bytes)
      → out.to_vec value ≡ some bytes
      → (text : Text) × (from_utf8 bytes ≡ some text) × (json.from_str text ≡ some value)

from_be_bytes-to_be_bytes : (n : ℕ) → n ≤ frame_limit → from_be_bytes (to_be_bytes n) ≡ n
unfolding from_be_bytes to_be_bytes
from_be_bytes-to_be_bytes n h = omega arith

take_all : (xs ys : Bytes) → take (length xs) (xs ++ ys) ≡ xs
take_all [] ys = refl
take_all (x ∷ xs) ys = ap (◌∷◌ x) (take_all xs ys)

drop_all : (xs ys : Bytes) → drop (length xs) (xs ++ ys) ≡ ys
drop_all [] ys = refl
drop_all (x ∷ xs) ys = drop_all xs ys

bind-ok {ℓ κ} :
    {A : Type ℓ} {B : Type κ} (m : Framed A) (f : A → Framed B) (b : B)
    → (m >>= f) ≡ ok b
    → (a : A) × (m ≡ ok a) × (f a ≡ ok b)
bind-ok (ok a) f b e = (a, refl, e)
bind-ok (err x) f b e = cc e

or_error-ok {ℓ} :
    {A : Type ℓ} (x : FrameError) (o : Option A) (a : A) → or_error x o ≡ ok a → o ≡ some a
unfolding or_error
or_error-ok x none a e = cc e
or_error-ok x (some b) a e = cc e

if-ok {ℓ} :
    {A : Type ℓ} (b : Bool) (x : FrameError) (m : Framed A) (a : A)
    → (if b then err x else m) ≡ ok a
    → (b ≡ false) × (m ≡ ok a)
if-ok true x m a e = cc e
if-ok false x m a e = (refl, e)

module _ (json : JsonLib) (out : FrameWriter json) (laws : IsFrameWriter json out) where
  -- The body of a frame is parsed as the value that it was made of.
  parse_body-value :
      (value : json.Value) (body : Bytes)
      → out.to_vec value ≡ some body
      → parse_body json body ≡ ok value
  unfolding parse_body
  parse_body-value value body e =
      let (text, decoded, parsed_text) = laws.to_vec-from_str value body e in
      rw (decoded, parsed_text, parse_body) refl

  -- What follows a prefix that announces that size.
  abbrev after_size : ℕ → Bytes → End → Framed (json.Value × (Bytes × End))
  after_size size bytes end =
      if ltb frame_limit size
      then err frame_too_large
      else if ltb (length bytes) size
      then err (inside end)
      else parse_part json (ok (take size bytes, (drop size bytes, end)))

  after_size-frame :
      (value : json.Value) (body rest : Bytes) (end : End)
      → out.to_vec value ≡ some body
      → length body ≤ frame_limit
      → after_size (length body) (body ++ rest) end ≡ ok (value, (rest, end))
  unfolding parse_part
  after_size-frame value body rest end e h =
      ap (λ b. if b then err frame_too_large else tail) (small (length body) h)
      ∙ ap
          (λ b.
            if b
            then err (inside end)
            else parse_part json
                (ok (take (length body) (body ++ rest), (drop (length body) (body ++ rest), end))))
          (enough (length-append body rest))
      ∙ ap (λ bytes. parse_part json (ok (bytes, (drop (length body) (body ++ rest), end))))
          (take_all body rest)
      ∙ ap (λ bytes. parse_part json (ok (body, (bytes, end)))) (drop_all body rest)
      ∙ ap (λ m. m >>= λ v. ok (v, (rest, end))) (parse_body-value value body e)
    where
      tail : Framed (json.Value × (Bytes × End))
      tail =
          if ltb (length (body ++ rest)) (length body)
          then err (inside end)
          else parse_part json
              (ok (take (length body) (body ++ rest), (drop (length body) (body ++ rest), end)))

      small : (n : ℕ) → n ≤ frame_limit → ltb frame_limit n ≡ false
      small n k = ground arith

      enough :
          length (body ++ rest) ≡ length body + length rest
          → ltb (length (body ++ rest)) (length body) ≡ false
      enough k = ground arith

  frame_of-frame :
      (value : json.Value) (body rest : Bytes) (end : End)
      → out.to_vec value ≡ some body
      → length body ≤ frame_limit
      → frame_of json (to_be_bytes (length body) ++ (body ++ rest)) end ≡ ok (value, (rest, end))
  unfolding frame_of to_be_bytes
  frame_of-frame value body rest end e h =
      ap (λ size. after_size size (body ++ rest) end) (from_be_bytes-to_be_bytes (length body) h)
      ∙ after_size-frame value body rest end e h

  -- A writer that wrote a frame.
  abbrev pub Wrote : out.Writer → json.Value → out.Writer → Type 0
  Wrote w value w' =
      (body : Bytes) × (out.to_vec value ≡ some body)
      × (length body ≤ frame_limit)
      × (out.written w' ≡ out.written w ++ (to_be_bytes (length body) ++ body))

  write_frame-Wrote :
      (w w' : out.Writer) (value : json.Value)
      → write_frame json out w value ≡ ok w'
      → Wrote w value w'
  unfolding write_frame
  write_frame-Wrote w w' value e =
      let (body, made, e1) = bind-ok (or_error invalid_json (out.to_vec value)) _ w' e in
      let (w1, prefixed, e2) =
        bind-ok
          (if ltb frame_limit (length body)
            then err frame_too_large
            else or_error io (out.write_all w (to_be_bytes (length body))))
          _ w' e1 in
      let small = if-ok (ltb frame_limit (length body)) frame_too_large _ w1 prefixed in
      (
        body,
        or_error-ok invalid_json (out.to_vec value) body made,
        bounded (length body) small.0,
        laws.write_all-written w1 w' body (or_error-ok io (out.write_all w1 body) w' e2)
            ∙ ap (λ bytes. bytes ++ body)
                (laws.write_all-written w w1 (to_be_bytes (length body))
                  (or_error-ok io (out.write_all w (to_be_bytes (length body))) w1 small.1))
            ∙ append_assoc (out.written w) (to_be_bytes (length body)) body,
      )
    where
      bounded : (n : ℕ) → ltb frame_limit n ≡ false → n ≤ frame_limit
      bounded n k = ground arith

  -- A value that was written is read back: if `write_frame` succeeds, then what it adds to the output
  -- is a frame, and from any stream that begins with that frame, however it is divided into packets,
  -- `read_frame` returns the value and leaves the rest. The writer and serde_json keep their laws.
  pub write_frame-read_frame :
      (w w' : out.Writer) (value : json.Value)
      → write_frame json out w value ≡ ok w'
      → (frame : Bytes) × (out.written w' ≡ out.written w ++ frame)
        × ((r : Reader) (rest : Bytes)
            → contents r ≡ frame ++ rest
            → view (read_frame json r) ≡ ok (value, (rest, ending r)))
  write_frame-read_frame w w' value e =
      let (body, made, fits, wrote) = write_frame-Wrote w w' value e in
      (
        to_be_bytes (length body) ++ body,
        wrote,
        λ r rest begins.
            read_frame-frame_of json r
            ∙ ap (λ bytes. frame_of json bytes (ending r))
                (begins ∙ append_assoc (to_be_bytes (length body)) body rest)
            ∙ frame_of-frame value body rest (ending r) made fits,
      )
