-- ===== src/Framing/Exact.antt =====
-- `read_frame` of crates/routing-service/src/control/framing.rs, and the first frame of a string of
-- bytes.
use muxvia.Prelude.{
  ℕ, zero, suc, ◌≡◌, refl, ap, ◌∙◌, Bool, true, false, [], ◌∷◌, ◌++◌, Bytes, length, take, drop,
  ltb, if◌then◌else◌, arith,
}
use muxvia.Json.{JsonLib}
use muxvia.Framing.{
  frame_limit, FrameError, end_of_stream, frame_too_large, unexpected_eof, io, Framed, ok, err,
  ◌>>=◌, Reader, eof, broken, packet, prepend, unread, read, read_exact, fill_prefix, read_prefix,
  from_be_bytes, parse_body, parse_part, read_body, read_frame,
}

-- How a stream ends, and what a read says that wants more, at the start of a frame or inside it.
pub data End : Type 0 where
  finished failed : End

abbrev pub at_start : End → FrameError
at_start finished = end_of_stream
at_start failed = io

abbrev pub inside : End → FrameError
inside finished = unexpected_eof
inside failed = io

abbrev pub contents : Reader → Bytes
contents eof = []
contents broken = []
contents (packet first more r) = first ∷ (more ++ contents r)

abbrev pub ending : Reader → End
ending eof = finished
ending broken = failed
ending (packet first more r) = ending r

-- A result that tells what is left by its bytes and its end.
abbrev pub view {ℓ} : {A : Type ℓ} → Framed (A × Reader) → Framed (A × (Bytes × End))
view (ok (a, r)) = ok (a, (contents r, ending r))
view (err e) = err e

-- The first bytes of a string, or too few of them.
unfoldable pub part : ℕ → Bytes → End → Framed (Bytes × (Bytes × End))
unfolding prepend
part zero xs end = ok ([], (xs, end))
part (suc n) [] end = err (inside end)
part (suc n) (x ∷ xs) end = prepend (x ∷ []) (part n xs end)

view-prepend :
    (front : Bytes) (m : Framed (Bytes × Reader)) → view (prepend front m) ≡ prepend front (view m)
unfolding prepend
view-prepend front (ok (bytes, r)) = refl
view-prepend front (err e) = refl

prepend_twice {ℓ} :
    {A : Type ℓ} (b : ℕ) (front : Bytes) (m : Framed (Bytes × A))
    → prepend (b ∷ front) m ≡ prepend (b ∷ []) (prepend front m)
unfolding prepend
prepend_twice b front (ok (bytes, r)) = refl
prepend_twice b front (err e) = refl

view-read_exact : (n : ℕ) (r : Reader) → view (read_exact n r) ≡ part n (contents r) (ending r)
unfolding read_exact part
view-read_exact zero r = refl
view-read_exact (suc n) eof = refl
view-read_exact (suc n) broken = refl
view-read_exact (suc n) (packet first [] r) =
    view-prepend (first ∷ []) (read_exact n r) ∙ ap (prepend (first ∷ [])) (view-read_exact n r)
view-read_exact (suc n) (packet first (next ∷ more) r) =
    view-prepend (first ∷ []) (read_exact n (packet next more r))
    ∙ ap (prepend (first ∷ [])) (view-read_exact n (packet next more r))

-- A prefix that was begun.
view-rest :
    (front : Bytes) (n : ℕ) (r : Reader)
    → view (prepend front (read_exact n r)) ≡ prepend front (part n (contents r) (ending r))
view-rest front n r = view-prepend front (read_exact n r) ∙ ap (prepend front) (view-read_exact n r)

abbrev prefix_part : Bytes → End → Framed (Bytes × (Bytes × End))
prefix_part [] end = err (at_start end)
prefix_part (x ∷ xs) end = part 4 (x ∷ xs) end

view-read_prefix : (r : Reader) → view (read_prefix r) ≡ prefix_part (contents r) (ending r)
unfolding read_prefix read fill_prefix part unread
view-read_prefix eof = refl
view-read_prefix broken = refl
view-read_prefix (packet a [] r) = view-rest (a ∷ []) 3 r
view-read_prefix (packet a (b ∷ []) r) = view-rest (a ∷ b ∷ []) 2 r ∙ prepend_twice a (b ∷ []) _
view-read_prefix (packet a (b ∷ c ∷ []) r) =
    view-rest (a ∷ b ∷ c ∷ []) 1 r
    ∙ prepend_twice a (b ∷ c ∷ []) _
    ∙ ap (prepend (a ∷ [])) (prepend_twice b (c ∷ []) _)
view-read_prefix (packet a (b ∷ c ∷ d ∷ []) r) = refl
view-read_prefix (packet a (b ∷ c ∷ d ∷ e ∷ more) r) = refl

-- The closed form of `part`.
abbrev available : ℕ → Bytes → End → Framed (Bytes × (Bytes × End))
available n xs end =
    if ltb (length xs) n then err (inside end) else ok (take n xs, (drop n xs, end))

available-suc :
    (x n : ℕ) (xs : Bytes) (end : End)
    → prepend (x ∷ []) (available n xs end) ≡ available (suc n) (x ∷ xs) end
unfolding prepend
available-suc x n xs end = ground arith

part-available : (n : ℕ) (xs : Bytes) (end : End) → part n xs end ≡ available n xs end
unfolding part
part-available zero [] end = refl
part-available zero (x ∷ xs) end = ground arith
part-available (suc n) [] end = ground arith
part-available (suc n) (x ∷ xs) end =
    ap (prepend (x ∷ [])) (part-available n xs end) ∙ available-suc x n xs end

module _ (json : JsonLib) where
  open json use {Value}

  -- The first frame of a stream, by its bytes and its end alone.
  unfoldable pub frame_of : Bytes → End → Framed (Value × (Bytes × End))
  unfolding from_be_bytes parse_part
  frame_of [] end = err (at_start end)
  frame_of (a ∷ b ∷ c ∷ d ∷ rest) end =
      let size = from_be_bytes (a ∷ b ∷ c ∷ d ∷ []) in
      if ltb frame_limit size
      then err frame_too_large
      else if ltb (length rest) size
      then err (inside end)
      else parse_part json (ok (take size rest, (drop size rest, end)))
  frame_of _ end = err (inside end)

  with_rest :
      (m : Framed Value) (r : Reader)
      → view (m >>= λ value. ok (value, r)) ≡ (m >>= λ value. ok (value, (contents r, ending r)))
  with_rest (ok value) r = refl
  with_rest (err e) r = refl

  view-parse_part :
      (m : Framed (Bytes × Reader)) → view (parse_part json m) ≡ parse_part json (view m)
  unfolding parse_part
  view-parse_part (err e) = refl
  view-parse_part (ok (body, r)) = with_rest (parse_body json body) r

  -- The body after a prefix, on bytes.
  abbrev body_part : Framed (Bytes × (Bytes × End)) → Framed (Bytes × (Bytes × End))
  body_part (err e) = err e
  body_part (ok (prefix, (rest, end))) =
      if ltb frame_limit (from_be_bytes prefix)
      then err frame_too_large
      else part (from_be_bytes prefix) rest end

  view_choice :
      (large : Bool) (n : ℕ) (r : Reader)
      → view (if large then err frame_too_large else read_exact n r)
        ≡ (if large then err frame_too_large else part n (contents r) (ending r))
  view_choice true n r = refl
  view_choice false n r = view-read_exact n r

  view-read_body : (m : Framed (Bytes × Reader)) → view (read_body json m) ≡ body_part (view m)
  unfolding read_body
  view-read_body (err e) = refl
  view-read_body (ok (prefix, r)) =
      view_choice (ltb frame_limit (from_be_bytes prefix)) (from_be_bytes prefix) r

  parts_choice :
      (large short : Bool) (e : End) (got : Bytes × (Bytes × End))
      → parse_part json
          (if large then err frame_too_large else if short then err (inside e) else ok got)
        ≡ (if large
            then err frame_too_large
            else if short
            then err (inside e)
            else parse_part json (ok got))
  unfolding parse_part
  parts_choice true short e got = refl
  parts_choice false true e got = refl
  parts_choice false false e got = refl

  parts-frame_of :
      (xs : Bytes) (end : End) → parse_part json (body_part (prefix_part xs end)) ≡ frame_of xs end
  unfolding frame_of part
  parts-frame_of [] end = refl
  parts-frame_of (a ∷ []) end = refl
  parts-frame_of (a ∷ b ∷ []) end = refl
  parts-frame_of (a ∷ b ∷ c ∷ []) end = refl
  parts-frame_of (a ∷ b ∷ c ∷ d ∷ rest) end =
      let size = from_be_bytes (a ∷ b ∷ c ∷ d ∷ []) in
      ap (λ m. parse_part json (if ltb frame_limit size then err frame_too_large else m))
        (part-available size rest end)
      ∙ parts_choice (ltb frame_limit size) (ltb (length rest) size) end
          (take size rest, (drop size rest, end))

  -- What `read_frame` returns, and the bytes that it leaves, are those of the first frame of the
  -- stream: they depend on the bytes of the stream and on how it ends, and not on the packets.
  -- An empty stream is an end of stream or an input error; one that ends inside the prefix or
  -- the body is an unexpected end or an input error; a size above the limit is rejected before
  -- the body is read.
  pub read_frame-frame_of :
      (r : Reader) → view (read_frame json r) ≡ frame_of (contents r) (ending r)
  unfolding read_frame
  read_frame-frame_of r =
      view-parse_part (read_body json (read_prefix r))
      ∙ ap (parse_part json) (view-read_body (read_prefix r) ∙ ap body_part (view-read_prefix r))
      ∙ parts-frame_of (contents r) (ending r)
