-- ===== src/Framing/Tests.antt =====
-- A frame of two bytes that arrives in three packets, with the start of another one.
use muxvia.Prelude.{◌≡◌, [], ◌∷◌}
use muxvia.Framing.{Reader, eof, packet, read_frame}
use muxvia.Framing.Exact.{view, contents, ending, frame_of, read_frame-frame_of}
use muxvia.Prelude.{false, some, none, subst, refl, Bytes, ◌++◌}
use muxvia.Text.{from_utf8, codes}
use muxvia.Json.{JsonLib}
use muxvia.Framing.{FrameWriter, write_frame, ok}
use muxvia.Framing.RoundTrip.{IsFrameWriter, write_frame-read_frame}
use muxvia.Samples.{typed_json}

abbrev three_packets : Reader
three_packets = packet 0 (0 ∷ 0 ∷ []) (packet 2 (b'o' ∷ []) (packet b'k' (0 ∷ []) eof))

read_frame-frame_of_example :
    view (read_frame typed_json three_packets)
    ≡ frame_of typed_json (contents three_packets) (ending three_packets)
read_frame-frame_of_example = read_frame-frame_of typed_json three_packets

-- Outputs that are the bytes written so far, and one value, whose text is `ok`.
abbrev constant_json : JsonLib
constant_json = record {
  Value = Unit;
  from_str = λ text. some tt;
  from_slice = λ bytes. some tt;
  get = λ value key. none;
  as_str = λ value. none;
  as_u64 = λ value. none;
  is_object = λ value. false;
}

abbrev growing : FrameWriter constant_json
growing = record {
  to_vec = λ value. some (codes "ok");
  Writer = Bytes;
  write_all = λ w bytes. some (w ++ bytes);
  written = λ w. w;
}

growing-IsFrameWriter : IsFrameWriter constant_json growing
unfolding from_utf8
growing-IsFrameWriter = record {
  write_all-written = λ w w' bytes e. cc e;
  to_vec-from_str = λ value bytes e.
      (codes "ok", subst (λ b. from_utf8 b ≡ some (codes "ok")) (unwrap e) refl, refl);
}
  where
    unwrap : {a b : Bytes} → some a ≡ some b → a ≡ b
    unwrap h = cc h

write_frame-read_frame_example :
    (frame : Bytes) × (0 ∷ 0 ∷ 0 ∷ 2 ∷ codes "ok" ≡ [] ++ frame)
    × ((r : Reader) (rest : Bytes)
        → contents r ≡ frame ++ rest
        → view (read_frame constant_json r) ≡ ok (tt, (rest, ending r)))
write_frame-read_frame_example =
    write_frame-read_frame constant_json growing growing-IsFrameWriter []
      (0 ∷ 0 ∷ 0 ∷ 2 ∷ codes "ok") tt (unfold write_frame in refl)
