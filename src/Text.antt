-- ===== src/Text.antt =====
-- The parts of Rust's `str` and `[u8]` that the routing service uses. A text is its list of code
-- points, a byte string its list of bytes.
mod Tests
use Prim.Native.Char.{code}
use Prim.Native.String.{String}
use muxvia.Prelude.{
  ℕ, ◌+◌, ◌-◌, ◌*◌, Bool, true, false, ◌&&◌, ◌||◌, Option, none, some, List, [], ◌∷◌, map, Bytes,
  leb, ltb, ◌==◌, if◌then◌else◌,
}
use mathlib.Core.List.{reverse}
use mathlib.Core.Option

abbrev pub Text : Type 0
Text = List ℕ

-- The code points of a literal: its bytes, if it is ASCII.
abbrev pub codes : String → Text
codes String.[] = []
codes (String.◌∷◌ c s) = code c ∷ codes s

abbrev between : ℕ → ℕ → ℕ → Bool
between lo hi b = leb lo b && leb b hi

-- `str::from_utf8`, byte by byte. `need` continuation bytes are missing, the next of which must lie
-- in `lo .. hi`; `acc` holds the bits read.
record Decoder : Type 0 where
  need : ℕ
  lo : ℕ
  hi : ℕ
  acc : ℕ

abbrev idle : Decoder
idle = record { need = 0; lo = 0; hi = 0; acc = 0 }

-- The lead bytes of the well-formed sequences.
lead : ℕ → Option Decoder
lead b =
    if between 0xc2 0xdf b
    then some (record { need = 1; lo = 0x80; hi = 0xbf; acc = b - 0xc0 })
    else if b == 0xe0
    then some (record { need = 2; lo = 0xa0; hi = 0xbf; acc = 0 })
    else if b == 0xed
    then some (record { need = 2; lo = 0x80; hi = 0x9f; acc = 0xd })
    else if between 0xe1 0xef b
    then some (record { need = 2; lo = 0x80; hi = 0xbf; acc = b - 0xe0 })
    else if b == 0xf0
    then some (record { need = 3; lo = 0x90; hi = 0xbf; acc = 0 })
    else if between 0xf1 0xf3 b
    then some (record { need = 3; lo = 0x80; hi = 0xbf; acc = b - 0xf0 })
    else if b == 0xf4
    then some (record { need = 3; lo = 0x80; hi = 0x8f; acc = 4 })
    else none

-- A continuation byte completes the code point, or leaves fewer missing.
continue_with : ℕ → ℕ → Decoder × Option ℕ
continue_with need acc =
    if need == 1
    then (idle, some acc)
    else (record { need = need - 1; lo = 0x80; hi = 0xbf; acc = acc }, none)

-- One byte: the next state, and the code point that it completes.
decode_byte : Decoder → ℕ → Option (Decoder × Option ℕ)
unfolding lead continue_with
decode_byte d b =
    if d.need == 0
    then if ltb b 0x80 then some (idle, some b) else Option.map (λ e. (e, none)) (lead b)
    else if between d.lo d.hi b
    then some (continue_with d.need (d.acc * 64 + (b - 0x80)))
    else none

push_point : Option ℕ → Text → Text
push_point none text = text
push_point (some c) text = c ∷ text

decode : Decoder → Bytes → Option Text
unfolding decode_byte push_point
decode d [] = if d.need == 0 then some [] else none
decode d (b ∷ bs) = elim (decode_byte d b) [
  | none ↦ none
  | some (e, point) ↦ Option.map (push_point point) (decode e bs)
]

unfoldable pub from_utf8 : Bytes → Option Text
unfolding decode
from_utf8 bytes = decode idle bytes

-- `char::is_whitespace`: the property White_Space.
is_whitespace : ℕ → Bool
is_whitespace c =
    between 0x9 0xd c
    || c == 0x20
    || c == 0x85
    || c == 0xa0
    || c == 0x1680
    || between 0x2000 0x200a c
    || between 0x2028 0x2029 c
    || c == 0x202f
    || c == 0x205f
    || c == 0x3000

unfoldable pub trim_start : Text → Text
unfolding is_whitespace
trim_start [] = []
trim_start (c ∷ cs) = if is_whitespace c then trim_start cs else c ∷ cs

unfoldable pub trim : Text → Text
unfolding trim_start
trim text = reverse (trim_start (reverse (trim_start text)))

-- `strip_prefix`, of a text or of bytes.
unfoldable pub strip_prefix : Text → Text → Option Text
strip_prefix [] text = some text
strip_prefix (p ∷ ps) [] = none
strip_prefix (p ∷ ps) (c ∷ cs) = if p == c then strip_prefix ps cs else none

abbrev pub is_some {ℓ} : {A : Type ℓ} → Option A → Bool
is_some none = false
is_some (some a) = true

unfoldable pub starts_with : Text → Text → Bool
unfolding strip_prefix
starts_with prefix text = is_some (strip_prefix prefix text)

unfoldable pub ends_with : Text → Text → Bool
unfolding starts_with
ends_with suffix text = starts_with (reverse suffix) (reverse text)

-- `str::lines`: the line ends are "\n" and "\r\n", and the last line may have none. The current
-- line is kept backwards.
strip_cr : Text → Text
strip_cr [] = []
strip_cr (c ∷ cs) = if c == b'\r' then cs else c ∷ cs

end_line : Text → List Text
end_line [] = []
end_line (c ∷ cs) = reverse (c ∷ cs) ∷ []

lines_from : Text → Text → List Text
unfolding strip_cr end_line
lines_from line [] = end_line line
lines_from line (c ∷ cs) = elim (c == b'\n') [
  | true ↦ reverse (strip_cr line) ∷ lines_from [] cs
  | false ↦ lines_from (c ∷ line) cs
]

unfoldable pub lines : Text → List Text
unfolding lines_from
lines text = lines_from [] text

-- `split(c).next()`: the part before the first `c`.
unfoldable pub before : ℕ → Text → Text
before c [] = []
before c (x ∷ xs) = if x == c then [] else x ∷ before c xs

to_lower : ℕ → ℕ
to_lower c = if between b'A' b'Z' c then c + 32 else c

unfoldable pub to_ascii_lowercase : Text → Text
unfolding to_lower
to_ascii_lowercase text = map to_lower text
