-- ===== src/Text/Tests.antt =====
-- Runs of the text functions.
use muxvia.Prelude.{◌≡◌, refl, true, [], ◌∷◌, some, none}
use muxvia.Text.{codes, from_utf8, lines, trim, ends_with, before, to_ascii_lowercase}

from_utf8_euro : from_utf8 (0xe2 ∷ 0x82 ∷ 0xac ∷ b'x' ∷ []) ≡ some (0x20ac ∷ b'x' ∷ [])
unfolding from_utf8
from_utf8_euro = refl

from_utf8_surrogate : from_utf8 (0xed ∷ 0xa0 ∷ 0x80 ∷ []) ≡ none
unfolding from_utf8
from_utf8_surrogate = refl

lines_both_ends : lines (codes "ab\r\nc\n\nd") ≡ codes "ab" ∷ codes "c" ∷ [] ∷ codes "d" ∷ []
unfolding lines
lines_both_ends = refl

media_type : to_ascii_lowercase (trim (before b';' (codes " Text/HTML ; q=1"))) ≡ codes "text/html"
unfolding before trim to_ascii_lowercase
media_type = refl

json_suffix : ends_with (codes "+json") (codes "application/problem+json") ≡ true
unfolding ends_with
json_suffix = refl
