-- ===== src/Sse/Boundary.antt =====
-- The end of an event in a buffer and in a longer one, `next_event` of
-- crates/routing-service/src/model/commitment.rs.
use muxvia.Prelude.{
  ℕ, ◌+◌, ◌-◌, ◌≤◌, ◌≡◌, refl, ap, sym, ◌∙◌, true, false, ◌&&◌, none, some, [], ◌∷◌, ◌++◌, Bytes,
  length, ◌==◌, if◌then◌else◌, arith, Bool-cases, Option-cases, inl, inr,
}
use muxvia.Sse.{find_boundary, starts_crlf_pair, starts_lf_pair, shift_boundary}
use mathlib.Core.Option

-- What the tests read of the front of the bytes.
crlf_long :
    (a b c d : ℕ) (xs : Bytes)
    → starts_crlf_pair (a ∷ b ∷ c ∷ d ∷ xs)
      ≡ (a == b'\r' && (b == b'\n' && (c == b'\r' && d == b'\n')))
unfolding starts_crlf_pair
crlf_long a b c d xs = ground arith

lf_long : (a b : ℕ) (xs : Bytes) → starts_lf_pair (a ∷ b ∷ xs) ≡ (a == b'\n' && b == b'\n')
unfolding starts_lf_pair
lf_long a b xs = ground arith

crlf_three : (a b c : ℕ) → starts_crlf_pair (a ∷ b ∷ c ∷ []) ≡ false
unfolding starts_crlf_pair
crlf_three a b c = ground arith

crlf_two : (a b : ℕ) → starts_crlf_pair (a ∷ b ∷ []) ≡ false
unfolding starts_crlf_pair
crlf_two a b = ground arith

crlf_one : (a : ℕ) → starts_crlf_pair (a ∷ []) ≡ false
unfolding starts_crlf_pair
crlf_one a = ground arith

lf_one : (a : ℕ) → starts_lf_pair (a ∷ []) ≡ false
unfolding starts_lf_pair
lf_one a = ground arith

find_step :
    (b : ℕ) (bs : Bytes)
    → find_boundary (b ∷ bs) ≡ (
        if starts_crlf_pair (b ∷ bs)
        then some (0, 4)
        else if starts_lf_pair (b ∷ bs)
        then some (0, 2)
        else Option.map (shift_boundary 1) (find_boundary bs))
find_step b bs = unfold find_boundary in refl

pub find_none : find_boundary [] ≡ none
unfolding find_boundary
find_none = refl

find_one : (a : ℕ) → find_boundary (a ∷ []) ≡ none
find_one a = ground (arith, find_step a [], crlf_one a, lf_one a, find_none)

find_two :
    (a b : ℕ)
    → find_boundary (a ∷ b ∷ []) ≡ (if a == b'\n' && b == b'\n' then some (0, 2) else none)
find_two a b = ground (arith, find_step a (b ∷ []), crlf_two a b, lf_long a b [], find_one b)

-- Where a boundary lies behind the first byte, that byte starts no line end, whatever is appended.
agree :
    (a : ℕ) (bs ys : Bytes) (r : ℕ × ℕ)
    → find_boundary bs ≡ some r
    → (starts_crlf_pair (a ∷ bs ++ ys) ≡ starts_crlf_pair (a ∷ bs))
      × (starts_lf_pair (a ∷ bs ++ ys) ≡ starts_lf_pair (a ∷ bs))
agree a [] ys r h = ground (arith, find_none)
agree a (b ∷ []) ys r h = ground (arith, find_one b)
agree a (b ∷ c ∷ []) [] r h = ground arith
agree a (b ∷ c ∷ []) (y ∷ ys) r h = ground (
  arith,
  find_two b c,
  crlf_long a b c y ys,
  crlf_three a b c,
  lf_long a b (c ∷ y ∷ ys),
  lf_long a b (c ∷ []),
)
agree a (b ∷ c ∷ d ∷ bs) ys r h = (
  crlf_long a b c d (bs ++ ys) ∙ sym (crlf_long a b c d bs),
  lf_long a b (c ∷ d ∷ (bs ++ ys)) ∙ sym (lf_long a b (c ∷ d ∷ bs)),
)

crlf-append : (xs ys : Bytes) → starts_crlf_pair xs ≡ true → starts_crlf_pair (xs ++ ys) ≡ true
crlf-append [] ys h = absurd_nil h
  where
    absurd_nil : starts_crlf_pair [] ≡ true → starts_crlf_pair ys ≡ true
    absurd_nil e = unfold starts_crlf_pair in cc e
crlf-append (a ∷ []) ys h = cc (h, crlf_one a)
crlf-append (a ∷ b ∷ []) ys h = cc (h, crlf_two a b)
crlf-append (a ∷ b ∷ c ∷ []) ys h = cc (h, crlf_three a b c)
crlf-append (a ∷ b ∷ c ∷ d ∷ xs) ys h =
    crlf_long a b c d (xs ++ ys) ∙ sym (crlf_long a b c d xs) ∙ h

-- Two line feeds are no start of the longer line end.
lf-not-crlf : (xs ys : Bytes) → starts_lf_pair xs ≡ true → starts_crlf_pair (xs ++ ys) ≡ false
unfolding starts_crlf_pair starts_lf_pair
lf-not-crlf [] ys h = cc
lf-not-crlf (a ∷ xs) ys h = ground arith

lf-append : (xs ys : Bytes) → starts_lf_pair xs ≡ true → starts_lf_pair (xs ++ ys) ≡ true
unfolding starts_lf_pair
lf-append [] ys h = cc
lf-append (a ∷ []) ys h = ground arith
lf-append (a ∷ b ∷ xs) ys h = ground arith

find_rest :
    (b : ℕ) (bs : Bytes)
    → starts_crlf_pair (b ∷ bs) ≡ false
    → starts_lf_pair (b ∷ bs) ≡ false
    → find_boundary (b ∷ bs) ≡ Option.map (shift_boundary 1) (find_boundary bs)
find_rest b bs h k = find_step b bs ∙ rw (h, k) refl

-- A boundary that a buffer shows stays where it is when the buffer grows.
pub find_boundary-append :
    (xs ys : Bytes) (r : ℕ × ℕ) → find_boundary xs ≡ some r → find_boundary (xs ++ ys) ≡ some r
find_boundary-append [] ys r h = cc (h, find_none)
find_boundary-append (b ∷ bs) ys r h = elim (Bool-cases (starts_crlf_pair (b ∷ bs))) [
  | inl crlf ↦
      find_step b (bs ++ ys)
      ∙ rw (crlf-append (b ∷ bs) ys crlf) (sym (find_step b bs ∙ rw crlf refl) ∙ h)
  | inr no_crlf ↦ elim (Bool-cases (starts_lf_pair (b ∷ bs))) [
    | inl lf ↦
        find_step b (bs ++ ys)
        ∙ rw (lf-not-crlf (b ∷ bs) ys lf, lf-append (b ∷ bs) ys lf)
            (sym (find_step b bs ∙ rw (no_crlf, lf) refl) ∙ h)
    | inr no_lf ↦ elim (Option-cases (find_boundary bs)) [
      | inl e ↦ cc (h, find_rest b bs no_crlf no_lf, ap (Option.map (shift_boundary 1)) e)
      | inr (q, e) ↦
          let same = agree b bs ys q e in
          find_rest b (bs ++ ys) (same.0 ∙ no_crlf) (same.1 ∙ no_lf)
          ∙ rw (find_boundary-append bs ys q e) (sym (find_rest b bs no_crlf no_lf ∙ rw e refl) ∙ h)
    ]
  ]
]

crlf_length : (xs : Bytes) → starts_crlf_pair xs ≡ true → 4 ≤ length xs
crlf_length [] h = unfold starts_crlf_pair in cc h
crlf_length (a ∷ []) h = cc (h, crlf_one a)
crlf_length (a ∷ b ∷ []) h = cc (h, crlf_two a b)
crlf_length (a ∷ b ∷ c ∷ []) h = cc (h, crlf_three a b c)
crlf_length (a ∷ b ∷ c ∷ d ∷ xs) h = omega arith

lf_length : (xs : Bytes) → starts_lf_pair xs ≡ true → 2 ≤ length xs
lf_length [] h = unfold starts_lf_pair in cc h
lf_length (a ∷ []) h = cc (h, lf_one a)
lf_length (a ∷ b ∷ xs) h = omega arith

-- A boundary has room for its line end.
pub find_boundary_bounds :
    (xs : Bytes) (i s : ℕ) → find_boundary xs ≡ some (i, s) → (2 ≤ s) × (i + s ≤ length xs)
unfolding shift_boundary
find_boundary_bounds [] i s h = cc (h, find_none)
find_boundary_bounds (b ∷ bs) i s h = ground (
  arith,
  find_step b bs,
  crlf_length (b ∷ bs),
  lf_length (b ∷ bs),
  find_boundary_bounds bs (i - 1) s,
)
