-- ===== src/SqlParser/Tidy.antt =====
-- What the statements of `ParseStatements` look like: the normal form of sql_parser.h, lines 10-13.
use mathlib.Core.List.{reverse-cons, reverse-reverse}
use postgres_cpp_lib.Base.{
  ℕ, ◌≡◌, refl, ◌⊎◌, inl, inr, arith, Bool, true, false, not, ◌&&◌, ◌||◌, List, [], ◌∷◌, ◌++◌,
  reverse, ◌==◌, if◌then◌else◌, All, All-append,
}
use postgres_cpp_lib.SqlParser.{
  Text, Scan, is_space, head_is, drop_spaces, trim, keep_statement, flush,
}

-- Texts are read from their last character here. An odd number of quotes so far is an open literal;
-- an escaped quote counts twice.
unfoldable pub in_literal : Text → Bool
in_literal [] = false
in_literal (c ∷ r) = if c == b'\'' then not (in_literal r) else in_literal r

-- A space may follow a character that is neither a space nor an opening parenthesis.
unfoldable pub may_space : Text → Bool
may_space [] = false
may_space (c ∷ r) = not (c == b' ' || c == b'(')

unfoldable pub fits : ℕ → Text → Bool
unfolding is_space may_space
fits c r =
    if is_space c
    then c == b' ' && may_space r
    else if c == b')'
    then not (head_is b' ' r)
    else true

-- Outside of literals, white space is single blanks, and none stands first, behind `(` or before `)`.
unfoldable pub tidy : Text → Bool
unfolding in_literal fits
tidy [] = true
tidy (c ∷ r) = tidy r && (in_literal r || fits c r)

unfoldable pub starts_solid : Text → Bool
unfolding is_space
starts_solid [] = false
starts_solid (c ∷ cs) = not (is_space c)

-- A text that is not empty, neither begins nor ends in white space, and is tidy.
pub record IsStatement (t : Text) : Type 0 where
  pub first_solid : starts_solid t ≡ true
  pub last_solid : starts_solid (reverse t) ≡ true
  pub is_tidy : tidy (reverse t) ≡ true

starts_solid-append : (xs ys : Text) → starts_solid xs ≡ true → starts_solid (xs ++ ys) ≡ true
unfolding starts_solid
starts_solid-append [] ys h = cc
starts_solid-append (x ∷ xs) ys h = h

tidy-reverse_solid : (r : Text) → tidy r ≡ true → (r ≡ []) ⊎ (starts_solid (reverse r) ≡ true)
unfolding tidy
tidy-reverse_solid [] h = inl refl
tidy-reverse_solid (c ∷ []) h = inr (unfold starts_solid in ground arith)
tidy-reverse_solid (c ∷ d ∷ r) h = elim (tidy-reverse_solid (d ∷ r) (ground arith)) [
  | inl e ↦ cc
  | inr e ↦ inr (rw (reverse-cons c (d ∷ r)) (starts_solid-append _ (c ∷ []) e))
]

pub drop_spaces-solid : (t : Text) → starts_solid t ≡ true → drop_spaces t ≡ t
unfolding drop_spaces starts_solid
drop_spaces-solid [] h = refl
drop_spaces-solid (c ∷ cs) h = ground arith

drop_spaces-starts_solid : (t : Text) → (drop_spaces t ≡ []) ⊎ (starts_solid (drop_spaces t) ≡ true)
unfolding drop_spaces starts_solid
drop_spaces-starts_solid [] = inl refl
drop_spaces-starts_solid (c ∷ cs) = ground (arith, drop_spaces-starts_solid cs)

drop_spaces-tidy : (t : Text) → tidy t ≡ true → tidy (drop_spaces t) ≡ true
unfolding drop_spaces tidy
drop_spaces-tidy [] h = refl
drop_spaces-tidy (c ∷ cs) h = ground (arith, drop_spaces-tidy cs)

-- On a tidy text only the end is trimmed.
pub trim-tidy : (r : Text) → tidy r ≡ true → trim (reverse r) ≡ reverse (drop_spaces r)
unfolding trim
trim-tidy r h = elim (tidy-reverse_solid r h) [
  | inl e ↦ rw e (unfold drop_spaces in refl)
  | inr e ↦ rw (drop_spaces-solid _ e, reverse-reverse r)
]

keep_statement-All :
    (out : List Text) (r : Text)
    → All IsStatement out
    → tidy r ≡ true
    → (r ≡ []) ⊎ (starts_solid r ≡ true)
    → All IsStatement (keep_statement (reverse r) out)
keep_statement-All out r h k (inl e) = rw e (unfold keep_statement in h)
keep_statement-All out r h k (inr solid) = elim (tidy-reverse_solid r k) [
  | inl e ↦ rw e (unfold keep_statement in h)
  | inr e ↦ kept (reverse r) (record {
    first_solid = e;
    last_solid = rw reverse-reverse solid;
    is_tidy = rw reverse-reverse k;
  })
]
  where
    kept : (t : Text) → IsStatement t → All IsStatement (keep_statement t out)
    kept [] s = unfold keep_statement in h
    kept (c ∷ cs) s = unfold keep_statement in All-append IsStatement out ((c ∷ cs) ∷ []) h (s, tt)

pub flush-All :
    (s : Scan)
    → All IsStatement s.statements
    → tidy s.current ≡ true
    → All IsStatement (flush s).statements
unfolding flush
flush-All s h k = rw (trim-tidy s.current k) (
    keep_statement-All s.statements _ h (drop_spaces-tidy s.current k)
      (drop_spaces-starts_solid s.current))
