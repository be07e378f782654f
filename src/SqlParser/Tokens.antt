-- ===== src/SqlParser/Tokens.antt =====
-- The tokens of a text, by the branch that `ParseStatements` takes at its first character.

use postgres_cpp_lib.Base.{ℕ, ◌≡◌, refl, arith, true, false, ◌&&◌, ◌==◌, [], ◌∷◌}
use postgres_cpp_lib.SqlParser.{Text, is_space, head_is, drop_one, skip_line, skip_block}
use postgres_cpp_lib.SqlParser.Reference.{
  blank, close, semicolon, plain, verbatim, code, line, block, literal, lex,
}

-- The comments.
pub lex-skip_line : (cs : Text) → lex line cs ≡ lex code (skip_line cs)
unfolding lex skip_line is_space
lex-skip_line [] = refl
lex-skip_line (c ∷ cs) = ground (arith, lex-skip_line cs)

pub lex-skip_block : (cs : Text) → lex block cs ≡ lex code (skip_block cs)
unfolding lex skip_block
lex-skip_block [] = refl
lex-skip_block (c ∷ []) = ground arith
lex-skip_block (c ∷ d ∷ cs) = ground (arith, lex-skip_block (d ∷ cs))

-- The tokens at a character, by the branch that the loop takes.
pub lex_line :
    (c : ℕ) (cs : Text)
    → (c == b'-' && head_is b'-' cs) ≡ true
    → lex code (c ∷ cs) ≡ lex code (skip_line (c ∷ cs))
unfolding lex skip_line
lex_line c cs e = ground (arith, lex-skip_line cs)

pub lex_block :
    (c : ℕ) (cs : Text)
    → (c == b'/' && head_is b'*' cs) ≡ true
    → lex code (c ∷ cs) ≡ lex code (skip_block (drop_one cs))
unfolding lex
lex_block c [] e = ground arith
lex_block c (d ∷ cs) e = ground (arith, lex-skip_block cs)

pub lex_quote :
    (c : ℕ) (cs : Text) → (c == b'\'') ≡ true → lex code (c ∷ cs) ≡ verbatim c ∷ lex literal cs
unfolding lex
lex_quote c cs e = ground arith

pub lex_space : (c : ℕ) (cs : Text) → is_space c ≡ true → lex code (c ∷ cs) ≡ blank ∷ lex code cs
unfolding lex is_space
lex_space c cs e = ground arith

pub lex_close : (c : ℕ) (cs : Text) → (c == b')') ≡ true → lex code (c ∷ cs) ≡ close ∷ lex code cs
unfolding lex is_space
lex_close c cs e = ground arith

pub lex_semicolon :
    (c : ℕ) (cs : Text) → (c == b';') ≡ true → lex code (c ∷ cs) ≡ semicolon ∷ lex code cs
unfolding lex is_space
lex_semicolon c cs e = ground arith

pub lex_plain :
    (c : ℕ) (cs : Text)
    → (c == b'\'') ≡ false
    → is_space c ≡ false
    → (c == b')') ≡ false
    → (c == b'-' && head_is b'-' cs) ≡ false
    → (c == b'/' && head_is b'*' cs) ≡ false
    → (c == b';') ≡ false
    → lex code (c ∷ cs) ≡ plain c ∷ lex code cs
unfolding lex
lex_plain c cs q sp p l b se = rw (l, b, q, sp, p, se) refl
