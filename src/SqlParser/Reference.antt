-- ===== src/SqlParser/Reference.antt =====
-- What `ParseStatements` should do, said without its loop: the text is cut into tokens, the tokens
-- into statements at the semicolons, and each statement is written out with its blanks collapsed.
use postgres_cpp_lib.Base.{
  ℕ, Bool, true, false, not, ◌&&◌, ◌||◌, List, [], ◌∷◌, ◌++◌, reverse, ◌==◌, if◌then◌else◌,
}
use postgres_cpp_lib.SqlParser.{Text, is_space, head_is, trim}

-- `verbatim` is a character of a string literal, its quotes included.
pub data Token : Type 0 where
  blank close semicolon : Token
  plain verbatim : ℕ → Token

-- Where a character stands. `block_open` is at the second character of a comment's start, and
-- `block_close` at that of its end.
pub data Mode : Type 0 where
  code line block_open block block_close literal : Mode

unfoldable pub char_token : ℕ → Token
unfolding is_space
char_token c =
    if is_space c
    then blank
    else if c == b')'
    then close
    else if c == b';'
    then semicolon
    else plain c

-- A quote enters or leaves a literal, so a doubled one leaves it and enters it again. The last
-- character of a block comment that is not closed is code.
unfoldable pub lex : Mode → Text → List Token
unfolding char_token
lex code [] = []
lex code (c ∷ cs) =
    let comment = lex line cs in
    let remark = lex block_open cs in
    let quoted = verbatim c ∷ lex literal cs in
    let onward = char_token c ∷ lex code cs in
    if c == b'-' && head_is b'-' cs
    then comment
    else if c == b'/' && head_is b'*' cs
    then remark
    else if c == b'\''
    then quoted
    else onward
lex line [] = []
lex line (c ∷ cs) =
    let ended = blank ∷ lex code cs in
    let onward = lex line cs in if c == b'\n' then ended else onward
lex block_open [] = []
lex block_open (c ∷ cs) = lex block cs
lex block [] = []
lex block (c ∷ []) = if c == b'\'' then verbatim c ∷ [] else char_token c ∷ []
lex block (c ∷ d ∷ cs) =
    let ended = lex block_close (d ∷ cs) in
    let onward = lex block (d ∷ cs) in if c == b'*' && d == b'/' then ended else onward
lex block_close [] = []
lex block_close (c ∷ cs) = lex code cs
lex literal [] = []
lex literal (c ∷ cs) =
    let left = lex code cs in
    let onward = lex literal cs in verbatim c ∷ (if c == b'\'' then left else onward)

-- The statement up to the first semicolon, and the others.
unfoldable pub first_chunk : List Token → List Token
first_chunk [] = []
first_chunk (semicolon ∷ ts) = []
first_chunk (t ∷ ts) = t ∷ first_chunk ts

unfoldable pub later_chunks : List Token → List (List Token)
unfolding first_chunk
later_chunks [] = []
later_chunks (semicolon ∷ ts) = first_chunk ts ∷ later_chunks ts
later_chunks (t ∷ ts) = later_chunks ts

-- A character after which a blank counts, at the head of what was written so far, read backwards.
abbrev pub spaced : Text → Bool
spaced [] = false
spaced (c ∷ cs) = not (c == b' ' || c == b'(')

abbrev pub pend : Bool → Text → Text
pend pending cur = if pending && spaced cur then b' ' ∷ cur else cur

-- Blanks become one space, where something else than `(` stands before them and something else than
-- `)` behind; `before` is what was written so far, read backwards.
unfoldable pub render : Text → Bool → List Token → Text
render before pending [] = before
render before pending (blank ∷ ts) = render before true ts
render before pending (close ∷ ts) = render (b')' ∷ before) false ts
render before pending (semicolon ∷ ts) = render before pending ts
render before pending (plain c ∷ ts) = render (c ∷ pend pending before) false ts
render before pending (verbatim c ∷ ts) = render (c ∷ pend pending before) false ts

-- A text without any character is no statement.
abbrev pub kept : Text → List Text
kept [] = []
kept (c ∷ cs) = (c ∷ cs) ∷ []

unfoldable pub statement : List Token → List Text
unfolding render trim
statement ts = kept (trim (reverse (render [] false ts)))

unfoldable pub each : List (List Token) → List Text
unfolding statement
each [] = []
each (ts ∷ rest) = statement ts ++ each rest

unfoldable pub reference : Text → List Text
unfolding lex first_chunk later_chunks each
reference sql = let ts = lex code sql in each (first_chunk ts ∷ later_chunks ts)
