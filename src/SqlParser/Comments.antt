-- ===== src/SqlParser/Comments.antt =====
-- Comments and string literals in the main loop, in whatever state they are met.
use mathlib.Core.List.{reverse-cons, reverse-append}
use mathlib.Core.Option
use postgres_cpp_lib.Base.{
  ℕ, ◌≡◌, refl, ap, ◌∙◌, ◌≢◌, arith, Bool, true, false, not, ◌&&◌, ◌||◌, [], ◌∷◌, ◌++◌, reverse,
  append_assoc, ◌==◌, if◌then◌else◌, All,
}
use postgres_cpp_lib.SqlParser.{
  Text, Scan, head_is, flush, skip_line, skip_block, copy_literal, step, scan, initial,
  parse_statements,
}
use postgres_cpp_lib.SqlParser.Steps.{scan-cons}

skip_line-append :
    (body rest : Text) → All (λ c. c ≢ b'\n') body → skip_line (body ++ b'\n' ∷ rest) ≡ b'\n' ∷ rest
unfolding skip_line
skip_line-append [] rest h = refl
skip_line-append (c ∷ body) rest h = ground (arith, skip_line-append body rest)

-- `*/` stands somewhere in the text.
unfoldable pub has_close : Text → Bool
has_close [] = false
has_close (c ∷ []) = false
has_close (c ∷ d ∷ cs) = (c == b'*' && d == b'/') || has_close (d ∷ cs)

skip_block-append :
    (body rest : Text) → has_close body ≡ false → skip_block (body ++ b'*' ∷ b'/' ∷ rest) ≡ rest
unfolding skip_block has_close
skip_block-append [] rest h = refl
skip_block-append (c ∷ []) rest h = ground arith
skip_block-append (c ∷ d ∷ body) rest h = ground (arith, skip_block-append (d ∷ body) rest)

skip_block_unclosed :
    (body : Text) (c : ℕ)
    → has_close (body ++ c ∷ []) ≡ false
    → skip_block (body ++ c ∷ []) ≡ c ∷ []
unfolding skip_block has_close
skip_block_unclosed [] c h = refl
skip_block_unclosed (b ∷ []) c h = ground arith
skip_block_unclosed (b ∷ d ∷ body) c h = ground (arith, skip_block_unclosed (d ∷ body) c)

-- From `--` up to the end of its line nothing is read: the loop goes on at the newline, in the state
-- that it was in.
pub scan_line_comment :
    (body rest : Text) (s : Scan)
    → All (λ c. c ≢ b'\n') body
    → scan (b'-' ∷ b'-' ∷ (body ++ b'\n' ∷ rest)) s ≡ scan (b'\n' ∷ rest) s
unfolding step
scan_line_comment body rest s h =
    scan-cons _ _ s ∙ ap (λ t. scan t s) (unfold skip_line in skip_line-append body rest h)

-- A block comment adds nothing, not even a space: the loop goes on behind its first `*/`, in the
-- state that it was in.
pub scan_block_comment :
    (body rest : Text) (s : Scan)
    → has_close body ≡ false
    → scan (b'/' ∷ b'*' ∷ (body ++ b'*' ∷ b'/' ∷ rest)) s ≡ scan rest s
unfolding step
scan_block_comment body rest s h =
    scan-cons _ _ s ∙ ap (λ t. scan t s) (skip_block-append body rest h)

-- A block comment that is never closed is not dropped whole: its last character is read as SQL.
pub parse_statements_unclosed :
    (body : Text) (c : ℕ)
    → has_close (body ++ c ∷ []) ≡ false
    → parse_statements (b'/' ∷ b'*' ∷ (body ++ c ∷ [])) ≡ parse_statements (c ∷ [])
unfolding parse_statements step
parse_statements_unclosed body c h = ap (λ t. Option.map (λ s. (flush s).statements) t) onward
  where
    onward : scan (b'/' ∷ b'*' ∷ (body ++ c ∷ [])) initial ≡ scan (c ∷ []) initial
    onward = scan-cons _ _ initial ∙ ap (λ t. scan t initial) (skip_block_unclosed body c h)

-- Quotes inside are doubled.
unfoldable pub is_escaped : Text → Bool
is_escaped [] = true
is_escaped (c ∷ []) = not (c == b'\'')
is_escaped (c ∷ d ∷ cs) =
    let doubled = is_escaped cs in
    let onward = is_escaped (d ∷ cs) in if c == b'\'' then d == b'\'' && doubled else onward

pub reverse-cons-append : (c : ℕ) (cs cur : Text) → reverse (c ∷ cs) ++ cur ≡ reverse cs ++ c ∷ cur
reverse-cons-append c cs cur = rw (reverse-cons c cs, append_assoc)

copy_literal-append :
    (body rest cur : Text)
    → is_escaped body ≡ true
    → head_is b'\'' rest ≡ false
    → copy_literal (body ++ b'\'' ∷ rest) cur ≡ (rest, b'\'' ∷ (reverse body ++ cur))
unfolding copy_literal is_escaped
copy_literal-append [] [] cur h k = refl
copy_literal-append [] (d ∷ rest) cur h k = ground arith
copy_literal-append (c ∷ []) rest cur h k =
    ground (arith, copy_literal-append [] rest (c ∷ cur), reverse-cons-append c [] cur)
copy_literal-append (c ∷ d ∷ body) rest cur h k = ground (
  arith,
  copy_literal-append body rest (d ∷ c ∷ cur),
  copy_literal-append (d ∷ body) rest (c ∷ cur),
  reverse-cons-append c (d ∷ body) cur,
  reverse-cons-append d body (c ∷ cur),
)

-- A string literal is copied as it stands, whatever comment marks, semicolons, white space and
-- doubled quotes it holds.
pub scan_literal :
    (body rest : Text) (s : Scan)
    → is_escaped body ≡ true
    → head_is b'\'' rest ≡ false
    → scan (b'\'' ∷ (body ++ b'\'' ∷ rest)) s
      ≡ scan rest (record s { current = reverse (b'\'' ∷ (body ++ b'\'' ∷ [])) ++ s.current })
unfolding step
scan_literal body rest s h k =
    scan-cons _ _ s
    ∙ ap (λ (p : Text × Text). scan p.0 (record s { current = p.1 }))
        (copy_literal-append body rest (b'\'' ∷ s.current) h k ∙ ap (λ (t : Text). (rest, t)) whole)
  where
    whole :
        b'\'' ∷ (reverse body ++ b'\'' ∷ s.current)
        ≡ reverse (b'\'' ∷ (body ++ b'\'' ∷ [])) ++ s.current
    whole = rw (reverse-cons-append, reverse-append) refl
