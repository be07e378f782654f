-- ===== src/SqlParser.antt =====
-- include/database/internal/sql_parser.h: `ParseStatements`.
-- A text is the list of its character codes. The loops of the source move an index to the right;
-- here they return the characters from that index on. `current` is kept with its last character
-- first, so that `current.back()` is the head of the list.
pub mod Steps
pub mod Tidy
pub mod Statements
pub mod Comments
pub mod Replay
pub mod Reference
pub mod Tokens
pub mod Equivalence
mod Tests
use postgres_cpp_lib.Base.{
  ℕ, zero, suc, ◌≡◌, Bool, true, false, ◌&&◌, ◌||◌, Option, none, some, List, [], ◌∷◌, ◌++◌,
  reverse, ◌==◌, if◌then◌else◌, length,
}
use mathlib.Core.Option

abbrev pub Text : Type 0
Text = List ℕ

pub record Scan : Type 0 where
  pub statements : List Text
  pub current : Text

-- " \t\r\n"
unfoldable pub is_space : ℕ → Bool
is_space c = c == b' ' || c == b'\t' || c == b'\r' || c == b'\n'

-- `i + 1 < n && sql[i + 1] == d`, and `!current.empty() && current.back() == d`.
abbrev pub head_is : ℕ → Text → Bool
head_is d [] = false
head_is d (c ∷ cs) = c == d

pub push_space : Text → Text
push_space [] = []
push_space (c ∷ cs) = if c == b' ' || c == b'(' then c ∷ cs else b' ' ∷ c ∷ cs

pub drop_spaces : Text → Text
drop_spaces [] = []
drop_spaces (c ∷ cs) = if is_space c then drop_spaces cs else c ∷ cs

-- From `find_first_not_of` to `find_last_not_of`.
pub trim : Text → Text
trim t = reverse (drop_spaces (reverse (drop_spaces t)))

-- A text of spaces only is not a statement.
pub keep_statement : Text → List Text → List Text
keep_statement [] out = out
keep_statement (c ∷ cs) out = out ++ (c ∷ cs) ∷ []

pub flush : Scan → Scan
flush s = record {
  statements = keep_statement (trim (reverse s.current)) s.statements;
  current = [];
}

-- `while (i < n && sql[i] != '\n') ++i;`
pub skip_line : Text → Text
skip_line [] = []
skip_line (c ∷ cs) = if c == b'\n' then c ∷ cs else skip_line cs

-- The loop behind `i += 2` at a comment's start, and the `if (i + 1 < n) i += 2` after it.
pub skip_block : Text → Text
skip_block [] = []
skip_block (c ∷ []) = c ∷ []
skip_block (c ∷ d ∷ rest) =
    let onward = skip_block (d ∷ rest) in if c == b'*' && d == b'/' then rest else onward

-- The loop behind an opening quote: the characters not read, and `current`.
pub copy_literal : Text → Text → Text × Text
copy_literal [] current = ([], current)
copy_literal (c ∷ []) current = ([], c ∷ current)
copy_literal (c ∷ d ∷ rest) current =
    let escaped = copy_literal rest (d ∷ c ∷ current) in
    let onward = copy_literal (d ∷ rest) (c ∷ current) in
    if c == b'\'' && d == b'\''
    then escaped
    else if c == b'\''
    then (d ∷ rest, c ∷ current)
    else onward

-- `if (!current.empty() && current.back() == ' ') current.pop_back();`
pub pop_space : Text → Text
pop_space [] = []
pop_space (c ∷ cs) = if c == b' ' then cs else c ∷ cs

abbrev pub drop_one : Text → Text
drop_one [] = []
drop_one (c ∷ cs) = cs

abbrev pub with_literal : Scan → Text × Text → Text × Scan
with_literal s (rest, current) = (rest, record s { current = current })

-- One round of the main loop, at the character `c` with `rest` behind it.
pub step : ℕ → Text → Scan → Text × Scan
step c rest s =
    if c == b'-' && head_is b'-' rest
    then (skip_line (c ∷ rest), s)
    else if c == b'/' && head_is b'*' rest
    then (skip_block (drop_one rest), s)
    else if c == b'\''
    then with_literal s (copy_literal rest (c ∷ s.current))
    else if is_space c
    then (rest, record s { current = push_space s.current })
    else if c == b')'
    then (rest, record s { current = c ∷ pop_space s.current })
    else if c == b';'
    then (rest, flush s)
    else (rest, record s { current = c ∷ s.current })

-- `while (i < n)`; `none` means that the fuel ran out.
pub loop : ℕ → Text → Scan → Option Scan
loop fuel [] s = some s
loop zero (c ∷ cs) s = none
loop (suc fuel) (c ∷ cs) s = let next = step c cs s in loop fuel next.0 next.1

-- Each round reads a character at least, so `length cs` rounds are enough.
abbrev pub scan : Text → Scan → Option Scan
scan cs s = loop (length cs) cs s

abbrev pub initial : Scan
initial = record { statements = []; current = [] }

pub parse_statements : Text → Option (List Text)
parse_statements sql = Option.map (λ s. (flush s).statements) (scan sql initial)
