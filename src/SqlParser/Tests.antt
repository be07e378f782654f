-- ===== src/SqlParser/Tests.antt =====
-- Runs of the parser on the inputs of tests/sql_parser_test.cpp and on others, and the theorems at
-- concrete inputs.
use Prim.Native.Char.{code}
use Prim.Native.String.{String}
use postgres_cpp_lib.Base.{◌≡◌, refl, some, Option, List, [], ◌∷◌, All}
use postgres_cpp_lib.SqlParser.{
  Text, Scan, is_space, push_space, drop_spaces, trim, keep_statement, flush, skip_line, skip_block,
  copy_literal, pop_space, step, loop, parse_statements,
}
use postgres_cpp_lib.SqlParser.Tidy.{IsStatement, may_space, starts_solid}
use postgres_cpp_lib.SqlParser.Statements.{parse_statements-IsStatement}
use postgres_cpp_lib.SqlParser.Comments.{has_close, is_escaped, parse_statements_unclosed}
use postgres_cpp_lib.SqlParser.Replay.{
  done, plain, blank, close, literal, is_plain, IsNormal, print, parse_statements-print,
}
use postgres_cpp_lib.SqlParser.Reference.{reference}
use postgres_cpp_lib.SqlParser.Equivalence.{parse_statements-reference}

abbrev codes : String → Text
codes String.[] = []
codes (String.◌∷◌ c s) = code c ∷ codes s

-- The parser with all that it calls.
parsed : Text → Option (List Text)
unfolding is_space push_space drop_spaces trim keep_statement flush skip_line skip_block
    copy_literal pop_space step loop parse_statements
parsed = parse_statements

white_space_only : parse_statements (codes "   \n\t  ") ≡ some []
unfolding parsed
white_space_only = refl

mixed_comments :
    parse_statements (codes "SELECT 1; -- pick one\nSELECT /* x */ ( 2 );")
    ≡ some (codes "SELECT 1" ∷ codes "SELECT (2)" ∷ [])
unfolding parsed
mixed_comments = refl

escaped_quote :
    parse_statements (codes "SELECT 'it''s;' -- low\n, 'a--b' ;")
    ≡ some (codes "SELECT 'it''s;' , 'a--b'" ∷ [])
unfolding parsed
escaped_quote = refl

-- A comment between two words is no separator.
joined_words : parse_statements (codes "SELECT 1/* */FROM t") ≡ some (codes "SELECT 1FROM t" ∷ [])
unfolding parsed
joined_words = refl

-- Two removed comments can leave the mark of a third.
made_comment : parse_statements (codes "SELECT 3 -/**/- 2") ≡ some (codes "SELECT 3 -- 2" ∷ [])
unfolding parsed
made_comment = refl

-- An open literal at the end is kept, but loses its last blanks.
open_literal : parse_statements (codes "SELECT 'a  ") ≡ some (codes "SELECT 'a" ∷ [])
unfolding parsed
open_literal = refl

parse_statements-reference_example :
    parse_statements (codes "SELECT ( 'a;b' );-- x\n; /* y")
    ≡ some (reference (codes "SELECT ( 'a;b' );-- x\n; /* y"))
parse_statements-reference_example =
    parse_statements-reference (codes "SELECT ( 'a;b' );-- x\n; /* y")

parse_statements-IsStatement_example : All IsStatement (codes "SELECT 1" ∷ codes "SELECT (2)" ∷ [])
parse_statements-IsStatement_example =
    parse_statements-IsStatement (codes "SELECT 1; -- pick one\nSELECT /* x */ ( 2 );") _
      mixed_comments

abbrev selecting : Scan
selecting = record { statements = []; current = codes " TCELES" }

parse_statements_unclosed_example :
    parse_statements (codes "/* DROP x") ≡ parse_statements (codes "x")
parse_statements_unclosed_example =
    parse_statements_unclosed (codes " DROP ") b'x' (unfold has_close in refl)

unclosed_leaks : parse_statements (codes "/* DROP x") ≡ some (codes "x" ∷ [])
unfolding parsed
unclosed_leaks = refl

call_IsNormal : IsNormal (codes "f('a;b', 1)")
unfolding is_plain is_escaped may_space starts_solid
call_IsNormal = record {
  verbatim = plain b'f' refl (
      plain b'(' refl (
        literal (codes "a;b") (codes ", 1)") refl refl refl
          (plain b',' refl (blank refl (plain b'1' refl (close refl done))))));
  first_solid = refl;
  last_solid = refl;
}

parse_statements-print_example :
    parse_statements (codes "f('a;b', 1);f('a;b', 1);")
    ≡ some (codes "f('a;b', 1)" ∷ codes "f('a;b', 1)" ∷ [])
unfolding print
parse_statements-print_example =
    parse_statements-print (codes "f('a;b', 1)" ∷ codes "f('a;b', 1)" ∷ [])
      (call_IsNormal, (call_IsNormal, tt))
