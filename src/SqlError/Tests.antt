-- ===== src/SqlError/Tests.antt =====
-- An error whose message has two lines.
use postgres_cpp_lib.Base.{◌≡◌, refl}
use postgres_cpp_lib.Base.Texts.{codes}
use postgres_cpp_lib.SqlError.{SqlError, query_failed, to_str}
use postgres_cpp_lib.SqlError.Shown.{IsLine, to_str-IsLine}

abbrev two_lines : SqlError
two_lines = query_failed (codes "syntax error\nLINE 1")

shown : (to_str two_lines).0 ≡ codes "Postgres: QueryFailed syntax errorLINE 1"
unfolding to_str query_failed
shown = refl

to_str-IsLine_example :
    IsLine (to_str two_lines).0
    × ((to_str two_lines).1.err ≡ two_lines.err)
    × ((to_str (to_str two_lines).1).0 ≡ (to_str two_lines).0)
to_str-IsLine_example = to_str-IsLine two_lines
