-- ===== src/SqlError/Shown.antt =====
-- The text of an error.
use postgres_cpp_lib.Base.{◌≡◌, ◌≢◌, refl, ap, arith, [], ◌∷◌, ◌++◌, All, All-append}
use postgres_cpp_lib.Base.Texts.{Text, codes}
use postgres_cpp_lib.SqlError.Types.{ErrorType}
use postgres_cpp_lib.SqlError.{SqlError, code_str, erase_newlines, to_str}

abbrev pub IsLine : Text → Type 0
IsLine = All (λ c. c ≢ b'\n')

erase_newlines-IsLine : (t : Text) → IsLine (erase_newlines t)
unfolding erase_newlines
erase_newlines-IsLine [] = tt
erase_newlines-IsLine (c ∷ cs) = ground (arith, erase_newlines-IsLine cs)

erase_newlines_of_line : (t : Text) → IsLine t → erase_newlines t ≡ t
unfolding erase_newlines
erase_newlines_of_line [] h = refl
erase_newlines_of_line (c ∷ cs) h = ground (arith, erase_newlines_of_line cs)

code_str-IsLine : (k : ErrorType) → IsLine (code_str k)
unfolding code_str
code_str-IsLine ErrorType.connection_failed = omega arith
code_str-IsLine ErrorType.reconnect_failed = omega arith
code_str-IsLine _ = omega arith

-- The text of an error is one line, the error keeps its type, and a second call gives the same text.
pub to_str-IsLine :
    (e : SqlError)
    → IsLine (to_str e).0 × ((to_str e).1.err ≡ e.err) × ((to_str (to_str e).1).0 ≡ (to_str e).0)
unfolding to_str
to_str-IsLine e = (
  All-append _ (codes "Postgres: ") _ (omega arith) (
      All-append _ (code_str e.err) _ (code_str-IsLine e.err)
        (omega arith, erase_newlines-IsLine e.message)),
  refl,
  ap (λ m. codes "Postgres: " ++ (code_str e.err ++ b' ' ∷ m))
      (erase_newlines_of_line _ (erase_newlines-IsLine e.message)),
)
