-- ===== src/Table.antt =====
-- include/database/result/table.h and row.h. `PGresult` is libpq's, and its accessors are a parameter.
pub mod Names
mod Tests
use postgres_cpp_lib.Base.{
  ℕ, zero, suc, Bool, true, false, not, ◌&&◌, Option, none, some, List, [], ◌∷◌, ◌++◌, length, ◌==◌,
  if◌then◌else◌,
}
use postgres_cpp_lib.Base.Int.{ℤ, pos}
use postgres_cpp_lib.Base.Texts.{Text}
use postgres_cpp_lib.Wire.{Bytes}
use postgres_cpp_lib.Column.{Colum, colum, empty_colum}

pub record PgResult : Type 0 where
  pub pq_ntuples : ℕ
  pub pq_nfields : ℕ
  pub pq_fname : ℕ → Text
  pub pq_ftype : ℕ → ℕ
  pub pq_getisnull : ℕ → ℕ → Bool
  pub pq_getlength : ℕ → ℕ → ℤ
  pub pq_getvalue : ℕ → ℕ → Option Bytes

-- Equality of names.
unfoldable pub same : Text → Text → Bool
same [] [] = true
same [] (b ∷ bs) = false
same (a ∷ as') [] = false
same (a ∷ as') (b ∷ bs) = a == b && same as' bs

-- `m_columns`: the names with their columns.
abbrev pub Row : Type 0
Row = List (Text × Colum)

-- `m_columns[name] = column`
unfoldable pub assign : Text → Colum → Row → Row
unfolding same
assign name column [] = (name, column) ∷ []
assign name column ((k, v) ∷ row) =
    if same k name then (k, column) ∷ row else (k, v) ∷ assign name column row

unfoldable pub find : Text → Row → Option Colum
unfolding same
find name [] = none
find name ((k, v) ∷ row) = if same k name then some v else find name row

-- The column that was found, or the static empty one.
abbrev pub or_null : Option Colum → Colum
or_null none = empty_colum
or_null (some c) = c

abbrev pub and_as {ℓ} : {T : Type ℓ} → (Colum → Option T) → Option Colum → Option T
and_as as_t none = none
and_as as_t (some c) = as_t c

-- `operator[]`
unfoldable pub column_at : Text → Row → Colum
unfolding find
column_at name row = or_null (find name row)

-- `get<T>`, where `as_t` is `as<T>`.
unfoldable pub get {ℓ} : {T : Type ℓ} → (Colum → Option T) → Text → Row → Option T
unfolding find
get as_t name row = and_as as_t (find name row)

module _ (res : PgResult) where
  open res use {pq_ntuples, pq_nfields, pq_fname, pq_ftype, pq_getisnull, pq_getlength, pq_getvalue}

  unfoldable pub cell : ℕ → ℕ → Colum
  cell r c =
      let is_null = pq_getisnull r c in
      let val_len = if not is_null then pq_getlength r c else pos 0 in
      let val = if not is_null then pq_getvalue r c else none in
      colum (pq_ftype c) val val_len is_null

  -- The row behind so many rounds of the loop over the fields.
  unfoldable pub columns_up_to : ℕ → ℕ → Row
  unfolding assign cell
  columns_up_to r zero = []
  columns_up_to r (suc c) = assign (pq_fname c) (cell r c) (columns_up_to r c)

  -- The table behind so many rounds of the loop over the rows.
  unfoldable pub rows_up_to : ℕ → List Row
  unfolding columns_up_to
  rows_up_to zero = []
  rows_up_to (suc r) = rows_up_to r ++ columns_up_to r pq_nfields ∷ []

  unfoldable pub rows : List Row
  unfolding rows_up_to
  rows = rows_up_to pq_ntuples

  unfoldable pub size : ℕ
  size = length rows
