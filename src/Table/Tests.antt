-- ===== src/Table/Tests.antt =====
-- A result of one row with two fields of one name.
use postgres_cpp_lib.Base.{
  zero, suc, ◌==◌, if◌then◌else◌, ℕ, ◌≡◌, refl, arith, false, some, List, get_elem?,
}
use postgres_cpp_lib.Base.Int.{pos}
use postgres_cpp_lib.Base.Texts.{Text, codes}
use postgres_cpp_lib.Column.{as_string}
use postgres_cpp_lib.Column.PgOid
use postgres_cpp_lib.Table.{PgResult, Row, rows, size, column_at, get, or_null, and_as, same}
use postgres_cpp_lib.Table.Names.{last_named, cells, rows-last_named}

abbrev names : ℕ → Text
names zero = codes "id"
names (suc c) = codes "name"

abbrev values : ℕ → List ℕ
values c = if c == 1 then codes "first" else codes "other"

abbrev joined : PgResult
joined = record {
  pq_ntuples = 1;
  pq_nfields = 3;
  pq_fname = names;
  pq_ftype = λ c. PgOid.text;
  pq_getisnull = λ r c. false;
  pq_getlength = λ r c. pos 5;
  pq_getvalue = λ r c. some (values c);
}

last_wins : last_named joined (codes "name") 3 ≡ some 2
unfolding last_named same
last_wins = refl

rows-last_named_example :
    (size joined ≡ 1)
    × ((row : Row) × (get_elem? (rows joined) 0 ≡ some row)
        × (column_at (codes "name") row
            ≡ or_null (cells joined 0 (last_named joined (codes "name") 3)))
        × (get as_string (codes "name") row
            ≡ and_as as_string (cells joined 0 (last_named joined (codes "name") 3))))
rows-last_named_example = rows-last_named joined as_string 0 (codes "name") (omega arith)
