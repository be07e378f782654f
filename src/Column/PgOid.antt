-- ===== src/Column/PgOid.antt =====
-- The type numbers of include/database/result/colunm.h, `pg_oid`.
use postgres_cpp_lib.Base.{ℕ}

abbrev pub bool : ℕ
bool = 16

abbrev pub int2 : ℕ
int2 = 21

abbrev pub int4 : ℕ
int4 = 23

abbrev pub int8 : ℕ
int8 = 20

abbrev pub float4 : ℕ
float4 = 700

abbrev pub float8 : ℕ
float8 = 701

abbrev pub text : ℕ
text = 25

abbrev pub varchar : ℕ
varchar = 1043

abbrev pub bpchar : ℕ
bpchar = 1042

abbrev pub bytea : ℕ
bytea = 17

abbrev pub numeric : ℕ
numeric = 1700

abbrev pub timestamp : ℕ
timestamp = 1114

abbrev pub timestamptz : ℕ
timestamptz = 1184
