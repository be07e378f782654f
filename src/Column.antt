-- ===== src/Column.antt =====
-- include/database/result/colunm.h: one field of a result and its readings.
-- A reading returns a bit pattern, as in Wire; a time point is its number of clock ticks.
pub mod PgOid
pub mod Decode
pub mod RoundTrip
pub mod Nulls
pub mod Typed
mod Tests
use postgres_cpp_lib.Base.{
  ℕ, zero, suc, ◌+◌, ◌*◌, ◌/◌, ◌%◌, ◌^◌, Bool, true, false, not, ◌&&◌, ◌||◌, Option, none, some,
  List, [], ◌∷◌, length, take, drop, get_or, ltb, ◌==◌, if◌then◌else◌,
}
use postgres_cpp_lib.Base.Int.{ℤ, pos, negsuc, pos_part, ◌+ℤ◌, ◌-ℤ◌, ◌*ℤ◌, ltb_ℤ}
use postgres_cpp_lib.Wire.{Bytes, read_big_endian, signed, to_word}
use postgres_cpp_lib.Param.{pg_epoch_us}

pub record Colum : Type 0 where
  pub is_null : Bool
  pub oid : ℕ
  pub content : Bytes

-- A column that no value was given.
unfoldable pub empty_colum : Colum
empty_colum = record { is_null = true; oid = 0; content = [] }

-- The bytes that the constructor copies: `!is_null && val && val_len > 0`.
unfoldable pub copied : Bool → Option Bytes → ℤ → Bytes
copied is_null none val_len = []
copied is_null (some val) val_len =
    if not is_null && ltb_ℤ (pos 0) val_len then take (pos_part val_len) val else []

unfoldable pub colum : ℕ → Option Bytes → ℤ → Bool → Colum
unfolding copied
colum oid val val_len is_null = record {
  is_null = is_null;
  oid = oid;
  content = copied is_null val val_len;
}

-- `oid == o && data.size() == n`
abbrev pub has_type : Colum → ℕ → ℕ → Bool
has_type c o n = c.oid == o && length c.content == n

-- `ReadBigEndian<T>(data.data())` for a signed T of `w` bits, converted to a type of `w'` bits.
abbrev pub read_as : ℕ → ℕ → ℕ → Bytes → ℕ
read_as n w w' p = to_word w' (signed w (read_big_endian n p))

unfoldable pub as_bool : Colum → Option Bool
as_bool c =
    if c.is_null || length c.content == 0
    then none
    else if c.oid == PgOid.bool
    then some (not (get_or c.content 0 0 == 0))
    else none

unfoldable pub as_int16 : Colum → Option ℕ
as_int16 c =
    if c.is_null
    then none
    else if has_type c PgOid.int2 2
    then some (read_big_endian 2 c.content)
    else none

unfoldable pub as_int32 : Colum → Option ℕ
as_int32 c =
    if c.is_null
    then none
    else if has_type c PgOid.int4 4
    then some (read_big_endian 4 c.content)
    else if has_type c PgOid.int2 2
    then some (read_as 2 16 32 c.content)
    else none

unfoldable pub as_int64 : Colum → Option ℕ
as_int64 c =
    if c.is_null
    then none
    else if has_type c PgOid.int8 8
    then some (read_big_endian 8 c.content)
    else if has_type c PgOid.int4 4
    then some (read_as 4 32 64 c.content)
    else if has_type c PgOid.int2 2
    then some (read_as 2 16 64 c.content)
    else none

unfoldable pub as_float : Colum → Option ℕ
as_float c =
    if c.is_null
    then none
    else if has_type c PgOid.float4 4
    then some (read_big_endian 4 c.content)
    else none

abbrev pub widened : (ℕ → ℕ) → Option ℕ → Option ℕ
widened widen none = none
widened widen (some f) = some (widen f)

-- `widen` is the conversion of a float to a double, on the patterns: the processor's.
unfoldable pub as_double : (ℕ → ℕ) → Colum → Option ℕ
unfolding as_float
as_double widen c =
    if c.is_null
    then none
    else if has_type c PgOid.float8 8
    then some (read_big_endian 8 c.content)
    else if has_type c PgOid.float4 4
    then widened widen (as_float c)
    else none

unfoldable pub as_string : Colum → Option Bytes
as_string c =
    if c.is_null
    then none
    else if c.oid == PgOid.text || c.oid == PgOid.varchar || c.oid == PgOid.bpchar
    then some c.content
    else none

-- The exact value of an operation on int64_t, kept modulo 2 ^ 64; the source's is undefined where the
-- exact value is not an int64_t.
abbrev pub int64 : ℤ → ℤ
int64 a = signed 64 (to_word 64 a)

-- A microsecond is `per_us` ticks of the clock; the sum and its conversion to ticks are int64_t.
unfoldable pub as_timestamp : ℕ → Colum → Option ℤ
as_timestamp per_us c =
    if c.is_null
    then none
    else if (c.oid == PgOid.timestamp || c.oid == PgOid.timestamptz) && length c.content == 8
    then some
        (int64 (int64 (signed 64 (read_big_endian 8 c.content) +ℤ pos pg_epoch_us) *ℤ pos per_us))
    else none

unfoldable pub as_uint16 : Colum → Option ℕ
as_uint16 c =
    if c.is_null
    then none
    else if has_type c PgOid.int4 4
    then some (read_as 4 32 16 c.content)
    else none

unfoldable pub as_uint32 : Colum → Option ℕ
as_uint32 c =
    if c.is_null
    then none
    else if has_type c PgOid.int8 8
    then some (read_as 8 64 32 c.content)
    else none

-- `result = result * 10000 + digit` on uint64_t, for the `n` digits from `p` on.
unfoldable pub read_digits : ℕ → Bytes → ℕ → ℕ
read_digits zero p result = result
read_digits (suc n) p result =
    read_digits n (drop 2 p) ((result * 10000 + read_big_endian 2 p) % 2 ^ 64)

-- `result *= 10000` on uint64_t, for each group that was left out.
unfoldable pub scale : ℕ → ℕ → ℕ
scale zero result = result
scale (suc t) result = scale t (result * 10000 % 2 ^ 64)

-- The body of `as<uint64_t>`, on the header's fields. A loop up to a negative bound makes no round.
unfoldable pub numeric_value : ℤ → ℤ → ℕ → Bytes → Option ℕ
unfolding read_digits scale
numeric_value ndigits weight sign p =
    if not (sign == 0)
    then none
    else if to_word 16 ndigits == 0
    then some 0
    else if ltb (length p) (to_word 64 (pos 8 +ℤ ndigits *ℤ pos 2))
    then none
    else some (
        scale (pos_part (weight -ℤ (ndigits -ℤ pos 1)))
          (read_digits (pos_part ndigits) (drop 8 p) 0))

unfoldable pub as_uint64 : Colum → Option ℕ
unfolding numeric_value
as_uint64 c =
    let p = c.content in
    if c.is_null
    then none
    else if not (c.oid == PgOid.numeric) || ltb (length p) 8
    then none
    else numeric_value (signed 16 (read_big_endian 2 p)) (signed 16 (read_big_endian 2 (drop 2 p)))
        (read_big_endian 2 (drop 4 p)) p

unfoldable pub as_bytes : Colum → Option Bytes
as_bytes c = if c.is_null then none else if c.oid == PgOid.bytea then some c.content else none
