-- ===== src/Column/Tests.antt =====
-- Columns read at concrete bytes, and the theorems at concrete values.
use postgres_cpp_lib.Base.{
  ◌==◌, if◌then◌else◌, ◌^◌, ◌≡◌, refl, arith, true, false, none, some, [], ◌∷◌,
}
use postgres_cpp_lib.Base.Int.{pos, negsuc, ◌*ℤ◌}
use postgres_cpp_lib.Wire.{encode_fixed, read_big_endian}
use postgres_cpp_lib.Param.{boolean_argument, float_argument, double_argument, timestamp_argument}
use postgres_cpp_lib.Column.{
  Colum, as_bool, as_int16, as_int32, as_int64, as_float, as_double, as_timestamp, as_uint16,
  as_uint32, as_uint64,
}
use postgres_cpp_lib.Column.PgOid
use postgres_cpp_lib.Numeric.Groups.{of_digits}
use postgres_cpp_lib.Column.Decode.{numeric_bytes, numeric_colum, as_uint64-numeric_bytes}
use postgres_cpp_lib.Column.RoundTrip.{uint64_round_trip}
use postgres_cpp_lib.Column.Typed.{stored, integer, scalars_round_trip, timestamp_round_trip}
use postgres_cpp_lib.Numeric.{encode_numeric_uint64}

-- 100000000 is one group, 1, two powers of 10000 up.
one_group : encode_numeric_uint64 100000000 ≡ 0 ∷ 1 ∷ 0 ∷ 2 ∷ 0 ∷ 0 ∷ 0 ∷ 0 ∷ 0 ∷ 1 ∷ []
unfolding encode_numeric_uint64 encode_fixed
one_group = refl

-- Two bytes stand for 0, where a NUMERIC has eight at least.
zero_bytes : encode_numeric_uint64 0 ≡ 8 ∷ 0 ∷ []
unfolding encode_numeric_uint64
zero_bytes = refl

-- 1.5 has the groups 1 and 5000, and is read as 15000.
fraction_misread : as_uint64 (numeric_colum (numeric_bytes 2 0 0 1 (1 ∷ 5000 ∷ []))) ≡ some 15000
unfolding of_digits
fraction_misread =
    as_uint64-numeric_bytes 0 1 (1 ∷ 5000 ∷ []) (omega arith) (omega arith) (omega arith)
      (omega arith)

-- 2 ^ 64 is read as 0.
overflow_wraps :
    as_uint64 (numeric_colum (numeric_bytes 5 4 0 0 (1844 ∷ 6744 ∷ 737 ∷ 955 ∷ 1616 ∷ []))) ≡ some 0
unfolding of_digits
overflow_wraps =
    as_uint64-numeric_bytes 4 0 (1844 ∷ 6744 ∷ 737 ∷ 955 ∷ 1616 ∷ []) (omega arith) (omega arith)
      (omega arith) (omega arith)

abbrev minus_two : Colum
minus_two = record { is_null = false; oid = PgOid.int2; content = 0xff ∷ 0xfe ∷ [] }

minus_two_read : as_int16 minus_two ≡ some 0xfffe
unfolding as_int16 read_big_endian
minus_two_read = refl

as_uint64-numeric_bytes_example :
    as_uint64 (numeric_colum (numeric_bytes 2 2 0 0 (12 ∷ 3456 ∷ []))) ≡ some 1234560000
unfolding of_digits
as_uint64-numeric_bytes_example =
    as_uint64-numeric_bytes 2 0 (12 ∷ 3456 ∷ []) (omega arith) (omega arith) (omega arith)
      (omega arith)

uint64_round_trip_example :
    as_uint64 (stored 1000 PgOid.numeric (integer false 8 10000))
    ≡ (if 10000 == 0 then none else some 10000)
uint64_round_trip_example = uint64_round_trip 1000 10000 (omega arith)

scalars_round_trip_example :
    ((as_bool (stored 1000 PgOid.bool (boolean_argument true)) ≡ some true)
      × (as_int16 (stored 1000 PgOid.int2 (integer true 2 65535)) ≡ some 65535)
      × (as_int32 (stored 1000 PgOid.int4 (integer true 4 77)) ≡ some 77)
      × (as_int64 (stored 1000 PgOid.int8 (integer true 8 (2 ^ 63))) ≡ some (2 ^ 63)))
    × ((as_uint16 (stored 1000 PgOid.int4 (integer false 2 65535)) ≡ some 65535)
        × (as_uint32 (stored 1000 PgOid.int8 (integer false 4 77)) ≡ some 77))
    × ((as_float (stored 1000 PgOid.float4 (float_argument 77)) ≡ some 77)
        × (as_double (λ x. x) (stored 1000 PgOid.float8 (double_argument (2 ^ 63)))
            ≡ some (2 ^ 63)))
scalars_round_trip_example =
    scalars_round_trip 1000 (λ x. x) true 65535 77 (2 ^ 63) (omega arith) (omega arith)
      (omega arith)

-- One nanosecond before the epoch becomes the epoch.
timestamp_round_trip_example :
    as_timestamp 1000 (stored 1000 PgOid.timestamp (timestamp_argument (negsuc 0))) ≡ some (pos 0)
unfolding ◌*ℤ◌
timestamp_round_trip_example =
    timestamp_round_trip 1000 (negsuc 0) (omega arith, omega arith, omega arith)

abbrev minus_three : Colum
minus_three = record { is_null = false; oid = PgOid.int4; content = 0xff ∷ 0xff ∷ 0xff ∷ 0xfd ∷ [] }

minus_three_read : as_int32 minus_three ≡ some 0xfffffffd
unfolding as_int32 read_big_endian
minus_three_read = refl
