-- ===== src/Param.antt =====
-- include/database/internal/type_detail.h: the arguments of a query, their types on the wire, and
-- the arrays that libpq is given.
pub mod Integers
pub mod Types
pub mod Buffer
pub mod Sent
pub mod Bounds
mod Tests
use postgres_cpp_lib.Base.{
  ℕ, zero, suc, ◌+◌, ◌*◌, ◌/◌, ◌%◌, ◌^◌, Bool, true, false, Option, none, some, List, [], ◌∷◌,
  length, set, replicate, ltb, leb, ◌==◌, if◌then◌else◌,
}
use postgres_cpp_lib.Base.Int.{ℤ, pos, negsuc, sub_ℕ, ◌-ℤ◌}
use postgres_cpp_lib.Wire.{Bytes, encode_fixed, signed, to_word}
use postgres_cpp_lib.Numeric.{encode_numeric_uint64}

-- `supported_type`. Integers and floating-point numbers are their bit patterns; a null pointer is
-- `none`; a time point is its number of clock ticks since the Unix epoch.
pub data SupportedType : Type 0 where
  null : SupportedType
  boolean : Bool → SupportedType
  int16 int32 int64 uint16 uint32 uint64 : ℕ → SupportedType
  double float : ℕ → SupportedType
  const_c_string c_string : Option Bytes → SupportedType
  string : Bytes → SupportedType
  bytes : Bytes → SupportedType
  timestamp : ℤ → SupportedType

-- A value of an integral type other than bool: whether the type is signed, its size, its pattern.
pub record Integral : Type 0 where
  pub is_signed : Bool
  pub size : ℕ
  pub bits : ℕ

abbrev pub integral_value : Integral → ℤ
integral_value d = if d.is_signed then signed (8 * d.size) d.bits else pos d.bits

-- `NormalizeIntegral`; the branches are those of the `if constexpr`.
unfoldable pub normalize_integral : Integral → SupportedType
normalize_integral d =
    let v = integral_value d in
    if d.is_signed
    then (if leb d.size 2
        then int16 (to_word 16 v)
        else if leb d.size 4
        then int32 (to_word 32 v)
        else int64 (to_word 64 v))
    else if d.size == 1
    then int16 (to_word 16 v)
    else if d.size == 2
    then int32 (to_word 32 v)
    else if d.size == 4
    then int64 (to_word 64 v)
    else uint64 (to_word 64 v)

-- The types that `IsSupported` admits, as a caller passes them. A C string is not null here: the
-- source hands it to `std::string`, which wants a string.
pub data Argument : Type 0 where
  null_argument : Argument
  boolean_argument : Bool → Argument
  integral_argument : Integral → Argument
  double_argument float_argument : ℕ → Argument
  string_argument c_string_argument : Bytes → Argument
  bytes_argument span_argument : Bytes → Argument
  timestamp_argument : ℤ → Argument

-- `CreateSingleData`
unfoldable pub create_single_data : Argument → SupportedType
unfolding normalize_integral
create_single_data null_argument = null
create_single_data (boolean_argument b) = boolean b
create_single_data (integral_argument d) = normalize_integral d
create_single_data (double_argument x) = double x
create_single_data (float_argument x) = float x
create_single_data (string_argument s) = string s
create_single_data (c_string_argument s) = string s
create_single_data (bytes_argument b) = bytes b
create_single_data (span_argument b) = bytes b
create_single_data (timestamp_argument t) = timestamp t

-- Microseconds from the Unix epoch to 2000-01-01.
abbrev pub pg_epoch_us : ℕ
pg_epoch_us = 946684800 * 1_000_000

-- Integer division, which `duration_cast` makes: it rounds towards zero.
abbrev pub quotient : ℤ → ℕ → ℤ
quotient (pos n) k = pos (n / k)
quotient (negsuc n) k = sub_ℕ 0 (suc n / k)

abbrev pub or_empty : Option Bytes → Bytes
or_empty none = []
or_empty (some s) = s

-- `ToBinary`. The clock's period is the standard library's: `per_us` ticks are a microsecond.
unfoldable pub to_binary : ℕ → SupportedType → Bytes
unfolding encode_numeric_uint64 encode_fixed
to_binary per_us null = []
to_binary per_us (boolean b) = (if b then 1 else 0) ∷ []
to_binary per_us (int16 x) = encode_fixed 2 x
to_binary per_us (int32 x) = encode_fixed 4 x
to_binary per_us (int64 x) = encode_fixed 8 x
to_binary per_us (uint16 x) = encode_fixed 2 x
to_binary per_us (uint32 x) = encode_fixed 4 x
to_binary per_us (uint64 x) = encode_numeric_uint64 x
to_binary per_us (double x) = encode_fixed 8 x
to_binary per_us (float x) = encode_fixed 4 x
to_binary per_us (const_c_string s) = or_empty s
to_binary per_us (c_string s) = or_empty s
to_binary per_us (string s) = s
to_binary per_us (bytes b) = b
to_binary per_us (timestamp t) = encode_fixed 8 (to_word 64 (quotient t per_us -ℤ pos pg_epoch_us))

-- `pg_param_detail`. A pointer is null, or points to the characters of one entry of `text`.
pub record PgParamDetail : Type 0 where
  pub query : Bytes
  pub text : List Bytes
  pub buffers : List (Option ℕ)
  pub lengths : List ℕ
  pub formats : List ℕ

-- The constructor from a query and a number of parameters.
unfoldable pub pg_param_detail : Bytes → ℕ → PgParamDetail
pg_param_detail query n = record {
  query = query;
  text = replicate n [];
  buffers = replicate n none;
  lengths = replicate n 0;
  formats = replicate n 0;
}

unfoldable pub count : PgParamDetail → ℕ
count d = length d.buffers % 2 ^ 32

abbrev pub is_null : SupportedType → Bool
is_null null = true
is_null _ = false

-- One round of the loop of `MakePgParamBuffer`, at the index `i`.
unfoldable pub put_param : ℕ → ℕ → SupportedType → PgParamDetail → PgParamDetail
put_param per_us i p out =
    let formats = set out.formats i 1 in
    if is_null p
    then record out {
      buffers = set out.buffers i none;
      lengths = set out.lengths i 0;
      formats = formats;
    }
    else record out {
      text = set out.text i (to_binary per_us p);
      buffers = set out.buffers i (some i);
      lengths = set out.lengths i (length (to_binary per_us p) % 2 ^ 32);
      formats = formats;
    }

unfoldable pub put_params : ℕ → ℕ → List SupportedType → PgParamDetail → PgParamDetail
unfolding put_param
put_params per_us i [] out = out
put_params per_us i (p ∷ ps) out = put_params per_us (i + 1) ps (put_param per_us i p out)

unfoldable pub make_pg_param_buffer : ℕ → Bytes → List SupportedType → PgParamDetail
unfolding put_params pg_param_detail
make_pg_param_buffer per_us query params =
    put_params per_us 0 params (pg_param_detail query (length params))
