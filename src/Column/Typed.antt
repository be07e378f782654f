-- ===== src/Column/Typed.antt =====
-- A C++ value passed to `execute` and read back with its own type from the column that
-- tests/docker/init_test_users.sql keeps it in.
use postgres_cpp_lib.Base.{
  ℕ, zero, suc, ◌+◌, ◌*◌, ◌/◌, ◌^◌, ◌≤◌, ◌<◌, ◌≡◌, refl, sym, ap, ◌∙◌, arith, Bool, true, false, [],
  some, append-nil,
}
use postgres_cpp_lib.Base.Int.{ℤ, pos, negsuc, ◌+ℤ◌, ◌-ℤ◌, ◌*ℤ◌, pos_part, neg_part, sub_ℕ}
use postgres_cpp_lib.Wire.{Bytes, encode_fixed, read_big_endian, signed, to_word}
use postgres_cpp_lib.Wire.Laws.{read_big_endian-encode_fixed, length-encode_fixed}
use postgres_cpp_lib.Param.{
  Argument, boolean_argument, integral_argument, double_argument, float_argument, string_argument,
  c_string_argument, bytes_argument, span_argument, timestamp_argument, create_single_data,
  to_binary, quotient, pg_epoch_us,
}
use postgres_cpp_lib.Column.{
  Colum, as_bool, as_int16, as_int32, as_int64, as_float, as_double, as_string, as_timestamp,
  as_uint16, as_uint32, as_bytes, int64,
}
use postgres_cpp_lib.Column.PgOid

-- The column of the type `oid` that holds an argument as it was sent.
abbrev pub stored : ℕ → ℕ → Argument → Colum
stored per_us oid a = record {
  is_null = false;
  oid = oid;
  content = to_binary per_us (create_single_data a);
}

abbrev pub integer : Bool → ℕ → ℕ → Argument
integer is_signed size bits =
    integral_argument (record { is_signed = is_signed; size = size; bits = bits })

read_back : (n v : ℕ) → v < 256 ^ n → read_big_endian n (encode_fixed n v) ≡ v
read_back n v h =
    ap (read_big_endian n) (sym (append-nil (encode_fixed n v)))
    ∙ read_big_endian-encode_fixed n v [] h

pattern_back : (v : ℕ) → v < 2 ^ 64 → to_word 64 (signed 64 v) ≡ v
pattern_back v h = ground arith

module _ (per_us : ℕ) where
  int16_back :
      (v : ℕ) → v < 2 ^ 16 → as_int16 (stored per_us PgOid.int2 (integer true 2 v)) ≡ some v
  unfolding as_int16 to_binary create_single_data
  int16_back v h = ground (arith, length-encode_fixed 2 v, read_back 2 v)

  int32_back :
      (v : ℕ) → v < 2 ^ 32 → as_int32 (stored per_us PgOid.int4 (integer true 4 v)) ≡ some v
  unfolding as_int32 to_binary create_single_data
  int32_back v h = ground (arith, length-encode_fixed 4 v, read_back 4 v)

  int64_back :
      (v : ℕ) → v < 2 ^ 64 → as_int64 (stored per_us PgOid.int8 (integer true 8 v)) ≡ some v
  unfolding as_int64 to_binary create_single_data
  int64_back v h =
      rw (pattern_back v h, length-encode_fixed 8 v) (ap (λ (x : ℕ). some x) (read_back 8 v h))

  uint16_back :
      (v : ℕ) → v < 2 ^ 16 → as_uint16 (stored per_us PgOid.int4 (integer false 2 v)) ≡ some v
  unfolding as_uint16 to_binary create_single_data
  uint16_back v h = ground (arith, length-encode_fixed 4 v, read_back 4 v)

  uint32_back :
      (v : ℕ) → v < 2 ^ 32 → as_uint32 (stored per_us PgOid.int8 (integer false 4 v)) ≡ some v
  unfolding as_uint32 to_binary create_single_data
  uint32_back v h = ground (arith, length-encode_fixed 8 v, read_back 8 v)

  float_back :
      (v : ℕ) → v < 2 ^ 32 → as_float (stored per_us PgOid.float4 (float_argument v)) ≡ some v
  unfolding as_float to_binary create_single_data
  float_back v h = ground (arith, length-encode_fixed 4 v, read_back 4 v)

  double_back :
      (widen : ℕ → ℕ) (v : ℕ)
      → v < 2 ^ 64
      → as_double widen (stored per_us PgOid.float8 (double_argument v)) ≡ some v
  unfolding as_double to_binary create_single_data
  double_back widen v h = ground (arith, length-encode_fixed 8 v, read_back 8 v)

  bool_back : (b : Bool) → as_bool (stored per_us PgOid.bool (boolean_argument b)) ≡ some b
  unfolding as_bool to_binary create_single_data
  bool_back true = refl
  bool_back false = refl

  -- Every signed or unsigned integer up to 32 bits, int64_t, both floating-point types (as
  -- patterns) and both truth values come back as they were passed.
  pub scalars_round_trip :
      (widen : ℕ → ℕ) (b : Bool) (v16 v32 v64 : ℕ)
      → v16 < 2 ^ 16
      → v32 < 2 ^ 32
      → v64 < 2 ^ 64
      → ((as_bool (stored per_us PgOid.bool (boolean_argument b)) ≡ some b)
          × (as_int16 (stored per_us PgOid.int2 (integer true 2 v16)) ≡ some v16)
          × (as_int32 (stored per_us PgOid.int4 (integer true 4 v32)) ≡ some v32)
          × (as_int64 (stored per_us PgOid.int8 (integer true 8 v64)) ≡ some v64))
        × ((as_uint16 (stored per_us PgOid.int4 (integer false 2 v16)) ≡ some v16)
            × (as_uint32 (stored per_us PgOid.int8 (integer false 4 v32)) ≡ some v32))
        × ((as_float (stored per_us PgOid.float4 (float_argument v32)) ≡ some v32)
            × (as_double widen (stored per_us PgOid.float8 (double_argument v64)) ≡ some v64))
  scalars_round_trip widen b v16 v32 v64 h16 h32 h64 = (
    (bool_back b, int16_back v16 h16, int32_back v32 h32, int64_back v64 h64),
    (uint16_back v16 h16, uint32_back v32 h32),
    (float_back v32 h32, double_back widen v64 h64),
  )

  -- Texts, whether passed as strings or as C strings, and bytes, whether as a vector or as a span,
  -- come back whole, the empty ones included.
  pub texts_round_trip :
      (s : Bytes)
      → (as_string (stored per_us PgOid.text (string_argument s)) ≡ some s)
        × (as_string (stored per_us PgOid.varchar (c_string_argument s)) ≡ some s)
        × (as_bytes (stored per_us PgOid.bytea (bytes_argument s)) ≡ some s)
        × (as_bytes (stored per_us PgOid.bytea (span_argument s)) ≡ some s)
  unfolding as_string as_bytes to_binary create_single_data
  texts_round_trip s = (refl, refl, refl, refl)

-- The ticks of a time point are an int64_t, and so are its microseconds since 2000.
abbrev pub IsStorable : ℕ → ℤ → Type 0
IsStorable per_us t =
    (pos_part t < 2 ^ 63)
    × (neg_part t ≤ 2 ^ 63)
    × (neg_part (quotient t per_us) + pg_epoch_us ≤ 2 ^ 63)

int64_lem : (a : ℤ) → pos_part a < 2 ^ 63 → neg_part a ≤ 2 ^ 63 → int64 a ≡ a
int64_lem a h k = ground arith

shifted_back :
    (a : ℤ)
    → pos_part a < 2 ^ 63
    → neg_part a + pg_epoch_us ≤ 2 ^ 63
    → int64 (int64 (a -ℤ pos pg_epoch_us) +ℤ pos pg_epoch_us) ≡ a
unfolding ◌+ℤ◌ ◌-ℤ◌
shifted_back a h k = ground arith

whole_le : (n k : ℕ) → n / k * k ≤ n
whole_le n k = omega arith

whole_part : (t : ℤ) (k : ℕ) → pos_part (quotient t k) ≤ pos_part t
whole_part (pos n) k = omega arith
whole_part (negsuc n) k = ground arith

times_pos :
    (d k n : ℕ) → d * k ≤ n → (pos_part (pos d *ℤ pos k) ≤ n) × (neg_part (pos d *ℤ pos k) ≤ 0)
unfolding ◌*ℤ◌
times_pos d k n h = ground arith

times_neg :
    (d k n : ℕ)
    → d * k ≤ n
    → (pos_part (sub_ℕ 0 d *ℤ pos k) ≤ 0) × (neg_part (sub_ℕ 0 d *ℤ pos k) ≤ n)
unfolding ◌*ℤ◌
times_neg zero k n h = ground arith
times_neg (suc d) k n h = ground arith

-- The whole microseconds, in ticks, lie between the epoch and the time point.
ticks_bounds :
    (t : ℤ) (k : ℕ)
    → (pos_part (quotient t k *ℤ pos k) ≤ pos_part t)
      × (neg_part (quotient t k *ℤ pos k) ≤ neg_part t)
ticks_bounds (pos n) k = times_pos (n / k) k n (whole_le n k)
ticks_bounds (negsuc n) k = times_neg (suc n / k) k (suc n) (whole_le (suc n) k)

to_word-lt : (a : ℤ) → to_word 64 a < 256 ^ 8
to_word-lt (pos n) = omega arith
to_word-lt (negsuc n) = omega arith

-- A time point comes back rounded towards the Unix epoch to a whole number of microseconds, if its
-- ticks are an int64_t and its microseconds since 2000 are one too.
pub timestamp_round_trip :
    (per_us : ℕ) (t : ℤ)
    → IsStorable per_us t
    → as_timestamp per_us (stored per_us PgOid.timestamp (timestamp_argument t))
      ≡ some (quotient t per_us *ℤ pos per_us)
unfolding as_timestamp to_binary create_single_data
timestamp_round_trip per_us t (high, low, since) =
    let q = quotient t per_us in
    let v : ℕ = to_word 64 (q -ℤ pos pg_epoch_us) in
    let (up, down) = ticks_bounds t per_us in
    let whole = whole_part t per_us in
    rw (length-encode_fixed 8 v, read_back 8 v (to_word-lt _))
      (ap (λ (a : ℤ). some (int64 (a *ℤ pos per_us))) (shifted_back q (omega arith) since)
        ∙ ap (λ (a : ℤ). some a) (int64_lem (q *ℤ pos per_us) (omega arith) (omega arith)))
