-- ===== src/Param/Bounds.antt =====
-- How long the binary form of an argument can be, and that it is made of bytes.
use postgres_cpp_lib.Base.{
  ℕ, zero, suc, ◌+◌, ◌-◌, ◌*◌, ◌%◌, ◌^◌, ◌≤◌, ◌<◌, ◌≡◌, arith, true, false, List, [], ◌∷◌, ◌++◌,
  length, length-append, reverse, All, All-append,
}
use postgres_cpp_lib.Base.Int.{pos, ◌-ℤ◌}
use postgres_cpp_lib.Wire.{IsByte, encode_fixed, to_word}
use postgres_cpp_lib.Wire.Laws.{length-encode_fixed, encode_fixed-IsByte, length-reverse}
use postgres_cpp_lib.Numeric.{groups, strip, encode_digits, encode_groups, encode_numeric_uint64}
use postgres_cpp_lib.Numeric.Groups.{length-groups-le, length-strip-le}
use postgres_cpp_lib.Param.{
  SupportedType, null, boolean, int16, int32, int64, uint16, uint32, uint64, double, float,
  const_c_string, c_string, string, bytes, timestamp, or_empty, to_binary, quotient, pg_epoch_us,
}

encode_digits-IsByte : (ds : List ℕ) → All IsByte (encode_digits ds)
unfolding encode_digits
encode_digits-IsByte [] = tt
encode_digits-IsByte (d ∷ ds) =
    All-append IsByte (encode_fixed 2 d) (encode_digits ds) (encode_fixed-IsByte 2 d)
      (encode_digits-IsByte ds)

length-encode_digits : (ds : List ℕ) → length (encode_digits ds) ≡ 2 * length ds
unfolding encode_digits
length-encode_digits [] = omega arith
length-encode_digits (d ∷ ds) = omega (
  arith,
  length-append (encode_fixed 2 d) (encode_digits ds),
  length-encode_fixed 2 d,
  length-encode_digits ds,
)

encode_groups-IsByte : (n : ℕ) (ds : List ℕ) → All IsByte (encode_groups n ds)
unfolding encode_groups
encode_groups-IsByte n ds = All-append IsByte _ _ (encode_fixed-IsByte 2 _) (
    All-append IsByte _ _ (encode_fixed-IsByte 2 _) (
      All-append IsByte _ _ (encode_fixed-IsByte 2 0)
        (All-append IsByte _ _ (encode_fixed-IsByte 2 0) (encode_digits-IsByte ds))))

length-encode_groups : (n : ℕ) (ds : List ℕ) → length (encode_groups n ds) ≡ 8 + 2 * length ds
unfolding encode_groups
length-encode_groups n ds =
    let size = encode_fixed 2 (length ds % 2 ^ 16) in
    let weight = encode_fixed 2 ((n - 1) % 2 ^ 16) in
    let nought = encode_fixed 2 0 in
    let rest = encode_digits ds in
    omega (
      arith,
      length-append size (weight ++ (nought ++ (nought ++ rest))),
      length-append weight (nought ++ (nought ++ rest)),
      length-append nought (nought ++ rest),
      length-append nought rest,
      length-encode_fixed 2 (length ds % 2 ^ 16),
      length-encode_fixed 2 ((n - 1) % 2 ^ 16),
      length-encode_fixed 2 0,
      length-encode_digits ds,
    )

encode_numeric_uint64-IsByte : (v : ℕ) → All IsByte (encode_numeric_uint64 v)
unfolding encode_numeric_uint64
encode_numeric_uint64-IsByte zero = omega arith
encode_numeric_uint64-IsByte (suc v) = encode_groups-IsByte _ _

length-encode_numeric_uint64-le : (v : ℕ) → v < 2 ^ 64 → length (encode_numeric_uint64 v) ≤ 18
unfolding encode_numeric_uint64
length-encode_numeric_uint64-le zero h = omega arith
length-encode_numeric_uint64-le (suc v) h =
    let raw = groups (suc v) (suc v) in
    omega (
      arith,
      length-encode_groups (length raw) (reverse (strip raw)),
      length-reverse (strip raw),
      length-strip-le raw,
      length-groups-le 5 (suc v) (suc v) (omega arith),
    )

-- A value that the variant can hold: a uint64_t, and texts of bytes.
abbrev pub IsHeld : SupportedType → Type 0
IsHeld (uint64 x) = x < 2 ^ 64
IsHeld (const_c_string s) = All IsByte (or_empty s)
IsHeld (c_string s) = All IsByte (or_empty s)
IsHeld (string s) = All IsByte s
IsHeld (bytes b) = All IsByte b
IsHeld _ = Unit

-- The length of each alternative; the bound of uint64_t is 8 bytes and five groups of 2.
abbrev pub limit : SupportedType → ℕ
limit null = 0
limit (boolean b) = 1
limit (int16 x) = 2
limit (int32 x) = 4
limit (int64 x) = 8
limit (uint16 x) = 2
limit (uint32 x) = 4
limit (uint64 x) = 18
limit (double x) = 8
limit (float x) = 4
limit (const_c_string s) = length (or_empty s)
limit (c_string s) = length (or_empty s)
limit (string s) = length s
limit (bytes b) = length b
limit (timestamp t) = 8

fixed : (n v : ℕ) → All IsByte (encode_fixed n v) × (length (encode_fixed n v) ≤ n)
fixed n v = (encode_fixed-IsByte n v, omega (arith, length-encode_fixed n v))

-- What `ToBinary` makes of any argument is bytes, and no more of them than its type allows: the size
-- of the type, 18 for a uint64_t, and the length of a text.
pub to_binary_bounds :
    (per_us : ℕ) (p : SupportedType)
    → IsHeld p
    → All IsByte (to_binary per_us p) × (length (to_binary per_us p) ≤ limit p)
unfolding to_binary
to_binary_bounds per_us null h = (tt, omega arith)
to_binary_bounds per_us (boolean true) h = (omega arith, omega arith)
to_binary_bounds per_us (boolean false) h = (omega arith, omega arith)
to_binary_bounds per_us (int16 x) h = fixed 2 x
to_binary_bounds per_us (int32 x) h = fixed 4 x
to_binary_bounds per_us (int64 x) h = fixed 8 x
to_binary_bounds per_us (uint16 x) h = fixed 2 x
to_binary_bounds per_us (uint32 x) h = fixed 4 x
to_binary_bounds per_us (uint64 x) h =
    (encode_numeric_uint64-IsByte x, length-encode_numeric_uint64-le x h)
to_binary_bounds per_us (double x) h = fixed 8 x
to_binary_bounds per_us (float x) h = fixed 4 x
to_binary_bounds per_us (const_c_string s) h = (h, omega arith)
to_binary_bounds per_us (c_string s) h = (h, omega arith)
to_binary_bounds per_us (string s) h = (h, omega arith)
to_binary_bounds per_us (bytes b) h = (h, omega arith)
to_binary_bounds per_us (timestamp t) h =
    fixed 8 (to_word 64 (quotient t per_us -ℤ pos pg_epoch_us))
