-- ===== src/Numeric.antt =====
-- `EncodeNumericUint64` of include/database/internal/type_detail.h: a uint64_t as the binary form of
-- a NUMERIC, in groups of four decimal digits.
pub mod Groups
use postgres_cpp_lib.Base.{
  ℕ, zero, suc, ◌-◌, ◌/◌, ◌%◌, ◌^◌, List, [], ◌∷◌, ◌++◌, reverse, length, ◌==◌, if◌then◌else◌,
}
use postgres_cpp_lib.Wire.{Bytes, encode_fixed}

-- `while (v > 0)`, in the order of the `push_back` calls: the lowest group first. The value falls in
-- each round, so it is fuel enough itself.
unfoldable pub groups : ℕ → ℕ → List ℕ
groups zero v = []
groups (suc fuel) v =
    let more = groups fuel (v / 10000) in if v == 0 then [] else (v % 10000 % 2 ^ 16) ∷ more

-- `while (raw.size() > 1 && raw.back() == 0) raw.pop_back();` on the reversed vector, whose back is
-- the head of this list.
unfoldable pub strip : List ℕ → List ℕ
strip [] = []
strip (d ∷ []) = d ∷ []
strip (d ∷ e ∷ ds) = let rest = strip (e ∷ ds) in if d == 0 then rest else d ∷ e ∷ ds

unfoldable pub encode_digits : List ℕ → Bytes
encode_digits [] = []
encode_digits (d ∷ ds) = encode_fixed 2 d ++ encode_digits ds

-- The header and the digits, from the number of groups and the digits that are sent.
unfoldable pub encode_groups : ℕ → List ℕ → Bytes
encode_groups total_groups digits =
    encode_fixed 2 (length digits % 2 ^ 16)
    ++ (encode_fixed 2 ((total_groups - 1) % 2 ^ 16)
        ++ (encode_fixed 2 0 ++ (encode_fixed 2 0 ++ encode_digits digits)))

-- `return {8, '\0'};` makes a string of the two characters 8 and 0.
unfoldable pub encode_numeric_uint64 : ℕ → Bytes
unfolding groups strip encode_digits encode_groups
encode_numeric_uint64 zero = 8 ∷ 0 ∷ []
encode_numeric_uint64 (suc v) =
    let raw = groups (suc v) (suc v) in encode_groups (length raw) (reverse (strip raw))
