-- ===== src/Column/RoundTrip.antt =====
-- A value that is sent and comes back in a column of the type that it was meant for.

use postgres_cpp_lib.Base.{
  ◌==◌, if◌then◌else◌, ℕ, zero, suc, ◌+◌, ◌-◌, ◌*◌, ◌%◌, ◌^◌, ◌≤◌, ◌<◌, ◌≡◌, ◌≢◌, refl, sym, ap,
  ap₂, ◌∙◌, arith, List, [], ◌∷◌, ◌++◌, length, All, some, none, false, reverse,
}
use postgres_cpp_lib.Wire.{Bytes, encode_fixed}
use postgres_cpp_lib.Wire.Laws.{length-reverse, reverse-All}
use postgres_cpp_lib.Numeric.{groups, strip, encode_digits, encode_groups, encode_numeric_uint64}
use postgres_cpp_lib.Numeric.Groups.{
  IsGroup, of_digits, of_groups, of_groups-groups, groups-IsGroup, length-groups-le,
  length-strip-le, length-strip_pos, of_groups-strip, strip-IsGroup, of_digits-reverse,
}
use postgres_cpp_lib.Param.{to_binary, create_single_data, uint64}
use postgres_cpp_lib.Column.Typed.{stored, integer}
use postgres_cpp_lib.Column.{as_uint64}
use postgres_cpp_lib.Column.PgOid
use postgres_cpp_lib.Column.Decode.{numeric_bytes, numeric_colum, as_uint64-numeric_bytes}

encode_groups-numeric_bytes :
    (g : ℕ) (ds : List ℕ)
    → 1 ≤ g
    → g < 2 ^ 12
    → length ds ≤ g
    → encode_groups g ds ≡ numeric_bytes (length ds) (g - 1) 0 0 ds
unfolding encode_groups numeric_bytes
encode_groups-numeric_bytes g ds one few l = ap₂ whole (omega arith) (omega arith)
  where
    whole : ℕ → ℕ → Bytes
    whole a b =
        encode_fixed 2 a
        ++ (encode_fixed 2 b ++ (encode_fixed 2 0 ++ (encode_fixed 2 0 ++ encode_digits ds)))

module _ (d : ℕ) (raw : List ℕ) (h : All IsGroup (d ∷ raw)) (few : length raw < 5)
    (small : of_groups (d ∷ raw) < 2 ^ 64) where
  abbrev sent : List ℕ
  sent = reverse (strip (d ∷ raw))

  length-sent : (1 ≤ length sent) × (length sent ≤ suc (length raw))
  length-sent =
      omega
        (arith, length-reverse (strip (d ∷ raw)), length-strip_pos d raw, length-strip-le (d ∷ raw))

  sent_value : 10000 ^ (length raw + 1 - length sent) * of_digits sent 0 ≡ of_groups (d ∷ raw)
  sent_value =
      ap (λ (x : ℕ). 10000 ^ (length raw + 1 - length sent) * x)
        (of_digits-reverse (strip (d ∷ raw)))
      ∙ sym (
          of_groups-strip (d ∷ raw) (length raw + 1 - length sent)
            (omega (arith, length-sent, length-reverse (strip (d ∷ raw)))))

  -- What a value's groups decode to, the low zeros left out.
  as_uint64-groups :
      as_uint64 (numeric_colum (encode_groups (suc (length raw)) sent)) ≡ some (of_groups (d ∷ raw))
  as_uint64-groups =
      ap (λ p. as_uint64 (numeric_colum p))
        (encode_groups-numeric_bytes (suc (length raw)) sent (omega arith) (omega arith)
          length-sent.1)
      ∙ as_uint64-numeric_bytes (suc (length raw) - 1) 0 sent
          (reverse-All IsGroup _ (strip-IsGroup (d ∷ raw) h)) length-sent.0
          (omega (arith, length-sent)) (omega arith)
      ∙ ap (λ (x : ℕ). some x) value
    where
      value :
          10000 ^ (suc (length raw) - 1 + 1 - length sent) * of_digits sent 0 % 2 ^ 64
          ≡ of_groups (d ∷ raw)
      value =
          ap (λ (x : ℕ). 10000 ^ (x - length sent) * of_digits sent 0 % 2 ^ 64) (omega arith)
          ∙ ap (λ (x : ℕ). x % 2 ^ 64) sent_value
          ∙ omega arith

groups-as_uint64 :
    (raw : List ℕ)
    → All IsGroup raw
    → length raw ≤ 5
    → 0 < of_groups raw
    → of_groups raw < 2 ^ 64
    → as_uint64 (numeric_colum (encode_groups (length raw) (reverse (strip raw))))
      ≡ some (of_groups raw)
groups-as_uint64 [] h few nonzero small = unfold of_groups in absurd (omega arith)
groups-as_uint64 (d ∷ raw) h few nonzero small = as_uint64-groups d raw h (omega arith) small

-- A uint64_t that is not 0 is read back by `as<uint64_t>` from the NUMERIC that `ToBinary` wrote.
pub as_uint64-to_binary :
    (per_us v : ℕ)
    → 0 < v
    → v < 2 ^ 64
    → as_uint64 (numeric_colum (to_binary per_us (uint64 v))) ≡ some v
unfolding to_binary encode_numeric_uint64
as_uint64-to_binary per_us zero nonzero small = absurd (omega arith)
as_uint64-to_binary per_us (suc v) nonzero small =
    groups-as_uint64 (groups (suc v) (suc v)) (groups-IsGroup (suc v) (suc v))
      (length-groups-le 5 (suc v) (suc v) (omega arith)) (omega (arith, value))
      (omega (arith, value))
    ∙ ap (λ (x : ℕ). some x) value
  where
    value : of_groups (groups (suc v) (suc v)) ≡ suc v
    value = of_groups-groups (suc v) (suc v) (omega arith)

zero_misread : (per_us : ℕ) → as_uint64 (numeric_colum (to_binary per_us (uint64 0))) ≡ none
unfolding to_binary encode_numeric_uint64 as_uint64
zero_misread per_us = refl

nonzero-round_trip :
    (per_us v : ℕ)
    → v < 2 ^ 64
    → v ≢ 0
    → as_uint64 (stored per_us PgOid.numeric (integer false 8 v)) ≡ some v
unfolding create_single_data
nonzero-round_trip per_us v h n =
    let small : v % 2 ^ 64 ≡ v = omega arith in
    rw small (as_uint64-to_binary per_us v (omega arith) h)

suc-test : (n : ℕ) → (suc n == 0) ≡ false
suc-test n = ground arith

-- A uint64_t comes back from a NUMERIC column as it was passed, exactly when it is not 0: what is
-- sent for 0 is no NUMERIC, and is not read back.
pub uint64_round_trip :
    (per_us v : ℕ)
    → v < 2 ^ 64
    → as_uint64 (stored per_us PgOid.numeric (integer false 8 v))
      ≡ (if v == 0 then none else some v)
unfolding create_single_data
uint64_round_trip per_us zero h = zero_misread per_us
uint64_round_trip per_us (suc n) h =
    nonzero-round_trip per_us (suc n) h (omega arith)
    ∙ sym (ap (λ b. if b then none else some (suc n)) (suc-test n))
