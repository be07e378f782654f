-- ===== src/Column/Decode.antt =====
-- What `as<uint64_t>` makes of a NUMERIC.
use native.Mathlib.Nat.{pow-succ'}
use postgres_cpp_lib.Base.{
  ℕ, zero, suc, ◌+◌, ◌-◌, ◌*◌, ◌%◌, ◌^◌, ◌≤◌, ◌<◌, ◌≡◌, refl, sym, ap, ap₂, ◌∙◌, arith, List, [],
  ◌∷◌, ◌++◌, length, length-append, drop, All, some, false,
}
use postgres_cpp_lib.Base.Int.{◌+ℤ◌, ◌-ℤ◌, ◌*ℤ◌}
use postgres_cpp_lib.Wire.{Bytes, encode_fixed, read_big_endian, signed}
use postgres_cpp_lib.Wire.Laws.{
  read_big_endian-encode_fixed, drop-encode_fixed, length-encode_fixed,
}
use postgres_cpp_lib.Numeric.{encode_digits}
use postgres_cpp_lib.Numeric.Groups.{IsGroup, of_digits}
use postgres_cpp_lib.Column.{Colum, read_digits, scale, numeric_value, as_uint64}
use postgres_cpp_lib.Column.PgOid

read_digits-cons :
    (n d : ℕ) (rest : Bytes) (r : ℕ)
    → d < 2 ^ 16
    → read_digits (suc n) (encode_fixed 2 d ++ rest) r
      ≡ read_digits n rest ((r * 10000 + d) % 2 ^ 64)
unfolding read_digits
read_digits-cons n d rest r h =
    ap₂ (λ (p : Bytes) (x : ℕ). read_digits n p ((r * 10000 + x) % 2 ^ 64))
      (drop-encode_fixed 2 d rest) (read_big_endian-encode_fixed 2 d rest h)

read_digits-encode_digits :
    (ds : List ℕ) (r : ℕ)
    → All IsGroup ds
    → read_digits (length ds) (encode_digits ds) (r % 2 ^ 64) ≡ of_digits ds r % 2 ^ 64
unfolding encode_digits of_digits
read_digits-encode_digits [] r h = unfold read_digits in refl
read_digits-encode_digits (d ∷ ds) r (g, h) =
    read_digits-cons (length ds) d (encode_digits ds) (r % 2 ^ 64) (omega arith)
    ∙ ap (read_digits (length ds) (encode_digits ds)) next
    ∙ read_digits-encode_digits ds (r * 10000 + d) h
  where
    next : (r % 2 ^ 64 * 10000 + d) % 2 ^ 64 ≡ (r * 10000 + d) % 2 ^ 64
    next = omega arith

scale-mod : (t r : ℕ) → scale t (r % 2 ^ 64) ≡ (10000 ^ t * r) % 2 ^ 64
unfolding scale
scale-mod zero r = omega arith
scale-mod (suc t) r =
    ap (scale t) next
    ∙ scale-mod t (r * 10000)
    ∙ ap (λ (x : ℕ). x % 2 ^ 64) (omega (arith, ap (λ (x : ℕ). x * r) (pow-succ' 10000 t)))
  where
    next : r % 2 ^ 64 * 10000 % 2 ^ 64 ≡ r * 10000 % 2 ^ 64
    next = omega arith

-- The binary form of a NUMERIC: its header and its digits, the highest group first.
unfoldable pub numeric_bytes : ℕ → ℕ → ℕ → ℕ → List ℕ → Bytes
numeric_bytes ndigits weight sign dscale digits =
    encode_fixed 2 ndigits
    ++ (encode_fixed 2 weight
        ++ (encode_fixed 2 sign ++ (encode_fixed 2 dscale ++ encode_digits digits)))

drop-nil : (n : ℕ) → drop {A = ℕ} n [] ≡ []
drop-nil zero = refl
drop-nil (suc n) = refl

-- `drop (2 + k)` is written out for the fields of the header.
drop_two_more : (k : ℕ) (xs : Bytes) → drop (suc (suc k)) xs ≡ drop k (drop 2 xs)
drop_two_more k [] = sym (drop-nil k)
drop_two_more k (x ∷ []) = sym (drop-nil k)
drop_two_more k (x ∷ y ∷ xs) = refl

drop-field : (k v : ℕ) (rest : Bytes) → drop (suc (suc k)) (encode_fixed 2 v ++ rest) ≡ drop k rest
drop-field k v rest =
    drop_two_more k (encode_fixed 2 v ++ rest) ∙ ap (drop k) (drop-encode_fixed 2 v rest)

length-encode_digits : (ds : List ℕ) → length (encode_digits ds) ≡ 2 * length ds
unfolding encode_digits
length-encode_digits [] = refl
length-encode_digits (d ∷ ds) = omega (
  arith,
  length-append (encode_fixed 2 d) (encode_digits ds),
  length-encode_fixed 2 d,
  length-encode_digits ds,
)

module _ (ndigits weight sign dscale : ℕ) (digits : List ℕ) where
  abbrev from_dscale : Bytes
  from_dscale = encode_fixed 2 dscale ++ encode_digits digits

  abbrev from_sign : Bytes
  from_sign = encode_fixed 2 sign ++ from_dscale

  abbrev from_weight : Bytes
  from_weight = encode_fixed 2 weight ++ from_sign

  read_ndigits :
      ndigits < 2 ^ 16
      → read_big_endian 2 (numeric_bytes ndigits weight sign dscale digits) ≡ ndigits
  unfolding numeric_bytes
  read_ndigits = read_big_endian-encode_fixed 2 ndigits from_weight

  drop_two : drop 2 (numeric_bytes ndigits weight sign dscale digits) ≡ from_weight
  unfolding numeric_bytes
  drop_two = drop-encode_fixed 2 ndigits from_weight

  drop_four : drop 4 (numeric_bytes ndigits weight sign dscale digits) ≡ from_sign
  unfolding numeric_bytes
  drop_four = drop-field 2 ndigits from_weight ∙ drop-field 0 weight from_sign

  drop_eight : drop 8 (numeric_bytes ndigits weight sign dscale digits) ≡ encode_digits digits
  unfolding numeric_bytes
  drop_eight =
      drop-field 6 ndigits from_weight
      ∙ drop-field 4 weight from_sign
      ∙ drop-field 2 sign from_dscale
      ∙ drop-field 0 dscale (encode_digits digits)

  length-numeric_bytes :
      length (numeric_bytes ndigits weight sign dscale digits) ≡ 8 + 2 * length digits
  unfolding numeric_bytes
  length-numeric_bytes = omega (
    arith,
    length-append (encode_fixed 2 ndigits) (
        encode_fixed 2 weight
        ++ (encode_fixed 2 sign ++ (encode_fixed 2 dscale ++ encode_digits digits))),
    length-append (encode_fixed 2 weight)
        (encode_fixed 2 sign ++ (encode_fixed 2 dscale ++ encode_digits digits)),
    length-append (encode_fixed 2 sign) (encode_fixed 2 dscale ++ encode_digits digits),
    length-append (encode_fixed 2 dscale) (encode_digits digits),
    length-encode_fixed 2 ndigits,
    length-encode_fixed 2 weight,
    length-encode_fixed 2 sign,
    length-encode_fixed 2 dscale,
    length-encode_digits digits,
  )

numeric_value_lem :
    (n w : ℕ) (p : Bytes)
    → 1 ≤ n
    → n < 2 ^ 12
    → w < 2 ^ 15
    → length p ≡ 8 + 2 * n
    → numeric_value (signed 16 n) (signed 16 w) 0 p
      ≡ some (scale (w + 1 - n) (read_digits n (drop 8 p) 0))
unfolding numeric_value ◌+ℤ◌ ◌-ℤ◌ ◌*ℤ◌
numeric_value_lem n w p one small hw e = ground arith

abbrev pub numeric_colum : Bytes → Colum
numeric_colum p = record { is_null = false; oid = PgOid.numeric; content = p }

as_uint64_header :
    (p : Bytes) (n w s : ℕ)
    → read_big_endian 2 p ≡ n
    → read_big_endian 2 (drop 2 p) ≡ w
    → read_big_endian 2 (drop 4 p) ≡ s
    → 8 ≤ length p
    → as_uint64 (numeric_colum p) ≡ numeric_value (signed 16 n) (signed 16 w) s p
unfolding as_uint64
as_uint64_header p n w s hn hw hs l = rw (hn, hw, hs) (ground arith)

-- A NUMERIC that is not negative, with a weight from 0 to 2 ^ 15 - 1 and with at least one and fewer
-- than 2 ^ 12 groups, each below 10000: a reading as uint64_t gives the groups read as one number,
-- times 10000 for every group that the weight says is left out at the end, modulo 2 ^ 64.
pub as_uint64-numeric_bytes :
    (weight dscale : ℕ) (digits : List ℕ)
    → All IsGroup digits
    → 1 ≤ length digits
    → length digits < 2 ^ 12
    → weight < 2 ^ 15
    → as_uint64 (numeric_colum (numeric_bytes (length digits) weight 0 dscale digits))
      ≡ some (10000 ^ (weight + 1 - length digits) * of_digits digits 0 % 2 ^ 64)
as_uint64-numeric_bytes weight dscale digits h one few hw =
    as_uint64_header (numeric_bytes n weight 0 dscale digits) n weight 0
      (read_ndigits n weight 0 dscale digits (omega arith))
      (ap (read_big_endian 2) (drop_two n weight 0 dscale digits)
        ∙ read_big_endian-encode_fixed 2 weight _ (omega arith))
      (ap (read_big_endian 2) (drop_four n weight 0 dscale digits)
        ∙ read_big_endian-encode_fixed 2 0 _ (omega arith))
      (omega (arith, length-numeric_bytes n weight 0 dscale digits))
    ∙ numeric_value_lem n weight _ one few hw (length-numeric_bytes n weight 0 dscale digits)
    ∙ ap (λ (p : Bytes). some (scale (weight + 1 - n) (read_digits n p 0)))
        (drop_eight n weight 0 dscale digits)
    ∙ ap (λ (r : ℕ). some (scale (weight + 1 - n) r)) (read_digits-encode_digits digits 0 h)
    ∙ ap (λ (r : ℕ). some r) (scale-mod (weight + 1 - n) (of_digits digits 0))
  where
    n : ℕ
    n = length digits
