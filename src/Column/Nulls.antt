-- ===== src/Column/Nulls.antt =====
-- What the readings refuse, and how those of different widths agree.
use postgres_cpp_lib.Base.{
  ℕ, ◌^◌, ◌<◌, ◌≡◌, ◌≢◌, refl, subst, ◌↔◌, ◌⊎◌, inl, inr, Option-cases, arith, true, false, none,
  some, length, All,
}
use postgres_cpp_lib.Wire.{Bytes, IsByte, read_big_endian, signed, to_word}
use postgres_cpp_lib.Wire.Laws.{read_big_endian-lt}
use postgres_cpp_lib.Column.{
  Colum, as_bool, as_int16, as_int32, as_int64, as_float, as_double, as_string, as_timestamp,
  as_uint16, as_uint32, as_uint64, as_bytes,
}
use postgres_cpp_lib.Column.PgOid

-- No reading of any type finds a value in a column that is SQL NULL.
pub null_reads_none :
    (c : Colum) (per_us : ℕ) (widen : ℕ → ℕ)
    → c.is_null ≡ true
    → ((as_bool c ≡ none) × (as_int16 c ≡ none) × (as_int32 c ≡ none) × (as_int64 c ≡ none))
      × ((as_uint16 c ≡ none) × (as_uint32 c ≡ none) × (as_uint64 c ≡ none))
      × ((as_float c ≡ none) × (as_double widen c ≡ none))
      × ((as_string c ≡ none) × (as_bytes c ≡ none) × (as_timestamp per_us c ≡ none))
unfolding as_bool as_int16 as_int32 as_int64 as_uint16 as_uint32 as_uint64 as_float as_double
    as_string as_bytes as_timestamp
null_reads_none c per_us widen e = (
  (rw e refl, rw e refl, rw e refl, rw e refl),
  (rw e refl, rw e refl, rw e refl),
  (rw e refl, rw e refl),
  (rw e refl, rw e refl, rw e refl),
)

-- The integers that a reading as int64_t takes: each with its own number of bytes.
abbrev pub HoldsInteger : Colum → Type 0
HoldsInteger c =
    ((c.oid ≡ PgOid.int8) × (length c.content ≡ 8))
    ⊎ ((c.oid ≡ PgOid.int4) × (length c.content ≡ 4))
    ⊎ ((c.oid ≡ PgOid.int2) × (length c.content ≡ 2))

as_int64-HoldsInteger :
    (c : Colum) (v : ℕ) → as_int64 c ≡ some v → (c.is_null ≡ false) × HoldsInteger c
unfolding as_int64
as_int64-HoldsInteger c v e = ground arith

HoldsInteger-as_int64 : (c : Colum) → c.is_null ≡ false → HoldsInteger c → as_int64 c ≢ none
unfolding as_int64
HoldsInteger-as_int64 c n h e = ground arith

-- A reading as int64_t finds an integer exactly in a column that is not NULL and holds an INT8,
-- INT4 or INT2 of its own size.
pub as_int64_iff :
    (c : Colum) → ((v : ℕ) × (as_int64 c ≡ some v)) ↔ ((c.is_null ≡ false) × HoldsInteger c)
as_int64_iff c = (
  λ (v, e). as_int64-HoldsInteger c v e,
  λ (n, h). elim (Option-cases (as_int64 c)) [
    | inl e ↦ absurd (HoldsInteger-as_int64 c n h e)
    | inr r ↦ r
  ],
)

read_at : (n : ℕ) (src : Bytes) → All IsByte src → length src ≡ n → read_big_endian n src < 256 ^ n
read_at n src h e = subst (λ (k : ℕ). read_big_endian k src < 256 ^ k) e (read_big_endian-lt src h)

-- An integer that the reading as int16_t finds is found by the reading as int32_t too.
pub as_int16-as_int32 :
    (c : Colum) (v : ℕ)
    → All IsByte c.content
    → as_int16 c ≡ some v
    → (as_int32 c ≡ some (to_word 32 (signed 16 v)))
      × (signed 32 (to_word 32 (signed 16 v)) ≡ signed 16 v)
unfolding as_int16 as_int32
as_int16-as_int32 c v h e = ground (arith, read_at 2 c.content h)

-- An integer that the reading as int32_t finds is found by the reading as int64_t too.
pub as_int32-as_int64 :
    (c : Colum) (v : ℕ)
    → All IsByte c.content
    → as_int32 c ≡ some v
    → (as_int64 c ≡ some (to_word 64 (signed 32 v)))
      × (signed 64 (to_word 64 (signed 32 v)) ≡ signed 32 v)
unfolding as_int32 as_int64
as_int32-as_int64 c v h e = ground (arith, read_at 2 c.content h, read_at 4 c.content h)
