-- ===== src/Param/Integers.antt =====
-- What `NormalizeIntegral` keeps of an integer.
use postgres_cpp_lib.Base.{
  ℕ, ◌*◌, ◌^◌, ◌<◌, ◌≡◌, sym, subst, ◌⊎◌, inl, inr, arith, Bool, true, false, Option, none, some,
}
use postgres_cpp_lib.Base.Int.{ℤ, pos}
use postgres_cpp_lib.Wire.{signed}
use postgres_cpp_lib.Param.{
  SupportedType, int16, int32, int64, uint16, uint32, uint64, Integral, integral_value,
  normalize_integral,
}

-- A type of 1, 2, 4 or 8 bytes, and a pattern of its size.
pub record IsIntegral (d : Integral) : Type 0 where
  pub known_size : (d.size ≡ 1) ⊎ (d.size ≡ 2) ⊎ (d.size ≡ 4) ⊎ (d.size ≡ 8)
  pub in_size : d.bits < 2 ^ (8 * d.size)

-- The integer that a value of the variant stands for.
abbrev pub supported_value : SupportedType → Option ℤ
supported_value (int16 x) = some (signed 16 x)
supported_value (int32 x) = some (signed 32 x)
supported_value (int64 x) = some (signed 64 x)
supported_value (uint16 x) = some (pos x)
supported_value (uint32 x) = some (pos x)
supported_value (uint64 x) = some (pos x)
supported_value _ = none

abbrev Keeps : Bool → ℕ → Type 0
Keeps s n =
    (b : ℕ)
    → b < 2 ^ (8 * n)
    → supported_value (normalize_integral (record { is_signed = s; size = n; bits = b }))
      ≡ some (integral_value (record { is_signed = s; size = n; bits = b }))

normalize-one : (s : Bool) → Keeps s 1
unfolding normalize_integral
normalize-one true b h = ground arith
normalize-one false b h = ground arith

normalize-two : (s : Bool) → Keeps s 2
unfolding normalize_integral
normalize-two true b h = ground arith
normalize-two false b h = ground arith

normalize-four : (s : Bool) → Keeps s 4
unfolding normalize_integral
normalize-four true b h = ground arith
normalize-four false b h = ground arith

normalize-eight : (s : Bool) → Keeps s 8
unfolding normalize_integral
normalize-eight true b h = ground arith
normalize-eight false b h = ground arith

normalize-at : (s : Bool) (n : ℕ) → (n ≡ 1) ⊎ (n ≡ 2) ⊎ (n ≡ 4) ⊎ (n ≡ 8) → Keeps s n
normalize-at s n (inl e) = subst (Keeps s) (sym e) (normalize-one s)
normalize-at s n (inr (inl e)) = subst (Keeps s) (sym e) (normalize-two s)
normalize-at s n (inr (inr (inl e))) = subst (Keeps s) (sym e) (normalize-four s)
normalize-at s n (inr (inr (inr e))) = subst (Keeps s) (sym e) (normalize-eight s)

-- Every integer of 1, 2, 4 or 8 bytes, signed or not, becomes an alternative of the variant that
-- stands for the same integer.
pub normalize_integral-value :
    (d : Integral) → IsIntegral d → supported_value (normalize_integral d) ≡ some (integral_value d)
normalize_integral-value d v = normalize-at d.is_signed d.size v.known_size d.bits v.in_size
