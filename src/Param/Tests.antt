-- ===== src/Param/Tests.antt =====
-- The arguments of a query at concrete values.
use postgres_cpp_lib.Base.{
  ◌-◌, ◌^◌, ◌≤◌, length, All, ◌≡◌, refl, inl, inr, arith, false, true, some, List, [], ◌∷◌,
}
use postgres_cpp_lib.Param.{
  SupportedType, null, int16, uint64, string, Integral, normalize_integral, count,
  create_single_data, integral_argument, make_pg_param_buffer, to_binary,
}
use postgres_cpp_lib.Param.Integers.{IsIntegral}
use postgres_cpp_lib.Wire.{IsByte}
use postgres_cpp_lib.Param.Types.{
  integral_type, is_supported, alternative, index, integral_typed, create_single_data-HasType,
}
use postgres_cpp_lib.Param.Bounds.{limit, to_binary_bounds}
use postgres_cpp_lib.Param.Sent.{null_value, in_binary, received, received-make_pg_param_buffer}

-- int8_t -1
abbrev minus_one : Integral
minus_one = record { is_signed = true; size = 1; bits = 255 }

minus_one_normalized : normalize_integral minus_one ≡ int16 65535
unfolding normalize_integral
minus_one_normalized = refl

abbrev three : List SupportedType
three = int16 258 ∷ null ∷ string [] ∷ []

received-make_pg_param_buffer_example :
    (received (make_pg_param_buffer 1000 [] three)
      ≡ in_binary (1 ∷ 2 ∷ []) ∷ null_value ∷ in_binary [] ∷ [])
    × (count (make_pg_param_buffer 1000 [] three) ≡ 3)
unfolding to_binary
received-make_pg_param_buffer_example =
    received-make_pg_param_buffer 1000 [] three (omega arith) (omega arith)

to_binary_bounds_example :
    All IsByte (to_binary 1000 (uint64 (2 ^ 64 - 1)))
    × (length (to_binary 1000 (uint64 (2 ^ 64 - 1))) ≤ limit (uint64 (2 ^ 64 - 1)))
to_binary_bounds_example = to_binary_bounds 1000 (uint64 (2 ^ 64 - 1)) (omega arith)

abbrev unsigned_one : Integral
unsigned_one = record { is_signed = false; size = 4; bits = 1 }

unsigned_one-IsIntegral : IsIntegral unsigned_one
unsigned_one-IsIntegral = record { known_size = inr (inr (inl refl)); in_size = omega arith }

-- A uint32_t becomes an int64_t.
create_single_data-HasType_example :
    (is_supported (integral_type false 4) ≡ true)
    × (alternative (integral_type false 4)
        ≡ some (index (create_single_data (integral_argument unsigned_one))))
create_single_data-HasType_example =
    create_single_data-HasType (integral_typed unsigned_one unsigned_one-IsIntegral)
