-- ===== src/Param/Types.antt =====
-- The types of arguments, `IsSupported` and the alternatives of `supported_type`:
-- include/database/internal/type_detail.h.
use postgres_cpp_lib.Base.{
  ℕ, ◌*◌, ◌≡◌, refl, ap, sym, ◌∙◌, Bool, true, false, not, ◌&&◌, ◌||◌, Option, none, some, ◌⊎◌, inl,
  inr, leb, ◌==◌, if◌then◌else◌,
}
use postgres_cpp_lib.Wire.{Bytes}
use postgres_cpp_lib.Base.Int.{ℤ}
use postgres_cpp_lib.Param.{
  SupportedType, null, boolean, int16, int32, int64, uint16, uint32, uint64, double, float,
  const_c_string, c_string, string, bytes, timestamp, Integral, normalize_integral, Argument,
  null_argument, boolean_argument, integral_argument, double_argument, float_argument,
  string_argument, c_string_argument, bytes_argument, span_argument, timestamp_argument,
  create_single_data,
}
use postgres_cpp_lib.Param.Integers.{IsIntegral}

-- A decayed type. An integral type other than bool has a sign and a size; `other` stands for the
-- types that are none of these.
pub data ParamType : Type 0 where
  nullptr_type bool_type float_type double_type : ParamType
  integral_type : Bool → ℕ → ParamType
  string_type char_pointer const_char_pointer : ParamType
  byte_vector byte_span time_point other : ParamType

-- `std::is_integral_v`, which holds of bool too.
abbrev pub is_integral : ParamType → Bool
is_integral bool_type = true
is_integral (integral_type s n) = true
is_integral nullptr_type = false
is_integral float_type = false
is_integral double_type = false
is_integral string_type = false
is_integral char_pointer = false
is_integral const_char_pointer = false
is_integral byte_vector = false
is_integral byte_span = false
is_integral time_point = false
is_integral other = false

-- `std::is_same_v`
unfoldable pub is_same : ParamType → ParamType → Bool
is_same nullptr_type nullptr_type = true
is_same bool_type bool_type = true
is_same float_type float_type = true
is_same double_type double_type = true
is_same (integral_type s n) (integral_type t m) = (if s then t else not t) && n == m
is_same string_type string_type = true
is_same char_pointer char_pointer = true
is_same const_char_pointer const_char_pointer = true
is_same byte_vector byte_vector = true
is_same byte_span byte_span = true
is_same time_point time_point = true
is_same other other = true
is_same _ _ = false

unfoldable pub is_supported : ParamType → Bool
unfolding is_same
is_supported d =
    is_same d nullptr_type
    || is_same d byte_vector
    || is_same d byte_span
    || (is_integral d && not (is_same d bool_type))
    || is_same d bool_type
    || is_same d float_type
    || is_same d double_type
    || is_same d string_type
    || is_same d char_pointer
    || is_same d const_char_pointer
    || is_same d time_point

-- An argument and its type. Integral types have 1, 2, 4 or 8 bytes.
pub data HasType : Argument → ParamType → Type 0 where
  null_typed : HasType null_argument nullptr_type
  bool_typed : (b : Bool) → HasType (boolean_argument b) bool_type
  double_typed : (x : ℕ) → HasType (double_argument x) double_type
  float_typed : (x : ℕ) → HasType (float_argument x) float_type
  string_typed : (s : Bytes) → HasType (string_argument s) string_type
  char_typed : (s : Bytes) → HasType (c_string_argument s) char_pointer
  const_char_typed : (s : Bytes) → HasType (c_string_argument s) const_char_pointer
  bytes_typed : (b : Bytes) → HasType (bytes_argument b) byte_vector
  span_typed : (b : Bytes) → HasType (span_argument b) byte_span
  time_typed : (t : ℤ) → HasType (timestamp_argument t) time_point
  integral_typed :
      (d : Integral)
      → IsIntegral d
      → HasType (integral_argument d) (integral_type d.is_signed d.size)

-- `std::variant::index`
abbrev pub index : SupportedType → ℕ
index null = 0
index (boolean b) = 1
index (int16 x) = 2
index (int32 x) = 3
index (int64 x) = 4
index (uint16 x) = 5
index (uint32 x) = 6
index (uint64 x) = 7
index (double x) = 8
index (float x) = 9
index (const_c_string s) = 10
index (c_string s) = 11
index (string s) = 12
index (bytes b) = 13
index (timestamp t) = 14

-- The smallest signed integer of PostgreSQL that holds all values, or uint64_t where there is none.
abbrev pub integral_alternative : Bool → ℕ → ℕ
integral_alternative is_signed n =
    let needed = if is_signed then n else 2 * n in
    if leb needed 2 then 2 else if leb needed 4 then 3 else if leb needed 8 then 4 else 7

-- The alternative meant for a type, or none where it is not supported.
abbrev pub alternative : ParamType → Option ℕ
alternative nullptr_type = some 0
alternative bool_type = some 1
alternative (integral_type s n) = some (integral_alternative s n)
alternative double_type = some 8
alternative float_type = some 9
alternative string_type = some 12
alternative char_pointer = some 12
alternative const_char_pointer = some 12
alternative byte_vector = some 13
alternative byte_span = some 13
alternative time_point = some 14
alternative other = none

normalized :
    (s : Bool) (n b : ℕ)
    → (n ≡ 1) ⊎ (n ≡ 2) ⊎ (n ≡ 4) ⊎ (n ≡ 8)
    → index (normalize_integral (record { is_signed = s; size = n; bits = b }))
      ≡ integral_alternative s n
unfolding normalize_integral
normalized true n b (inl e) = rw e refl
normalized true n b (inr (inl e)) = rw e refl
normalized true n b (inr (inr (inl e))) = rw e refl
normalized true n b (inr (inr (inr e))) = rw e refl
normalized false n b (inl e) = rw e refl
normalized false n b (inr (inl e)) = rw e refl
normalized false n b (inr (inr (inl e))) = rw e refl
normalized false n b (inr (inr (inr e))) = rw e refl

unfoldable pub is_some {ℓ} : {A : Type ℓ} → Option A → Bool
is_some none = false
is_some (some x) = true

-- What `IsSupported` admits is what an alternative is meant for.
supported : (d : ParamType) → is_supported d ≡ is_some (alternative d)
unfolding is_supported is_same is_some
supported nullptr_type = refl
supported bool_type = refl
supported float_type = refl
supported double_type = refl
supported (integral_type s n) = refl
supported string_type = refl
supported char_pointer = refl
supported const_char_pointer = refl
supported byte_vector = refl
supported byte_span = refl
supported time_point = refl
supported other = refl

-- For an argument of a type of the list, IsSupported holds of the type, and CreateSingleData makes
-- the alternative that is meant for it: an integer becomes the smallest signed integer of PostgreSQL
-- that holds all values of its type, or a uint64_t, C strings become strings and spans vectors.
pub create_single_data-HasType :
    {a : Argument} {d : ParamType}
    → HasType a d
    → (is_supported d ≡ true) × (alternative d ≡ some (index (create_single_data a)))
unfolding create_single_data is_some
create_single_data-HasType {a} {d} h = (supported d ∙ ap is_some (made h), made h)
  where
    made :
        {a : Argument} {d : ParamType}
        → HasType a d
        → alternative d ≡ some (index (create_single_data a))
    made null_typed = refl
    made (bool_typed b) = refl
    made (double_typed x) = refl
    made (float_typed x) = refl
    made (string_typed s) = refl
    made (char_typed s) = refl
    made (const_char_typed s) = refl
    made (bytes_typed b) = refl
    made (span_typed b) = refl
    made (time_typed t) = refl
    made (integral_typed d v) = ap some (sym (normalized d.is_signed d.size d.bits v.known_size))
