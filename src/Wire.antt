-- ===== src/Wire.antt =====
-- Fixed-size values as bytes: `ToNetworkOrder` and `EncodeFixed` of
-- include/database/internal/type_detail.h, `ReadBigEndian` of include/database/result/colunm.h.
-- A value of a type of `n` bytes is its bit pattern, a number below 256 ^ n; a signed type is read
-- through `signed`. The host is little-endian, so memory holds the lowest byte first.
pub mod Laws
use postgres_cpp_lib.Base.{
  ℕ, zero, suc, ◌+◌, ◌-◌, ◌*◌, ◌/◌, ◌%◌, ◌^◌, ◌<◌, List, [], ◌∷◌, reverse, take, ltb, if◌then◌else◌,
}
use postgres_cpp_lib.Base.Int.{ℤ, pos, negsuc}

abbrev pub Bytes : Type 0
Bytes = List ℕ

abbrev pub IsByte : ℕ → Type 0
IsByte b = b < 256

-- The memory of a value of `n` bytes, and the value that a memory holds.
unfoldable pub store : ℕ → ℕ → Bytes
store zero v = []
store (suc n) v = v % 256 ∷ store n (v / 256)

unfoldable pub load : Bytes → ℕ
load [] = 0
load (b ∷ bs) = b + 256 * load bs

-- `std::byteswap`, on a little-endian host.
unfoldable pub to_network_order : ℕ → ℕ → ℕ
unfolding store load
to_network_order n v = load (reverse (store n v))

unfoldable pub encode_fixed : ℕ → ℕ → Bytes
unfolding store to_network_order
encode_fixed n v = store n (to_network_order n v)

-- `d[i] = s[sizeof(T) - 1 - i]` for every byte of the value.
unfoldable pub read_big_endian : ℕ → Bytes → ℕ
unfolding load
read_big_endian n src = load (reverse (take n src))

-- The integer that a bit pattern of `w` bits stands for in a signed type.
abbrev pub signed : ℕ → ℕ → ℤ
signed w v = if ltb v (2 ^ (w - 1)) then pos v else negsuc (2 ^ w - v - 1)

-- The bit pattern of an integer converted to a type of `w` bits, which keeps it modulo 2 ^ w.
abbrev pub to_word : ℕ → ℤ → ℕ
to_word w (pos n) = n % 2 ^ w
to_word w (negsuc n) = 2 ^ w - 1 - n % 2 ^ w
