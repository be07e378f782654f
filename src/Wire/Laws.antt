-- ===== src/Wire/Laws.antt =====
-- Storing and loading, and the orders of bytes on the wire and in memory.
use mathlib.Core.List.{reverse-cons, reverse-reverse}
use native.Mathlib.Nat.{pow-succ'}
use postgres_cpp_lib.Base.{
  ℕ, zero, suc, ◌+◌, ◌*◌, ◌/◌, ◌^◌, ◌<◌, ◌≡◌, refl, sym, subst, ap, drop, ◌∙◌, arith, [], ◌∷◌, ◌++◌,
  reverse, take, length, length-append, All, All-append,
}
use postgres_cpp_lib.Wire.{Bytes, IsByte, store, load, encode_fixed, read_big_endian}

pub length-store : (n v : ℕ) → length (store n v) ≡ n
unfolding store
length-store zero v = refl
length-store (suc n) v = ap suc (length-store n (v / 256))

store-IsByte : (n v : ℕ) → All IsByte (store n v)
unfolding store
store-IsByte zero v = tt
store-IsByte (suc n) v = (omega arith, store-IsByte n (v / 256))

pow_split : (n : ℕ) → 256 ^ suc n ≡ 256 * 256 ^ n
pow_split n = pow-succ' 256 n

pub load-store : (n v : ℕ) → v < 256 ^ n → load (store n v) ≡ v
unfolding store load
load-store zero v h = omega arith
load-store (suc n) v h =
    omega (arith, pow_split n, load-store n (v / 256) (omega (arith, pow_split n)))

pub store-load : (bs : Bytes) → All IsByte bs → store (length bs) (load bs) ≡ bs
unfolding store load
store-load [] h = refl
store-load (b ∷ bs) (h, hs) = ground (arith, store-load bs hs, tail)
  where
    tail : (b + 256 * load bs) / 256 ≡ load bs
    tail = omega arith

pub length-reverse : (xs : Bytes) → length (reverse xs) ≡ length xs
length-reverse [] = refl
length-reverse (x ∷ xs) =
    omega
      (arith, ap length (reverse-cons x xs), length-append (reverse xs) (x ∷ []), length-reverse xs)

pub reverse-All : (P : ℕ → Type 0) (xs : Bytes) → All P xs → All P (reverse xs)
reverse-All P [] h = tt
reverse-All P (x ∷ xs) (h, hs) =
    rw (reverse-cons x xs) (All-append P (reverse xs) (x ∷ []) (reverse-All P xs hs) (h, tt))

-- `EncodeFixed` writes the bytes of the value, the highest first.
pub encode_fixed-reverse : (n v : ℕ) → encode_fixed n v ≡ reverse (store n v)
unfolding encode_fixed
encode_fixed-reverse n v =
    subst (λ (k : ℕ). store k (load (reverse (store n v))) ≡ reverse (store n v))
      (length-reverse (store n v) ∙ length-store n v)
      (store-load (reverse (store n v)) (reverse-All IsByte (store n v) (store-IsByte n v)))

pub length-encode_fixed : (n v : ℕ) → length (encode_fixed n v) ≡ n
length-encode_fixed n v =
    rw (encode_fixed-reverse n v) (length-reverse (store n v) ∙ length-store n v)

pub encode_fixed-IsByte : (n v : ℕ) → All IsByte (encode_fixed n v)
encode_fixed-IsByte n v =
    rw (encode_fixed-reverse n v) (reverse-All IsByte (store n v) (store-IsByte n v))

take-append : (xs rest : Bytes) → take (length xs) (xs ++ rest) ≡ xs
take-append [] rest = refl
take-append (x ∷ xs) rest = ap (λ r. x ∷ r) (take-append xs rest)

drop-append : (xs rest : Bytes) → drop (length xs) (xs ++ rest) ≡ rest
drop-append [] rest = refl
drop-append (x ∷ xs) rest = drop-append xs rest

pub drop-encode_fixed : (n v : ℕ) (rest : Bytes) → drop n (encode_fixed n v ++ rest) ≡ rest
drop-encode_fixed n v rest =
    subst (λ (k : ℕ). drop k (encode_fixed n v ++ rest) ≡ rest) (length-encode_fixed n v)
      (drop-append (encode_fixed n v) rest)

pub take-encode_fixed :
    (n v : ℕ) (rest : Bytes) → take n (encode_fixed n v ++ rest) ≡ encode_fixed n v
take-encode_fixed n v rest =
    subst (λ (k : ℕ). take k (encode_fixed n v ++ rest) ≡ encode_fixed n v)
      (length-encode_fixed n v) (take-append (encode_fixed n v) rest)

-- `ReadBigEndian` reads back what `EncodeFixed` wrote, whatever follows it.
pub read_big_endian-encode_fixed :
    (n v : ℕ) (rest : Bytes) → v < 256 ^ n → read_big_endian n (encode_fixed n v ++ rest) ≡ v
unfolding read_big_endian
read_big_endian-encode_fixed n v rest h =
    rw (take-encode_fixed n v rest, encode_fixed-reverse n v, reverse-reverse (store n v))
      (load-store n v h)

pub take-length : (xs : Bytes) → take (length xs) xs ≡ xs
take-length [] = refl
take-length (x ∷ xs) = ap (λ r. x ∷ r) (take-length xs)

-- And `EncodeFixed` writes again what `ReadBigEndian` read.
pub encode_fixed-read_big_endian :
    (src : Bytes)
    → All IsByte src
    → encode_fixed (length src) (read_big_endian (length src) src) ≡ src
unfolding read_big_endian
encode_fixed-read_big_endian src h =
    rw (encode_fixed-reverse, take-length src)
      (ap reverse (
          subst (λ (k : ℕ). store k (load (reverse src)) ≡ reverse src) (length-reverse src)
            (store-load (reverse src) (reverse-All IsByte src h)))
        ∙ reverse-reverse src)

pub load-lt : (bs : Bytes) → All IsByte bs → load bs < 256 ^ length bs
unfolding load
load-lt [] h = omega arith
load-lt (b ∷ bs) (h, hs) = omega (arith, pow_split (length bs), load-lt bs hs)

pub read_big_endian-lt :
    (src : Bytes) → All IsByte src → read_big_endian (length src) src < 256 ^ length src
unfolding read_big_endian
read_big_endian-lt src h =
    let all = take-length src in
    subst (λ (k : ℕ). load (reverse (take (length src) src)) < 256 ^ k)
      (length-reverse (take (length src) src) ∙ ap length all)
      (load-lt _ (reverse-All IsByte _ (subst (All IsByte) (sym all) h)))
