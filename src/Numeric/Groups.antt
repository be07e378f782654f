-- ===== src/Numeric/Groups.antt =====
-- The groups that `EncodeNumericUint64` makes, and the value.
use native.Mathlib.Nat.{pow-succ'}
use mathlib.Core.List.{reverse-cons}
use postgres_cpp_lib.Base.{
  ℕ, zero, suc, ◌+◌, ◌*◌, ◌/◌, ◌^◌, ◌≤◌, ◌<◌, ◌≡◌, refl, ap, arith, List, [], ◌∷◌, ◌++◌, reverse,
  length, All, ◌==◌, true, Bool-cases, inl, inr,
}
use postgres_cpp_lib.Numeric.{groups, strip}

abbrev pub IsGroup : ℕ → Type 0
IsGroup d = d < 10000

-- The number that groups stand for, the lowest first.
unfoldable pub of_groups : List ℕ → ℕ
of_groups [] = 0
of_groups (d ∷ ds) = d + 10000 * of_groups ds

pub of_groups-groups : (f v : ℕ) → v ≤ f → of_groups (groups f v) ≡ v
unfolding groups of_groups
of_groups-groups zero v h = omega arith
of_groups-groups (suc f) v h = ground (arith, of_groups-groups f (v / 10000))

pub groups-IsGroup : (f v : ℕ) → All IsGroup (groups f v)
unfolding groups
groups-IsGroup zero v = tt
groups-IsGroup (suc f) v = ground (arith, groups-IsGroup f (v / 10000))

pub length-groups-le : (k f v : ℕ) → v < 10000 ^ k → length (groups f v) ≤ k
unfolding groups
length-groups-le k zero v h = omega arith
length-groups-le zero (suc f) v h = ground arith
length-groups-le (suc k) (suc f) v h =
    ground (
      arith,
      pow-succ' 10000 k,
      length-groups-le k f (v / 10000) (omega (arith, pow-succ' 10000 k)),
    )

pub length-strip-le : (ds : List ℕ) → length (strip ds) ≤ length ds
unfolding strip
length-strip-le [] = omega arith
length-strip-le (d ∷ []) = omega arith
length-strip-le (d ∷ e ∷ ds) = ground (arith, length-strip-le (e ∷ ds))

-- Groups of zero at the low end are left out, and their number tells the power of 10000.
pub of_groups-strip :
    (ds : List ℕ) (k : ℕ)
    → length ds ≡ k + length (strip ds)
    → of_groups ds ≡ 10000 ^ k * of_groups (strip ds)
unfolding strip of_groups
of_groups-strip [] k h = omega arith
of_groups-strip (d ∷ []) zero h = omega arith
of_groups-strip (d ∷ []) (suc k) h = absurd (omega arith)
of_groups-strip (d ∷ e ∷ ds) zero h = ground (arith, length-strip-le (e ∷ ds))
of_groups-strip (d ∷ e ∷ ds) (suc k) h = elim (Bool-cases (d == 0)) [
  | inl z ↦ rw z (
      omega (
        arith,
        zero_of z,
        pow-succ' 10000 k,
        ap (λ (t : ℕ). 10000 * t) (of_groups-strip (e ∷ ds) k (counted z)),
        ap (λ (t : ℕ). t * of_groups (strip (e ∷ ds))) (pow-succ' 10000 k),
      ))
  | inr n ↦ absurd (ground arith)
]
  where
    zero_of : (d == 0) ≡ true → d ≡ 0
    zero_of z = ground arith

    counted : (d == 0) ≡ true → length (e ∷ ds) ≡ k + length (strip (e ∷ ds))
    counted z = ground arith

pub length-strip_pos : (d : ℕ) (ds : List ℕ) → 1 ≤ length (strip (d ∷ ds))
unfolding strip
length-strip_pos d [] = omega arith
length-strip_pos d (e ∷ ds) = ground (arith, length-strip_pos e ds)

pub strip-IsGroup : (ds : List ℕ) → All IsGroup ds → All IsGroup (strip ds)
unfolding strip
strip-IsGroup [] h = tt
strip-IsGroup (d ∷ []) h = h
strip-IsGroup (d ∷ e ∷ ds) h = ground (arith, strip-IsGroup (e ∷ ds))

-- A number is the digits read from the highest group on.
unfoldable pub of_digits : List ℕ → ℕ → ℕ
of_digits [] r = r
of_digits (d ∷ ds) r = of_digits ds (r * 10000 + d)

of_digits-append : (ds es : List ℕ) (r : ℕ) → of_digits (ds ++ es) r ≡ of_digits es (of_digits ds r)
unfolding of_digits
of_digits-append [] es r = refl
of_digits-append (d ∷ ds) es r = of_digits-append ds es (r * 10000 + d)

pub of_digits-reverse : (ds : List ℕ) → of_digits (reverse ds) 0 ≡ of_groups ds
unfolding of_groups
of_digits-reverse [] = unfold of_digits in refl
of_digits-reverse (d ∷ ds) =
    rw (reverse-cons d ds, of_digits-append, of_digits-reverse ds) (unfold of_digits in omega arith)
