-- ===== src/Base/Decimal.antt =====
-- `std::to_string` of a number that is not negative, and the reading of decimal digits.
use mathlib.Core.List.{reverse-cons}
use Prim.Native.Nat.{ℕ, zero, suc, ◌+◌, ◌-◌, ◌*◌, ◌/◌, ◌%◌, ◌≤◌, ◌<◌}
use mathlib.Core.Path.{◌≡◌, refl, ap, ◌∙◌}
use mathlib.Core.Bool.{Bool, true, false, ◌&&◌}
use mathlib.Core.Option.{Option, none, some}
use mathlib.Core.List.{[], ◌∷◌, ◌++◌, reverse}
use native.Mathlib.Omega.{arith}
use postgres_cpp_lib.Base.Tests.{ltb, leb, ◌==◌, if◌then◌else◌, if_elim, ltb→lt}
use postgres_cpp_lib.Base.Texts.{Text}

-- The digits, the lowest first. The value falls in each round, so it is fuel enough itself.
unfoldable pub low_digits : ℕ → ℕ → Text
low_digits zero v = (48 + v % 10) ∷ []
low_digits (suc fuel) v =
    let more = low_digits fuel (v / 10) in if ltb v 10 then (48 + v) ∷ [] else (48 + v % 10) ∷ more

unfoldable pub to_string : ℕ → Text
unfolding low_digits
to_string v = reverse (low_digits v v)

abbrev pub is_digit : ℕ → Bool
is_digit c = leb 48 c && leb c 57

unfoldable pub read_digits : Text → ℕ → Option ℕ
read_digits [] r = some r
read_digits (c ∷ cs) r =
    let onward = read_digits cs (10 * r + (c - 48)) in if is_digit c then onward else none

abbrev pub has : ℕ → Text → Bool
has d [] = false
has d (c ∷ cs) = if c == d then true else has d cs

abbrev onward : Option ℕ → Text → Option ℕ
onward none t = none
onward (some r) t = read_digits t r

read_digits-append :
    (xs ys : Text) (r : ℕ) → read_digits (xs ++ ys) r ≡ onward (read_digits xs r) ys
unfolding read_digits
read_digits-append [] ys r = refl
read_digits-append (c ∷ xs) ys r = ground (arith, read_digits-append xs ys (10 * r + (c - 48)))

one_digit : (d r : ℕ) → d < 10 → read_digits ((48 + d) ∷ []) r ≡ some (10 * r + d)
unfolding read_digits
one_digit d r h = ground arith

-- The higher digits, and the lowest.
more_digits :
    (more : Text) (d q : ℕ)
    → d < 10
    → read_digits (reverse more) 0 ≡ some q
    → read_digits (reverse ((48 + d) ∷ more)) 0 ≡ some (10 * q + d)
more_digits more d q h e =
    ap (λ t. read_digits t 0) (reverse-cons (48 + d) more)
    ∙ read_digits-append (reverse more) ((48 + d) ∷ []) 0
    ∙ ap (λ o. onward o ((48 + d) ∷ [])) e
    ∙ one_digit d q h

read_digits-low_digits :
    (fuel v : ℕ) → v ≤ fuel → read_digits (reverse (low_digits fuel v)) 0 ≡ some v
unfolding low_digits
read_digits-low_digits zero v h = one_digit (v % 10) 0 (omega arith) ∙ ap some (omega arith)
read_digits-low_digits (suc fuel) v h =
    if_elim (λ t. read_digits (reverse t) 0 ≡ some v) (ltb v 10)
      (λ small. one_digit v 0 (ltb→lt v 10 small) ∙ ap some (omega arith))
      (λ big.
        more_digits (low_digits fuel (v / 10)) (v % 10) (v / 10) (omega arith)
          (read_digits-low_digits fuel (v / 10) (lower fuel v h big))
        ∙ ap some (omega arith))
  where
    lower : (fuel v : ℕ) → v ≤ suc fuel → ltb v 10 ≡ false → v / 10 ≤ fuel
    lower fuel v h big = grind arith

-- A number that is printed is read back.
pub read_digits-to_string : (v : ℕ) → read_digits (to_string v) 0 ≡ some v
unfolding to_string
read_digits-to_string v = read_digits-low_digits v v (omega arith)

pub has-append : (d : ℕ) (xs ys : Text) → has d (xs ++ ys) ≡ (if has d xs then true else has d ys)
has-append d [] ys = refl
has-append d (c ∷ xs) ys = ground (arith, has-append d xs ys)

pub has_neither :
    (d : ℕ) (xs ys : Text) → has d xs ≡ false → has d ys ≡ false → has d (xs ++ ys) ≡ false
has_neither d xs ys h k = has-append d xs ys ∙ rw h k

has_snoc :
    (d c : ℕ) (xs : Text) → (c == d) ≡ false → has d xs ≡ false → has d (xs ++ c ∷ []) ≡ false
has_snoc d c xs e h = has_neither d xs (c ∷ []) h (rw e refl)

has-low_digits : (d fuel v : ℕ) → is_digit d ≡ false → has d (reverse (low_digits fuel v)) ≡ false
unfolding low_digits
has-low_digits d zero v h = ground arith
has-low_digits d (suc fuel) v h =
    if_elim (λ t. has d (reverse t) ≡ false) (ltb v 10) (λ small. ground arith)
      (λ _.
        ap (has d) (reverse-cons (48 + v % 10) (low_digits fuel (v / 10)))
        ∙ has_snoc d (48 + v % 10) (reverse (low_digits fuel (v / 10))) (ground arith)
            (has-low_digits d fuel (v / 10) h))

-- Only digits are printed.
pub has-to_string : (d v : ℕ) → is_digit d ≡ false → has d (to_string v) ≡ false
unfolding to_string
has-to_string d v h = has-low_digits d v v h
