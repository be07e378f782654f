-- ===== src/Param/Sent.antt =====
-- The parameters as libpq reads them from the arrays of `MakePgParamBuffer`.
use postgres_cpp_lib.Base.{
  ℕ, zero, suc, ◌+◌, ◌%◌, ◌^◌, ◌<◌, ◌≡◌, ◌==◌, refl, ap, subst, arith, Option, none, some, List, [],
  ◌∷◌, ◌++◌, map, append_assoc, length, length-append, take, get_or, if◌then◌else◌, All, Bool-cases,
  inl, inr,
}
use postgres_cpp_lib.Wire.{Bytes}
use postgres_cpp_lib.Wire.Laws.{take-length}
use postgres_cpp_lib.Param.{
  SupportedType, PgParamDetail, is_null, to_binary, make_pg_param_buffer, count,
}
use postgres_cpp_lib.Param.Buffer.{pointers, make_pg_param_buffer_lem}

-- A parameter as libpq is told of it: NULL, or its bytes with the format in which the server reads
-- them.
pub data Received : Type 0 where
  null_value : Received
  in_text in_binary : Bytes → Received

-- A text ends at its first NUL.
unfoldable pub up_to_nul : Bytes → Bytes
up_to_nul [] = []
up_to_nul (c ∷ cs) = let more = up_to_nul cs in if c == 0 then [] else c ∷ more

-- A value of a format other than 0 is as long as `paramLengths` says; for a text the length is ignored.
abbrev pub formatted : ℕ → ℕ → Bytes → Received
formatted format n s = if format == 0 then in_text (up_to_nul s) else in_binary (take n s)

-- A null pointer is SQL NULL.
unfoldable pub received_from : List Bytes → List (Option ℕ) → List ℕ → List ℕ → List Received
unfolding up_to_nul
received_from text [] lengths formats = []
received_from text (p ∷ ps) [] formats = []
received_from text (p ∷ ps) (n ∷ ns) [] = []
received_from text (none ∷ ps) (n ∷ ns) (f ∷ fs) = null_value ∷ received_from text ps ns fs
received_from text (some j ∷ ps) (n ∷ ns) (f ∷ fs) =
    formatted f n (get_or text j []) ∷ received_from text ps ns fs

unfoldable pub received : PgParamDetail → List Received
unfolding received_from
received d = received_from d.text d.buffers d.lengths d.formats

-- What the caller passed, in binary.
abbrev pub meant : ℕ → SupportedType → Received
meant per_us p = if is_null p then null_value else in_binary (to_binary per_us p)

-- The length fits the `int` that libpq is given.
abbrev pub IsShort : ℕ → SupportedType → Type 0
IsShort per_us p = length (to_binary per_us p) < 2 ^ 31

get_or-append :
    (xs ys : List Bytes) (x : Bytes) (i : ℕ) → length xs ≡ i → get_or (xs ++ x ∷ ys) i [] ≡ x
get_or-append [] ys x zero e = refl
get_or-append [] ys x (suc i) e = absurd (omega arith)
get_or-append (y ∷ xs) ys x zero e = absurd (omega arith)
get_or-append (y ∷ xs) ys x (suc i) e = get_or-append xs ys x i (omega arith)

module _ (per_us : ℕ) where
  received_from-pointers :
      (i : ℕ) (before : List Bytes) (ps : List SupportedType)
      → length before ≡ i
      → All (IsShort per_us) ps
      → received_from
          (before ++ map (to_binary per_us) ps)
          (pointers i ps)
          (map (λ p. length (to_binary per_us p) % 2 ^ 32) ps)
          (map (λ _. 1) ps)
        ≡ map (meant per_us) ps
  unfolding received_from pointers
  received_from-pointers i before [] e h = refl
  received_from-pointers i before (p ∷ ps) e (short, h) =
      let rest = rw (append_assoc before (to_binary per_us p ∷ []) (map (to_binary per_us) ps)) at (
        received_from-pointers (i + 1) (before ++ to_binary per_us p ∷ []) ps
          (omega (arith, e, length-append before (to_binary per_us p ∷ []))) h) in
      elim (Bool-cases (is_null p)) [
        | inl n ↦ rw n (ap (λ r. null_value ∷ r) rest)
        | inr v ↦
            rw (v, get_or-append before (map (to_binary per_us) ps) (to_binary per_us p) i e, whole)
              (ap (λ r. in_binary (to_binary per_us p) ∷ r) rest)
      ]
    where
      whole : take (length (to_binary per_us p) % 2 ^ 32) (to_binary per_us p) ≡ to_binary per_us p
      whole =
          subst (λ (k : ℕ). take k (to_binary per_us p) ≡ to_binary per_us p) (omega arith)
            (take-length (to_binary per_us p))

  length-pointers : (i : ℕ) (ps : List SupportedType) → length (pointers i ps) ≡ length ps
  unfolding pointers
  length-pointers i [] = refl
  length-pointers i (p ∷ ps) = ap suc (length-pointers (i + 1) ps)

  -- For fewer than 2^31 parameters, each of less than 2^31 bytes: libpq is given as many parameters as
  -- the caller passed, and reads each of them as the caller meant it: NULL, or its bytes in binary
  -- format.
  pub received-make_pg_param_buffer :
      (query : Bytes) (ps : List SupportedType)
      → All (IsShort per_us) ps
      → length ps < 2 ^ 31
      → (received (make_pg_param_buffer per_us query ps) ≡ map (meant per_us) ps)
        × (count (make_pg_param_buffer per_us query ps) ≡ length ps)
  unfolding received count
  received-make_pg_param_buffer query ps h n =
      rw (make_pg_param_buffer_lem per_us query ps)
        (received_from-pointers 0 [] ps refl h, omega (arith, length-pointers 0 ps))
