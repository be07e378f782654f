-- ===== src/Moves/Reading.antt =====
-- What libpq reads through the pointers of a `pg_param_detail`.
use mathlib.Core.Option
use postgres_cpp_lib.Base.{
  ℕ, suc, zero, ◌+◌, ◌<◌, ◌≡◌, refl, arith, Bool, true, false, Option, none, some, List, [], ◌∷◌,
  if◌then◌else◌, map, length, get_or, get_elem?, All,
}
use postgres_cpp_lib.Wire.{Bytes}
use postgres_cpp_lib.Param.{SupportedType, PgParamDetail, is_null}
use postgres_cpp_lib.Param.Buffer.{pointers}
use postgres_cpp_lib.Param.Sent.{
  Received, null_value, formatted, up_to_nul, received_from, received,
}
use postgres_cpp_lib.Moves.{Pointer, Detail, Memory, read}
use postgres_cpp_lib.Moves.Places.{Holds}

-- The parameters that libpq reads, or none where a pointer dangles.
unfoldable pub read_params :
    Memory → List (Option Pointer) → List ℕ → List ℕ → Option (List Received)
unfolding read up_to_nul
read_params m [] lengths formats = some []
read_params m (p ∷ ps) [] formats = some []
read_params m (p ∷ ps) (n ∷ ns) [] = some []
read_params m (none ∷ ps) (n ∷ ns) (f ∷ fs) =
    Option.map (λ (l : List Received). null_value ∷ l) (read_params m ps ns fs)
read_params m (some p ∷ ps) (n ∷ ns) (f ∷ fs) =
    Option.bind (read p m)
      (λ s. Option.map (λ (l : List Received). formatted f n s ∷ l) (read_params m ps ns fs))

unfoldable pub received_at : Option Detail → Memory → Option (Bytes × List Received)
unfolding read_params
received_at none m = none
received_at (some d) m =
    Option.map (λ (l : List Received). (d.query, l)) (read_params m d.buffers d.lengths d.formats)

-- The pointer is null or points to a string of the list.
abbrev pub InText : List Bytes → Option ℕ → Type 0
InText text none = Unit
InText text (some j) = j < length text

get_elem?-get_or :
    (text : List Bytes) (j : ℕ) → j < length text → get_elem? text j ≡ some (get_or text j [])
get_elem?-get_or [] j h = absurd (omega arith)
get_elem?-get_or (t ∷ ts) zero h = refl
get_elem?-get_or (t ∷ ts) (suc j) h = get_elem?-get_or ts j (omega arith)

read-placed :
    (m : Memory) (k : ℕ) (text : List Bytes) (j : ℕ)
    → m.blocks k ≡ some text
    → j < length text
    → read (record { block = k; index = j }) m ≡ some (get_or text j [])
unfolding read Option.bind
read-placed m k text j e h = rw e (get_elem?-get_or text j h)

read_params-received_from :
    (m : Memory) (k : ℕ) (text : List Bytes) (bs : List (Option ℕ)) (ns fs : List ℕ)
    → m.blocks k ≡ some text
    → All (InText text) bs
    → read_params m (map (Option.map (λ i. record { block = k; index = i })) bs) ns fs
      ≡ some (received_from text bs ns fs)
unfolding read_params received_from Option.bind
read_params-received_from m k text [] ns fs e h = refl
read_params-received_from m k text (none ∷ bs) [] fs e h = refl
read_params-received_from m k text (some j ∷ bs) [] fs e h = refl
read_params-received_from m k text (none ∷ bs) (n ∷ ns) [] e h = refl
read_params-received_from m k text (some j ∷ bs) (n ∷ ns) [] e h = refl
read_params-received_from m k text (none ∷ bs) (n ∷ ns) (f ∷ fs) e h =
    rw (read_params-received_from m k text bs ns fs e h.1) refl
read_params-received_from m k text (some j ∷ bs) (n ∷ ns) (f ∷ fs) e h =
    rw (read_params-received_from m k text bs ns fs e h.1, read-placed m k text j e h.0) refl

-- Wherever they are, the parameters are read as libpq reads them where they were made.
pub Holds-received :
    (a k : ℕ) (p : PgParamDetail) (m : Memory)
    → All (InText p.text) p.buffers
    → Holds a k p m
    → received_at (m.details a) m ≡ some (p.query, received p)
unfolding received_at received
Holds-received a k p m h holds =
    rw
      (
        holds.detail,
        read_params-received_from m k p.text p.buffers p.lengths p.formats holds.strings h,
      )
      refl

pub pointers-InText :
    (text : List Bytes) (i : ℕ) (ps : List SupportedType)
    → i + length ps ≡ length text
    → All (InText text) (pointers i ps)
unfolding pointers
pointers-InText text i [] e = tt
pointers-InText text i (p ∷ ps) e =
    (inside (is_null p) i (omega (arith, e)), pointers-InText text (i + 1) ps (omega (arith, e)))
  where
    inside : (b : Bool) (i : ℕ) → i < length text → InText text (if b then none else some i)
    inside true i h = tt
    inside false i h = h
