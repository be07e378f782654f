-- ===== src/Table/Names.antt =====
-- The rows of a table, and the names of their fields.
use mathlib.Core.Option
use postgres_cpp_lib.Base.{
  ℕ, zero, suc, ◌<◌, ◌≡◌, refl, sym, ap, ap₂, ◌∙◌, ◌⊎◌, inl, inr, arith, Bool, true, false, Option,
  none, some, List, [], ◌∷◌, ◌++◌, length, length-append, get_elem?, if◌then◌else◌, Bool-cases,
}
use postgres_cpp_lib.Base.Texts.{Text}
use postgres_cpp_lib.Column.{Colum}
use postgres_cpp_lib.Table.{
  PgResult, same, Row, assign, find, or_null, and_as, column_at, get, cell, columns_up_to,
  rows_up_to, rows, size,
}

same-eq : (a b : Text) → same a b ≡ true → a ≡ b
unfolding same
same-eq [] [] h = refl
same-eq [] (b ∷ bs) h = ground arith
same-eq (a ∷ as') [] h = ground arith
same-eq (a ∷ as') (b ∷ bs) h = ap₂ (λ x xs. x ∷ xs) (ground arith) (same-eq as' bs (ground arith))

get_elem?-snoc_before {ℓ} :
    {A : Type ℓ} (xs : List A) (y : A) (r : ℕ)
    → r < length xs
    → get_elem? (xs ++ y ∷ []) r ≡ get_elem? xs r
get_elem?-snoc_before [] y r h = absurd (omega arith)
get_elem?-snoc_before (x ∷ xs) y zero h = refl
get_elem?-snoc_before (x ∷ xs) y (suc r) h = get_elem?-snoc_before xs y r (omega arith)

get_elem?-snoc_last {ℓ} :
    {A : Type ℓ} (xs : List A) (y : A) → get_elem? (xs ++ y ∷ []) (length xs) ≡ some y
get_elem?-snoc_last [] y = refl
get_elem?-snoc_last (x ∷ xs) y = get_elem?-snoc_last xs y

-- Tests that are made twice, and tests of which one holds at most.
twice :
    {A : Type 0} (b : Bool) (x y z : A)
    → (if b then x else z) ≡ (if b then x else (if b then y else z))
twice true x y z = refl
twice false x y z = refl

swapped :
    {A : Type 0} (b b' : Bool) (x y z : A)
    → (b ≡ true → b' ≡ false)
    → (if b then x else (if b' then y else z)) ≡ (if b' then y else (if b then x else z))
swapped true b' x y z h = rw (h refl) refl
swapped false b' x y z h = refl

not_both : (k m n : Text) → same k m ≡ false → same k n ≡ true → same m n ≡ false
not_both k m n h e = elim (Bool-cases (same m n)) [ inl f ↦ cc (h, e, same-eq m n f) | inr f ↦ f ]

find-assign :
    (name m : Text) (column : Colum) (row : Row)
    → find name (assign m column row) ≡ (if same m name then some column else find name row)
unfolding find assign
find-assign name m column [] = refl
find-assign name m column ((k, v) ∷ row) = elim (Bool-cases (same k m)) [
  | inl e ↦
      let k_is_m = same-eq k m e in
      rw e (
        ap (λ t. if same t name then some column else find name row) k_is_m
        ∙ twice (same m name) (some column) (some v) (find name row)
        ∙ ap
            (λ t.
              if same m name then some column else (if same t name then some v else find name row))
            (sym k_is_m))
  | inr e ↦ rw e (
      ap (λ o. if same k name then some v else o) (find-assign name m column row)
      ∙ swapped (same k name) (same m name) (some v) (some column) (find name row)
          (not_both k m name e))
]

-- A choice between a value and what is there.
picked :
    {A B : Type 0} (f : A → B) (b : Bool) (a : A) (o : Option A) (o' : Option B)
    → o' ≡ Option.map f o
    → (if b then some (f a) else o') ≡ Option.map f (if b then some a else o)
picked f true a o o' h = refl
picked f false a o o' h = h

-- The last of the first so many fields with a name.
unfoldable pub last_named : PgResult → Text → ℕ → Option ℕ
last_named res name zero = none
last_named res name (suc c) = if same (res.pq_fname c) name then some c else last_named res name c

lt_or_eq : (r n : ℕ) → r < suc n → (r < n) ⊎ (r ≡ n)
lt_or_eq r n h = omega arith

module _ (res : PgResult) where
  find-columns_up_to :
      (name : Text) (r n : ℕ)
      → find name (columns_up_to res r n) ≡ Option.map (λ c. cell res r c) (last_named res name n)
  unfolding columns_up_to last_named find
  find-columns_up_to name r zero = refl
  find-columns_up_to name r (suc c) =
      find-assign name (res.pq_fname c) (cell res r c) (columns_up_to res r c)
      ∙ picked (λ k. cell res r k) (same (res.pq_fname c) name) c (last_named res name c)
          (find name (columns_up_to res r c)) (find-columns_up_to name r c)

  length-rows_up_to : (n : ℕ) → length (rows_up_to res n) ≡ n
  unfolding rows_up_to
  length-rows_up_to zero = refl
  length-rows_up_to (suc r) = omega (
    arith,
    length-append (rows_up_to res r) (columns_up_to res r res.pq_nfields ∷ []),
    length-rows_up_to r,
  )

  row_at :
      (n r : ℕ) → r < n → get_elem? (rows_up_to res n) r ≡ some (columns_up_to res r res.pq_nfields)
  unfolding rows_up_to
  row_at zero r h = absurd (omega arith)
  row_at (suc n) r h = elim (lt_or_eq r n h) [
    | inl before ↦
        get_elem?-snoc_before (rows_up_to res n) (columns_up_to res n res.pq_nfields) r
          (omega (arith, length-rows_up_to n))
        ∙ row_at n r before
    | inr e ↦
        ap (get_elem? (rows_up_to res n ++ columns_up_to res n res.pq_nfields ∷ []))
          (e ∙ sym (length-rows_up_to n))
        ∙ get_elem?-snoc_last (rows_up_to res n) (columns_up_to res n res.pq_nfields)
        ∙ ap (λ k. some (columns_up_to res k res.pq_nfields)) (sym e)
  ]

  abbrev pub cells : ℕ → Option ℕ → Option Colum
  cells r o = Option.map (λ c. cell res r c) o

  -- A table has a row for each row of the result, in order, and what a row has for a name is the
  -- value of the last field with that name: `operator[]` gives an empty column and `get` nothing
  -- where no field has the name.
  pub rows-last_named :
      {T : Type 0} (as_t : Colum → Option T) (r : ℕ) (name : Text)
      → r < res.pq_ntuples
      → (size res ≡ res.pq_ntuples)
        × ((row : Row) × (get_elem? (rows res) r ≡ some row)
            × (column_at name row ≡ or_null (cells r (last_named res name res.pq_nfields)))
            × (get as_t name row ≡ and_as as_t (cells r (last_named res name res.pq_nfields))))
  unfolding rows size column_at get
  rows-last_named as_t r name h =
      let found = find-columns_up_to name r res.pq_nfields in
      (
        length-rows_up_to res.pq_ntuples,
        (
          columns_up_to res r res.pq_nfields,
          row_at res.pq_ntuples r h,
          ap or_null found,
          ap (and_as as_t) found,
        ),
      )
