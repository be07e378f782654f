-- ===== src/Param/Buffer.antt =====
-- What `MakePgParamBuffer` hands to libpq.
use postgres_cpp_lib.Base.{
  ℕ, zero, suc, ◌+◌, ◌%◌, ◌^◌, ◌≡◌, refl, ap, ◌∙◌, arith, true, Option, none, some, List, [], ◌∷◌,
  ◌++◌, map, Bool-cases, inl, inr, append-nil, append_assoc, length, length-append, set, replicate,
  if◌then◌else◌,
}
use postgres_cpp_lib.Wire.{Bytes}
use postgres_cpp_lib.Param.{
  SupportedType, null, boolean, to_binary, PgParamDetail, is_null, put_param, put_params,
  make_pg_param_buffer,
}

-- The pointers of parameters from the index `i` on.
unfoldable pub pointers : ℕ → List SupportedType → List (Option ℕ)
pointers i [] = []
pointers i (p ∷ ps) = (if is_null p then none else some i) ∷ pointers (i + 1) ps

abbrev binary_length : ℕ → SupportedType → ℕ
binary_length per_us p = length (to_binary per_us p) % 2 ^ 32

set-append {ℓ} :
    {A : Type ℓ} (xs ys : List A) (i : ℕ) (x v : A)
    → length xs ≡ i
    → set (xs ++ x ∷ ys) i v ≡ (xs ++ v ∷ []) ++ ys
set-append [] ys zero x v e = refl
set-append [] ys (suc i) x v e = absurd (omega arith)
set-append (y ∷ xs) ys zero x v e = absurd (omega arith)
set-append (y ∷ xs) ys (suc i) x v e = ap (λ l. y ∷ l) (set-append xs ys i x v (omega arith))

-- The arrays after the parameters before `i`, with `n` parameters to come.
abbrev partial : Bytes → List Bytes → List (Option ℕ) → List ℕ → List ℕ → ℕ → PgParamDetail
partial query text buffers lengths formats n = record {
  query = query;
  text = text ++ replicate n [];
  buffers = buffers ++ replicate n none;
  lengths = lengths ++ replicate n 0;
  formats = formats ++ replicate n 0;
}

module _ (per_us : ℕ) (query : Bytes) where
  null_binary : (p : SupportedType) → is_null p ≡ true → to_binary per_us p ≡ []
  unfolding to_binary
  null_binary null h = refl
  null_binary (boolean b) h = cc
  null_binary _ h = cc

  module _ (i : ℕ) (text : List Bytes) (buffers : List (Option ℕ)) (lengths formats : List ℕ)
      (te : length text ≡ i) (be : length buffers ≡ i) (le : length lengths ≡ i)
      (fe : length formats ≡ i) where
    put_param-partial :
        (p : SupportedType) (n : ℕ)
        → put_param per_us i p (partial query text buffers lengths formats (suc n))
          ≡ partial query
              (text ++ to_binary per_us p ∷ [])
              (buffers ++ (if is_null p then none else some i) ∷ [])
              (lengths ++ binary_length per_us p ∷ [])
              (formats ++ 1 ∷ [])
              n
    unfolding put_param
    put_param-partial p n = elim (Bool-cases (is_null p)) [
      | inl e ↦ rw (
        e,
        null_binary p e,
        set-append formats (replicate n 0) i 0 1 fe,
        set-append lengths (replicate n 0) i 0 0 le,
        set-append buffers (replicate n none) i none none be,
        append_assoc text ([] ∷ []) (replicate n []),
      )
      | inr e ↦ rw (
        e,
        set-append formats (replicate n 0) i 0 1 fe,
        set-append lengths (replicate n 0) i 0 (binary_length per_us p) le,
        set-append buffers (replicate n none) i none (some i) be,
        set-append text (replicate n []) i [] (to_binary per_us p) te,
      )
    ]

  put_params-partial :
      (i : ℕ) (ps : List SupportedType) (text : List Bytes) (buffers : List (Option ℕ))
      (lengths formats : List ℕ)
      → length text ≡ i
      → length buffers ≡ i
      → length lengths ≡ i
      → length formats ≡ i
      → put_params per_us i ps (partial query text buffers lengths formats (length ps))
        ≡ partial query
            (text ++ map (to_binary per_us) ps)
            (buffers ++ pointers i ps)
            (lengths ++ map (binary_length per_us) ps)
            (formats ++ map (λ _. 1) ps)
            0
  unfolding put_params pointers
  put_params-partial i [] text buffers lengths formats te be le fe = simp append-nil
  put_params-partial i (p ∷ ps) text buffers lengths formats te be le fe =
      ap (put_params per_us (i + 1) ps)
        (put_param-partial i text buffers lengths formats te be le fe p (length ps))
      ∙ put_params-partial (i + 1) ps (text ++ to_binary per_us p ∷ [])
          (buffers ++ (if is_null p then none else some i) ∷ [])
          (lengths ++ binary_length per_us p ∷ []) (formats ++ 1 ∷ []) (longer text _ te)
          (longer buffers _ be) (longer lengths _ le) (longer formats _ fe)
      ∙ simp append_assoc
    where
      longer : {A : Type 0} (xs : List A) (x : A) → length xs ≡ i → length (xs ++ x ∷ []) ≡ i + 1
      longer xs x e = omega (arith, length-append xs (x ∷ []))

  -- The arrays of `MakePgParamBuffer`, entry by entry: the text and its length, a pointer to it
  -- unless the parameter is NULL, and the binary format.
  pub make_pg_param_buffer_lem :
      (ps : List SupportedType)
      → make_pg_param_buffer per_us query ps ≡ record {
        query = query;
        text = map (to_binary per_us) ps;
        buffers = pointers 0 ps;
        lengths = map (binary_length per_us) ps;
        formats = map (λ _. 1) ps;
      }
  unfolding make_pg_param_buffer
  make_pg_param_buffer_lem ps =
      put_params-partial 0 ps [] [] [] [] refl refl refl refl ∙ simp append-nil
