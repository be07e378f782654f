-- ===== src/SqlParser/Statements.antt =====
-- The statements of `ParseStatements`, and `current` in the rounds of its main loop.

use postgres_cpp_lib.Base.{
  ℕ, ◌≡◌, refl, ◌⊎◌, inl, inr, arith, true, false, some, List, [], ◌∷◌, ◌==◌, All, length,
}
use postgres_cpp_lib.SqlParser.{
  Text, Scan, is_space, push_space, flush, copy_literal, pop_space, with_literal, step, initial,
  parse_statements,
}
use postgres_cpp_lib.SqlParser.Steps.{scan-invariant, step_cases, parse_statements-inv}
use postgres_cpp_lib.SqlParser.Tidy.{in_literal, tidy, IsStatement, flush-All}

-- The loop stands outside of a literal, or the text ended in one.
record Inv (cs : Text) (s : Scan) : Type 0 where
  is_tidy : tidy s.current ≡ true
  outside : (in_literal s.current ≡ false) ⊎ (cs ≡ [])
  done : All IsStatement s.statements

push_space-tidy :
    (r : Text)
    → tidy r ≡ true
    → in_literal r ≡ false
    → (tidy (push_space r) ≡ true) × (in_literal (push_space r) ≡ false)
unfolding push_space tidy
push_space-tidy [] h o = (refl, o)
push_space-tidy (c ∷ r) h o = ground arith

pop_space-tidy :
    (r : Text)
    → tidy r ≡ true
    → in_literal r ≡ false
    → (tidy (b')' ∷ pop_space r) ≡ true) × (in_literal (b')' ∷ pop_space r) ≡ false)
unfolding pop_space tidy
pop_space-tidy [] h o = (refl, o)
pop_space-tidy (c ∷ []) h o = ground arith
pop_space-tidy (c ∷ d ∷ r) h o = ground arith

-- What a literal's loop returns, started inside of the literal.
copy_literal-tidy :
    (cs r : Text)
    → tidy r ≡ true
    → in_literal r ≡ true
    → (tidy (copy_literal cs r).1 ≡ true)
      × ((in_literal (copy_literal cs r).1 ≡ false) ⊎ ((copy_literal cs r).0 ≡ []))
unfolding copy_literal tidy
copy_literal-tidy [] r h o = (h, inr refl)
copy_literal-tidy (c ∷ []) r h o = ground arith
copy_literal-tidy (c ∷ d ∷ cs) r h o =
    ground (arith, copy_literal-tidy cs (d ∷ c ∷ r), copy_literal-tidy (d ∷ cs) (c ∷ r))

plain-tidy :
    (c : ℕ) (r : Text)
    → is_space c ≡ false
    → (c == b')') ≡ false
    → (c == b'\'') ≡ false
    → tidy r ≡ true
    → in_literal r ≡ false
    → (tidy (c ∷ r) ≡ true) × (in_literal (c ∷ r) ≡ false)
unfolding tidy
plain-tidy c r sp cl q h o = ground arith

literal-Inv :
    (c : ℕ) (cs : Text) (s : Scan)
    → (c == b'\'') ≡ true
    → Inv (c ∷ cs) s
    → in_literal s.current ≡ false
    → Inv
        (with_literal s (copy_literal cs (c ∷ s.current))).0
        (with_literal s (copy_literal cs (c ∷ s.current))).1
unfolding tidy
literal-Inv c cs s q v o =
    let (t, rest) = copy_literal-tidy cs (c ∷ s.current) (ground arith) (ground arith) in
    record { is_tidy = t; outside = rest; done = v.done }

step-Inv : (c : ℕ) (cs : Text) (s : Scan) → Inv (c ∷ cs) s → Inv (step c cs s).0 (step c cs s).1
step-Inv c cs s v = elim v.outside [
  | inr e ↦ cc
  | inl o ↦
      step_cases (λ (r, t). Inv r t) c cs s
        (λ _. record { is_tidy = v.is_tidy; outside = inl o; done = v.done })
        (λ _. record { is_tidy = v.is_tidy; outside = inl o; done = v.done })
        (λ q. literal-Inv c cs s q v o)
        (λ _.
          let (t, i) = push_space-tidy s.current v.is_tidy o in
          record { is_tidy = t; outside = inl i; done = v.done })
        (λ p.
          let (t, i) = pop_space-tidy s.current v.is_tidy o in
          let e : c ≡ b')' = ground arith in
          rw e (record { is_tidy = t; outside = inl i; done = v.done }))
        (λ _. record {
          is_tidy = unfold flush tidy in refl;
          outside = inl (unfold flush tidy in refl);
          done = flush-All s v.done v.is_tidy;
        })
        (λ q sp p _ _ _.
          let (t, i) = plain-tidy c s.current sp p q v.is_tidy o in
          record { is_tidy = t; outside = inl i; done = v.done })
]

-- Every text that `ParseStatements` returns is a statement in normal form.
pub parse_statements-IsStatement :
    (sql : Text) (out : List Text) → parse_statements sql ≡ some out → All IsStatement out
parse_statements-IsStatement sql out e =
    let (t, h, k) = parse_statements-inv sql out e in
    let v = scan-invariant Inv step-Inv (length sql) sql initial t h start in
    rw (← k) (flush-All t v.done v.is_tidy)
  where
    start : Inv sql initial
    start = unfold tidy in record { is_tidy = refl; outside = inl refl; done = tt }
