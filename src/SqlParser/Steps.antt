-- ===== src/SqlParser/Steps.antt =====
-- The main loop of `ParseStatements`: its fuel, and one round at a time.
use postgres_cpp_lib.Base.{
  ℕ, zero, suc, ◌≤◌, ◌≡◌, refl, ◌∙◌, subst, arith, some, inl, inr, Bool-cases, Option-cases, true,
  false, ◌&&◌, ◌==◌, List, [], ◌∷◌, length,
}
use mathlib.Core.Option.{some-injective}
use postgres_cpp_lib.SqlParser.{
  head_is, is_space, push_space, pop_space, drop_one, with_literal, Text, Scan, skip_line,
  skip_block, copy_literal, step, loop, scan, initial, parse_statements, flush,
}

length-skip_line-le : (cs : Text) → length (skip_line cs) ≤ length cs
unfolding skip_line
length-skip_line-le [] = omega arith
length-skip_line-le (c ∷ cs) = ground (arith, length-skip_line-le cs)

length-skip_block-le : (cs : Text) → length (skip_block cs) ≤ length cs
unfolding skip_block
length-skip_block-le [] = omega arith
length-skip_block-le (c ∷ []) = omega arith
length-skip_block-le (c ∷ d ∷ cs) = ground (arith, length-skip_block-le (d ∷ cs))

length-copy_literal-le : (cs cur : Text) → length (copy_literal cs cur).0 ≤ length cs
unfolding copy_literal
length-copy_literal-le [] cur = omega arith
length-copy_literal-le (c ∷ []) cur = omega arith
length-copy_literal-le (c ∷ d ∷ cs) cur =
    ground
      (arith, length-copy_literal-le cs (d ∷ c ∷ cur), length-copy_literal-le (d ∷ cs) (c ∷ cur))

-- A round leaves no more than what stood behind its character.
pub length-step-le : (c : ℕ) (cs : Text) (s : Scan) → length (step c cs s).0 ≤ length cs
unfolding step
length-step-le c [] s = unfold skip_line skip_block copy_literal in ground arith
length-step-le c (d ∷ cs) s =
    unfold skip_line in
    ground (
      arith,
      length-skip_line-le (d ∷ cs),
      length-skip_block-le cs,
      length-copy_literal-le (d ∷ cs) (c ∷ s.current),
    )

-- A round, by the branch that it takes.
pub step_cases {κ} :
    (P : Text × Scan → Type κ) (c : ℕ) (cs : Text) (s : Scan)
    → ((c == b'-' && head_is b'-' cs) ≡ true → P (skip_line (c ∷ cs), s))
    → ((c == b'/' && head_is b'*' cs) ≡ true → P (skip_block (drop_one cs), s))
    → ((c == b'\'') ≡ true → P (with_literal s (copy_literal cs (c ∷ s.current))))
    → (is_space c ≡ true → P (cs, record s { current = push_space s.current }))
    → ((c == b')') ≡ true → P (cs, record s { current = c ∷ pop_space s.current }))
    → ((c == b';') ≡ true → P (cs, flush s))
    → ((c == b'\'') ≡ false
        → is_space c ≡ false
        → (c == b')') ≡ false
        → (c == b'-' && head_is b'-' cs) ≡ false
        → (c == b'/' && head_is b'*' cs) ≡ false
        → (c == b';') ≡ false
        → P (cs, record s { current = c ∷ s.current }))
    → P (step c cs s)
unfolding step
step_cases P c cs s line block quote space paren semi plain =
    elim (Bool-cases (c == b'-' && head_is b'-' cs)) [
      | inl e ↦ rw e (line e)
      | inr e₁ ↦ rw e₁ (elim (Bool-cases (c == b'/' && head_is b'*' cs)) [
        | inl e ↦ rw e (block e)
        | inr e₂ ↦ rw e₂ (elim (Bool-cases (c == b'\'')) [
          | inl e ↦ rw e (quote e)
          | inr e₃ ↦ rw e₃ (elim (Bool-cases (is_space c)) [
            | inl e ↦ rw e (space e)
            | inr e₄ ↦ rw e₄ (elim (Bool-cases (c == b')')) [
              | inl e ↦ rw e (paren e)
              | inr e₅ ↦ rw e₅ (elim (Bool-cases (c == b';')) [
                | inl e ↦ rw e (semi e)
                | inr e₆ ↦ rw e₆ (plain e₃ e₄ e₅ e₁ e₂ e₆)
              ])
            ])
          ])
        ])
      ])
    ]

-- Any fuel from the text's length on gives the same result, and a result.
loop-fuel :
    (f g : ℕ) (cs : Text) (s : Scan) → length cs ≤ f → length cs ≤ g → loop f cs s ≡ loop g cs s
unfolding loop
loop-fuel zero zero cs s p q = refl
loop-fuel zero (suc g) [] s p q = refl
loop-fuel (suc f) zero [] s p q = refl
loop-fuel (suc f) (suc g) [] s p q = refl
loop-fuel zero (suc g) (c ∷ cs) s p q = absurd (omega arith)
loop-fuel (suc f) zero (c ∷ cs) s p q = absurd (omega arith)
loop-fuel (suc f) (suc g) (c ∷ cs) s p q =
    loop-fuel f g (step c cs s).0 (step c cs s).1 (omega (arith, length-step-le c cs s))
      (omega (arith, length-step-le c cs s))

loop-total : (f : ℕ) (cs : Text) (s : Scan) → length cs ≤ f → (t : Scan) × (loop f cs s ≡ some t)
unfolding loop
loop-total zero [] s h = (s, refl)
loop-total (suc f) [] s h = (s, refl)
loop-total zero (c ∷ cs) s h = absurd (omega arith)
loop-total (suc f) (c ∷ cs) s h =
    loop-total f (step c cs s).0 (step c cs s).1 (omega (arith, length-step-le c cs s))

pub scan-nil : (s : Scan) → scan [] s ≡ some s
unfolding loop
scan-nil s = refl

-- The loop as a recursion on what is left to read, with no fuel in sight.
pub scan-cons :
    (c : ℕ) (cs : Text) (s : Scan) → scan (c ∷ cs) s ≡ scan (step c cs s).0 (step c cs s).1
scan-cons c cs s = first_round ∙ loop-fuel (length cs) _ _ _ (length-step-le c cs s) (omega arith)
  where
    first_round : scan (c ∷ cs) s ≡ loop (length cs) (step c cs s).0 (step c cs s).1
    first_round = unfold loop in refl

pub scan-total : (cs : Text) (s : Scan) → (t : Scan) × (scan cs s ≡ some t)
scan-total cs s = loop-total (length cs) cs s (omega arith)

-- `ParseStatements` ends on every text.
pub parse_statements-total : (sql : Text) → (out : List Text) × (parse_statements sql ≡ some out)
unfolding parse_statements
parse_statements-total sql = let (t, e) = scan-total sql initial in ((flush t).statements, rw e)

-- An invariant that a round keeps, of the scan and of what is left to read, holds at the end.
pub scan-invariant {κ} :
    (P : Text → Scan → Type κ)
    → ((c : ℕ) (cs : Text) (s : Scan) → P (c ∷ cs) s → P (step c cs s).0 (step c cs s).1)
    → (f : ℕ) (cs : Text) (s t : Scan) → loop f cs s ≡ some t
    → P cs s
    → P [] t
unfolding loop
scan-invariant P keep zero [] s t e h = subst (P []) (some-injective s t e) h
scan-invariant P keep (suc f) [] s t e h = subst (P []) (some-injective s t e) h
scan-invariant P keep zero (c ∷ cs) s t e h = cc
scan-invariant P keep (suc f) (c ∷ cs) s t e h =
    scan-invariant P keep f (step c cs s).0 (step c cs s).1 t e (keep c cs s h)

-- The result is what `flush` leaves behind the last round.
pub parse_statements-inv :
    (sql : Text) (out : List Text)
    → parse_statements sql ≡ some out
    → (t : Scan) × (scan sql initial ≡ some t) × ((flush t).statements ≡ out)
unfolding parse_statements
parse_statements-inv sql out e = elim (Option-cases (scan sql initial)) [
  | inl n ↦ cc (n, e)
  | inr (t, h) ↦ (t, h, some-injective _ _ (rw h at e))
]

pub parse_statements-eq :
    (sql : Text) (t : Scan)
    → scan sql initial ≡ some t
    → parse_statements sql ≡ some (flush t).statements
unfolding parse_statements
parse_statements-eq sql t e = rw e
