-- ===== src/SqlParser/Equivalence.antt =====
-- The main loop of `ParseStatements` against its reference.
use mathlib.Core.Option
use mathlib.Core.List.{reverse-cons, reverse-append, append_assoc, append-nil}
use postgres_cpp_lib.Base.{
  ℕ, zero, suc, ◌≤◌, ◌≡◌, refl, sym, ap, ap₂, ==_iff, ◌∙◌, arith, Option, some, ◌⊎◌, inl, inr, Bool,
  Bool-cases, true, false, ◌==◌, List, [], ◌∷◌, ◌++◌, reverse, length,
}
use postgres_cpp_lib.SqlParser.{
  Text, Scan, is_space, head_is, push_space, pop_space, drop_one, drop_spaces, trim, keep_statement,
  with_literal, skip_line, skip_block, copy_literal, flush, step, scan, initial, parse_statements,
}
use postgres_cpp_lib.SqlParser.Steps.{scan-cons, scan-nil, step_cases, length-step-le}
use postgres_cpp_lib.SqlParser.Reference.{
  Token, blank, close, plain, verbatim, code, literal, lex, first_chunk, later_chunks, spaced, pend,
  render, kept, statement, each, reference,
}
use postgres_cpp_lib.SqlParser.Tokens.{
  lex_line, lex_block, lex_quote, lex_space, lex_close, lex_semicolon, lex_plain,
}

-- The statements that come out of tokens, behind what was written of the first.
abbrev out_of : Text → Bool → List Token → List Text
out_of cur pending ts =
    kept (trim (reverse (render cur pending (first_chunk ts)))) ++ each (later_chunks ts)

-- A literal is copied character by character.
out_of-copy_literal :
    (cs cur : Text)
    → out_of cur false (lex literal cs)
      ≡ out_of (copy_literal cs cur).1 false (lex code (copy_literal cs cur).0)
unfolding lex copy_literal first_chunk later_chunks render
out_of-copy_literal [] cur = refl
out_of-copy_literal (c ∷ []) cur = ground arith
out_of-copy_literal (c ∷ d ∷ cs) cur =
    ground (arith, out_of-copy_literal cs (d ∷ c ∷ cur), out_of-copy_literal (d ∷ cs) (c ∷ cur))

-- Behind a literal that is closed stands its quote.
abbrev Ready : Text → Text → Type 0
Ready cs cur = (cs ≡ []) ⊎ (head_is b' ' cur ≡ false)

copy_literal-Ready : (cs cur : Text) → Ready (copy_literal cs cur).0 (copy_literal cs cur).1
unfolding copy_literal
copy_literal-Ready [] cur = inl refl
copy_literal-Ready (c ∷ []) cur = inl refl
copy_literal-Ready (c ∷ d ∷ cs) cur =
    ground (arith, copy_literal-Ready cs (d ∷ c ∷ cur), copy_literal-Ready (d ∷ cs) (c ∷ cur))

-- A space at the end is trimmed.
drop_spaces-snoc :
    (t : Text)
    → (drop_spaces (t ++ b' ' ∷ []) ≡ drop_spaces t ++ b' ' ∷ [])
      ⊎ ((drop_spaces (t ++ b' ' ∷ []) ≡ []) × (drop_spaces t ≡ []))
unfolding drop_spaces is_space
drop_spaces-snoc [] = inr (refl, refl)
drop_spaces-snoc (c ∷ t) = ground (arith, drop_spaces-snoc t)

trim-snoc : (t : Text) → trim (t ++ b' ' ∷ []) ≡ trim t
unfolding trim
trim-snoc t = elim (drop_spaces-snoc t) [
  | inl e ↦ rw (e, reverse-append) (unfold drop_spaces is_space in refl)
  | inr (e, e') ↦ rw (e, e') refl
]

trim-pend : (p : Bool) (cur : Text) → trim (reverse (pend p cur)) ≡ trim (reverse cur)
trim-pend false cur = refl
trim-pend true [] = refl
trim-pend true (c ∷ cs) = elim (Bool-cases (spaced (c ∷ cs))) [
  | inl e ↦ rw e (rw (reverse-cons b' ' (c ∷ cs)) (trim-snoc _))
  | inr e ↦ rw e refl
]

push_space-pend :
    (p : Bool) (cur : Text) → head_is b' ' cur ≡ false → push_space (pend p cur) ≡ pend true cur
unfolding push_space
push_space-pend p [] h = ground arith
push_space-pend p (c ∷ cs) h = ground arith

pop_space-pend : (p : Bool) (cur : Text) → head_is b' ' cur ≡ false → pop_space (pend p cur) ≡ cur
unfolding pop_space
pop_space-pend p [] h = ground arith
pop_space-pend p (c ∷ cs) h = ground arith

keep_statement-kept : (t : Text) (out : List Text) → keep_statement t out ≡ out ++ kept t
unfolding keep_statement
keep_statement-kept [] out = sym (append-nil out)
keep_statement-kept (c ∷ cs) out = refl

-- What `flush` leaves, in the words of the reference.
flush-statements :
    (s : Scan) (p : Bool) (cur : Text)
    → s.current ≡ pend p cur
    → (flush s).statements ≡ s.statements ++ kept (trim (reverse cur))
unfolding flush
flush-statements s p cur e =
    keep_statement-kept (trim (reverse s.current)) s.statements
    ∙ ap (λ t. s.statements ++ kept t) (ap (λ t. trim (reverse t)) e ∙ trim-pend p cur)

abbrev final : Option Scan → Option (List Text)
final o = Option.map (λ t. (flush t).statements) o

solid : (c : ℕ) → is_space c ≡ false → (c == b' ') ≡ false
unfolding is_space
solid c h = ground arith

module _ (n : ℕ) where
  -- The loop with a text of this length at most left to read, `cur` written and a blank perhaps
  -- pending.
  abbrev Agrees : Text → Scan → Text → Bool → Type 0
  Agrees cs s cur p =
      length cs ≤ n
      → s.current ≡ pend p cur
      → Ready cs cur
      → final (scan cs s) ≡ some (s.statements ++ out_of cur p (lex code cs))

  module _ (later : (cs : Text) (s : Scan) (cur : Text) (p : Bool) → Agrees cs s cur p) (c : ℕ)
      (cs : Text) (s : Scan) (cur : Text) (p : Bool) (e : s.current ≡ pend p cur)
      (ready : head_is b' ' cur ≡ false) where
    -- What is to be shown of a round, where it leaves no more than stood behind its character.
    abbrev Round : Text × Scan → Type 0
    Round q =
        length q.0 ≤ n
        → final (scan q.0 q.1) ≡ some (s.statements ++ out_of cur p (lex code (c ∷ cs)))

    skips : (rest : Text) → lex code (c ∷ cs) ≡ lex code rest → Round (rest, s)
    skips rest t l =
        later rest s cur p l e (inr ready)
        ∙ ap (λ ts. some (s.statements ++ out_of cur p ts)) (sym t)

    writes :
        (rest current cur' : Text) (p' : Bool) (ts : List Token)
        → current ≡ pend p' cur'
        → lex code (c ∷ cs) ≡ ts
        → out_of cur' p' (lex code rest) ≡ out_of cur p ts
        → Ready rest cur'
        → Round (rest, record s { current = current })
    writes rest current cur' p' ts k t o r l =
        later rest (record s { current = current }) cur' p' l k r
        ∙ ap (λ l. some (s.statements ++ l)) (o ∙ ap (out_of cur p) (sym t))

    ends : (c == b';') ≡ true → Round (cs, flush s)
    unfolding render first_chunk later_chunks each statement
    ends t l =
        later cs (flush s) [] false l (unfold flush in refl) (inr refl)
        ∙ ap some (
            ap (λ a. a ++ out_of [] false (lex code cs)) (flush-statements s p cur e)
            ∙ append_assoc s.statements (kept (trim (reverse cur))) (out_of [] false (lex code cs))
            ∙ ap (λ ts. s.statements ++ out_of cur p ts) (sym (lex_semicolon c cs t)))

    copies : (c == b'\'') ≡ true → Round (with_literal s (copy_literal cs (c ∷ s.current)))
    unfolding render first_chunk later_chunks
    copies t =
        let (rest, current) = copy_literal cs (c ∷ s.current) in
        writes rest current current false (verbatim c ∷ lex literal cs) refl (lex_quote c cs t)
          (sym (out_of-copy_literal cs (c ∷ s.current))
            ∙ ap (λ k. out_of (c ∷ k) false (lex literal cs)) e)
          (copy_literal-Ready cs (c ∷ s.current))

    round_lem : Round (step c cs s)
    unfolding render first_chunk later_chunks
    round_lem =
        step_cases Round c cs s (λ t. skips (skip_line (c ∷ cs)) (lex_line c cs t))
          (λ t. skips (skip_block (drop_one cs)) (lex_block c cs t)) copies
          (λ t.
            writes cs (push_space s.current) cur true (blank ∷ lex code cs)
              (ap push_space e ∙ push_space-pend p cur ready) (lex_space c cs t) refl (inr ready))
          (λ t.
            writes cs (c ∷ pop_space s.current) (b')' ∷ cur) false (close ∷ lex code cs)
              (ap₂ (λ a r. a ∷ r) ((==_iff c b')').0 t)
                (ap pop_space e ∙ pop_space-pend p cur ready))
              (lex_close c cs t) refl (inr refl))
          ends
          (λ q sp pa l b se.
            writes cs (c ∷ s.current) (c ∷ pend p cur) false (plain c ∷ lex code cs)
              (ap (λ r. c ∷ r) e) (lex_plain c cs q sp pa l b se) refl (inr (solid c sp)))

scan-Agrees : (n : ℕ) (cs : Text) (s : Scan) (cur : Text) (p : Bool) → Agrees n cs s cur p
unfolding lex render first_chunk later_chunks each
scan-Agrees n [] s cur p l e ready =
    ap final (scan-nil s)
    ∙ ap some (flush-statements s p cur e ∙ ap (λ l. s.statements ++ l) (sym (append-nil _)))
scan-Agrees zero (c ∷ cs) s cur p l e ready = absurd (omega arith)
scan-Agrees (suc n) (c ∷ cs) s cur p l e (inl h) = cc
scan-Agrees (suc n) (c ∷ cs) s cur p l e (inr h) =
    ap final (scan-cons c cs s)
    ∙ round_lem n (scan-Agrees n) c cs s cur p e h (omega (arith, length-step-le c cs s))

-- `ParseStatements` ends on every text and returns what the reference says: the text without its
-- comments is cut at the semicolons that stand outside of literals, and of each part the blanks are
-- collapsed and its ends trimmed; empty parts are dropped.
pub parse_statements-reference : (sql : Text) → parse_statements sql ≡ some (reference sql)
unfolding parse_statements reference each statement
parse_statements-reference sql =
    scan-Agrees (length sql) sql initial [] false (omega arith) refl (inr refl)
