-- ===== src/SqlParser/Replay.antt =====
-- Statements in normal form, printed and read by `ParseStatements`.
use mathlib.Core.List.{reverse-append, reverse-reverse}
use postgres_cpp_lib.Base.{
  ℕ, ◌≡◌, refl, sym, ap, ◌∙◌, arith, Bool, true, false, not, ◌&&◌, ◌||◌, some, List, [], ◌∷◌, ◌++◌,
  reverse, append-nil, append_assoc, ◌==◌, All,
}
use postgres_cpp_lib.SqlParser.{
  Text, Scan, head_is, flush, is_space, push_space, pop_space, keep_statement, step, scan,
  parse_statements, trim, drop_spaces,
}
use postgres_cpp_lib.SqlParser.Steps.{scan-cons, scan-nil, parse_statements-eq}
use postgres_cpp_lib.SqlParser.Tidy.{may_space, starts_solid, drop_spaces-solid}
use postgres_cpp_lib.SqlParser.Comments.{is_escaped, scan_literal, reverse-cons-append}

-- Neither a quote nor white space, `)` or `;`, and no comment starts here.
unfoldable pub is_plain : ℕ → Text → Bool
unfolding is_space
is_plain c cs =
    not (c == b'\'' || is_space c || c == b')' || c == b';')
    && not (c == b'-' && head_is b'-' cs)
    && not (c == b'/' && head_is b'*' cs)

-- The second text can follow the first (its last character first) as it stands.
pub data Verbatim : Text → Text → Type 0 where
  done : {cur : Text} → Verbatim cur []
  plain :
      {cur cs : Text} (c : ℕ) → is_plain c cs ≡ true → Verbatim (c ∷ cur) cs → Verbatim cur (c ∷ cs)
  blank :
      {cur cs : Text} → may_space cur ≡ true → Verbatim (b' ' ∷ cur) cs → Verbatim cur (b' ' ∷ cs)
  close :
      {cur cs : Text}
      → head_is b' ' cur ≡ false
      → Verbatim (b')' ∷ cur) cs
      → Verbatim cur (b')' ∷ cs)
  literal :
      {cur cs : Text} (body rest : Text)
      → cs ≡ b'\'' ∷ (body ++ b'\'' ∷ rest)
      → is_escaped body ≡ true
      → head_is b'\'' rest ≡ false
      → Verbatim (reverse (b'\'' ∷ (body ++ b'\'' ∷ [])) ++ cur) rest
      → Verbatim cur cs

abbrev with_current : Scan → Text → Scan
with_current s cur = record s { current = cur }

step_plain :
    (c : ℕ) (cs : Text) (s : Scan)
    → is_plain c cs ≡ true
    → step c cs s ≡ (cs, with_current s (c ∷ s.current))
unfolding step is_plain
step_plain c cs s h = ground arith

head_is-append :
    (d : ℕ) (cs more : Text) → (d == b';') ≡ false → head_is d (cs ++ b';' ∷ more) ≡ head_is d cs
head_is-append d [] more h = ground arith
head_is-append d (c ∷ cs) more h = refl

is_plain-append :
    (c : ℕ) (cs more : Text) → is_plain c cs ≡ true → is_plain c (cs ++ b';' ∷ more) ≡ true
unfolding is_plain
is_plain-append c [] more h = ground arith
is_plain-append c (d ∷ cs) more h = h

step_blank :
    (cs : Text) (s : Scan)
    → may_space s.current ≡ true
    → step b' ' cs s ≡ (cs, with_current s (b' ' ∷ s.current))
unfolding step is_space
step_blank cs s h = ap (λ cur. (cs, with_current s cur)) (pushed s.current h)
  where
    pushed : (cur : Text) → may_space cur ≡ true → push_space cur ≡ b' ' ∷ cur
    pushed [] h = unfold may_space in cc
    pushed (c ∷ cur) h = unfold may_space push_space in ground arith

step_close :
    (cs : Text) (s : Scan)
    → head_is b' ' s.current ≡ false
    → step b')' cs s ≡ (cs, with_current s (b')' ∷ s.current))
unfolding step is_space
step_close cs s h = ap (λ cur. (cs, with_current s (b')' ∷ cur))) (popped s.current h)
  where
    popped : (cur : Text) → head_is b' ' cur ≡ false → pop_space cur ≡ cur
    popped [] h = unfold pop_space in refl
    popped (c ∷ cur) h = unfold pop_space in ground arith

-- Such a text is appended to `current` unchanged.
pub scan-Verbatim :
    (out : List Text) (cur t more : Text)
    → Verbatim cur t
    → scan (t ++ b';' ∷ more) (record { statements = out; current = cur })
      ≡ scan (b';' ∷ more) (record { statements = out; current = reverse t ++ cur })
scan-Verbatim out cur t more done = refl
scan-Verbatim out cur t more (plain {cs = cs} c h v) =
    scan-cons _ _ _
    ∙ rw
        (
          step_plain c (cs ++ b';' ∷ more) (record { statements = out; current = cur })
              (is_plain-append c cs more h),
          reverse-cons-append c cs cur,
        )
        (scan-Verbatim out (c ∷ cur) cs more v)
scan-Verbatim out cur t more (blank {cs = cs} h v) =
    scan-cons _ _ _
    ∙ rw
        (
          step_blank (cs ++ b';' ∷ more) (record { statements = out; current = cur }) h,
          reverse-cons-append b' ' cs cur,
        )
        (scan-Verbatim out (b' ' ∷ cur) cs more v)
scan-Verbatim out cur t more (close {cs = cs} h v) =
    scan-cons _ _ _
    ∙ rw
        (
          step_close (cs ++ b';' ∷ more) (record { statements = out; current = cur }) h,
          reverse-cons-append b')' cs cur,
        )
        (scan-Verbatim out (b')' ∷ cur) cs more v)
scan-Verbatim out cur t more (literal body rest e h k v) =
    rw (e, append_assoc body (b'\'' ∷ rest) (b';' ∷ more))
      (scan_literal body (rest ++ b';' ∷ more) (record { statements = out; current = cur }) h
          (head_is-append b'\'' rest more refl ∙ k)
        ∙ scan-Verbatim out _ rest more v
        ∙ ap (λ c. scan (b';' ∷ more) (record { statements = out; current = c })) whole)
  where
    whole :
        reverse rest ++ (reverse (b'\'' ∷ (body ++ b'\'' ∷ [])) ++ cur)
        ≡ reverse (b'\'' ∷ (body ++ b'\'' ∷ rest)) ++ cur
    whole =
        sym (append_assoc (reverse rest) _ cur)
        ∙ ap (λ r. r ++ cur)
            (sym (reverse-append (b'\'' ∷ (body ++ b'\'' ∷ [])) rest)
              ∙ ap (λ b. reverse (b'\'' ∷ b)) (append_assoc body (b'\'' ∷ []) rest))

-- A statement as `ParseStatements` writes them, with no comment mark outside of its literals, and with
-- every literal closed.
pub record IsNormal (t : Text) : Type 0 where
  pub verbatim : Verbatim [] t
  pub first_solid : starts_solid t ≡ true
  pub last_solid : starts_solid (reverse t) ≡ true

-- Each statement with its semicolon.
unfoldable pub print : List Text → Text
print [] = []
print (t ∷ ts) = t ++ b';' ∷ print ts

trim-IsNormal : (t : Text) → IsNormal t → trim t ≡ t
unfolding trim
trim-IsNormal t n =
    rw (drop_spaces-solid t n.first_solid, drop_spaces-solid (reverse t) n.last_solid)
      (reverse-reverse t)

keep_statement-solid :
    (t : Text) (out : List Text) → starts_solid t ≡ true → keep_statement t out ≡ out ++ t ∷ []
unfolding keep_statement
keep_statement-solid [] out h = unfold starts_solid in cc
keep_statement-solid (c ∷ cs) out h = refl

flush-IsNormal :
    (out : List Text) (t : Text)
    → IsNormal t
    → flush (record { statements = out; current = reverse t ++ [] })
      ≡ record { statements = out ++ t ∷ []; current = [] }
unfolding flush
flush-IsNormal out t n =
    rw (append-nil (reverse t), reverse-reverse t, trim-IsNormal t n)
      (ap (λ l. record { statements = l; current = [] }) (keep_statement-solid t out n.first_solid))

scan-print :
    (out ts : List Text)
    → All IsNormal ts
    → scan (print ts) (record { statements = out; current = [] })
      ≡ some (record { statements = out ++ ts; current = [] })
unfolding print step is_space
scan-print out [] h = rw (append-nil out) (scan-nil _)
scan-print out (t ∷ ts) (n, h) =
    scan-Verbatim out [] t (print ts) n.verbatim
    ∙ scan-cons b';' (print ts) _
    ∙ ap (scan (print ts)) (flush-IsNormal out t n)
    ∙ scan-print (out ++ t ∷ []) ts h
    ∙ ap (λ l. some (record { statements = l; current = [] })) (append_assoc out (t ∷ []) ts)

-- The round trip: statements in normal form, with no comment mark outside of their literals and with
-- every literal closed, each printed with a semicolon behind it, are read back as the same list.
pub parse_statements-print :
    (ts : List Text) → All IsNormal ts → parse_statements (print ts) ≡ some ts
parse_statements-print ts h =
    parse_statements-eq _ _ (scan-print [] ts h)
    ∙ unfold flush trim drop_spaces keep_statement in refl
