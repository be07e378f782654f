-- ===== src/Url/Settings.antt =====
-- How a connection URL is read: the settings stand behind its first question mark, with ampersands
-- between them, each a name, an equals sign and a value.
use postgres_cpp_lib.Base.{
  ℕ, ◌≡◌, refl, ap, ◌∙◌, arith, false, Option, List, [], ◌∷◌, ◌++◌, ◌==◌, if◌then◌else◌, if_elim,
}
use postgres_cpp_lib.Base.Texts.{Text}
use postgres_cpp_lib.Base.Decimal.{has, read_digits}

abbrev pub grow : ℕ → List Text → List Text
grow c [] = (c ∷ []) ∷ []
grow c (t ∷ ts) = (c ∷ t) ∷ ts

unfoldable pub split : Text → List Text
split [] = [] ∷ []
split (c ∷ cs) = let rest = split cs in if c == b'&' then [] ∷ rest else grow c rest

unfoldable pub nonempty : List Text → List Text
nonempty [] = []
nonempty ([] ∷ ts) = nonempty ts
nonempty ((c ∷ t) ∷ ts) = (c ∷ t) ∷ nonempty ts

-- The settings in a text behind the question mark.
unfoldable pub settings : Text → List Text
unfolding split nonempty
settings t = nonempty (split t)

unfoldable pub behind_question_mark : Text → Text
behind_question_mark [] = []
behind_question_mark (c ∷ cs) =
    let onward = behind_question_mark cs in if c == b'?' then cs else onward

abbrev pub settings_of : Text → List Text
settings_of url = settings (behind_question_mark url)

abbrev pub name_of : Text → Text
name_of [] = []
name_of (c ∷ cs) = let more = name_of cs in if c == b'=' then [] else c ∷ more

abbrev pub value_of : Text → Text
value_of [] = []
value_of (c ∷ cs) = let more = value_of cs in if c == b'=' then cs else more

-- A name, and the value as a number if it is one.
abbrev pub read_setting : Text → Text × Option ℕ
read_setting t = (name_of t, read_digits (value_of t) 0)

abbrev Starts : List Text → Type 0
Starts ts = (u : Text) × (us : List Text) × (ts ≡ u ∷ us)

grow-Starts : (c : ℕ) (ts : List Text) → Starts (grow c ts)
grow-Starts c [] = (c ∷ [], [], refl)
grow-Starts c (t ∷ ts) = (c ∷ t, ts, refl)

split-Starts : (t : Text) → Starts (split t)
unfolding split
split-Starts [] = ([], [], refl)
split-Starts (c ∷ cs) =
    if_elim Starts (c == b'&') (λ _. ([], split cs, refl)) (λ _. grow-Starts c (split cs))

grow-append : (c : ℕ) (ts us : List Text) → Starts ts → grow c (ts ++ us) ≡ grow c ts ++ us
grow-append c [] us (u, us', e) = cc
grow-append c (t ∷ ts) us h = refl

split-append : (xs ys : Text) → split (xs ++ b'&' ∷ ys) ≡ split xs ++ split ys
unfolding split
split-append [] ys = refl
split-append (c ∷ xs) ys =
    ground (arith, split-append xs ys, grow-append c (split xs) (split ys) (split-Starts xs))

nonempty-append : (ts us : List Text) → nonempty (ts ++ us) ≡ nonempty ts ++ nonempty us
unfolding nonempty
nonempty-append [] us = refl
nonempty-append ([] ∷ ts) us = nonempty-append ts us
nonempty-append ((c ∷ t) ∷ ts) us = ap (λ l. (c ∷ t) ∷ l) (nonempty-append ts us)

pub settings-append : (xs ys : Text) → settings (xs ++ b'&' ∷ ys) ≡ settings xs ++ settings ys
unfolding settings
settings-append xs ys = ap nonempty (split-append xs ys) ∙ nonempty-append (split xs) (split ys)

split-single : (t : Text) → has b'&' t ≡ false → split t ≡ t ∷ []
unfolding split
split-single [] h = refl
split-single (c ∷ cs) h = ground (arith, split-single cs)

pub settings-single :
    (c : ℕ) (t : Text) → has b'&' (c ∷ t) ≡ false → settings (c ∷ t) ≡ (c ∷ t) ∷ []
unfolding settings nonempty
settings-single c t h = ap nonempty (split-single (c ∷ t) h)

pub behind_question_mark-append :
    (path rest : Text) → has b'?' path ≡ false → behind_question_mark (path ++ b'?' ∷ rest) ≡ rest
unfolding behind_question_mark
behind_question_mark-append [] rest h = refl
behind_question_mark-append (c ∷ path) rest h =
    ground (arith, behind_question_mark-append path rest)

pub behind_question_mark-none : (t : Text) → has b'?' t ≡ false → behind_question_mark t ≡ []
unfolding behind_question_mark
behind_question_mark-none [] h = refl
behind_question_mark-none (c ∷ cs) h = ground (arith, behind_question_mark-none cs)
