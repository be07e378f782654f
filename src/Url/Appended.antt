-- ===== src/Url/Appended.antt =====
-- How the URL that `GetDatabaseUrl` returns is read.
use mathlib.Core.List.{map-append}
use postgres_cpp_lib.Base.{
  ℕ, ◌≡◌, refl, sym, ap, ap₂, ◌∙◌, inl, inr, arith, true, false, ◌||◌, Bool-cases, ==_iff, Option,
  some, List, [], ◌∷◌, ◌++◌, map, ◌==◌, if◌then◌else◌, if_elim, append_assoc, append-nil, length,
  length-append, ◌<◌,
}
use postgres_cpp_lib.Base.Texts.{Text, codes}
use postgres_cpp_lib.Base.Decimal.{
  has, has_neither, has-append, to_string, has-to_string, read_digits, read_digits-to_string,
}
use postgres_cpp_lib.Url.{
  PgOptions, back, number_of, keepalive_params, with_options, get_database_url,
}
use postgres_cpp_lib.Url.Settings.{
  settings, settings-append, settings-single, behind_question_mark, behind_question_mark-append,
  behind_question_mark-none, settings_of, read_setting, split, nonempty, name_of, value_of,
}

-- The options by name.
abbrev pub options_of : PgOptions → List (Text × Option ℕ)
options_of o =
    (codes "keepalives", some (number_of o.keepalive))
    ∷ (codes "keepalives_idle", some o.keepalive_idle)
    ∷ (codes "keepalives_interval", some o.keepalive_interval)
    ∷ (codes "keepalives_count", some o.keepalive_count)
    ∷ []

abbrev read_all : Text → List (Text × Option ℕ)
read_all t = map read_setting (settings t)

read_all-append : (xs ys : Text) → read_all (xs ++ b'&' ∷ ys) ≡ read_all xs ++ read_all ys
read_all-append xs ys =
    ap (map read_setting) (settings-append xs ys)
    ∙ map-append read_setting (settings xs) (settings ys)

no_ampersand : (n : ℕ) → has b'&' (to_string n) ≡ false
no_ampersand n = has-to_string b'&' n refl

name_of-param : (name v : Text) → has b'=' name ≡ false → name_of (name ++ b'=' ∷ v) ≡ name
name_of-param [] v h = refl
name_of-param (c ∷ name) v h = ground (arith, name_of-param name v)

value_of-param : (name v : Text) → has b'=' name ≡ false → value_of (name ++ b'=' ∷ v) ≡ v
value_of-param [] v h = refl
value_of-param (c ∷ name) v h = ground (arith, value_of-param name v)

settings-param :
    (name v : Text)
    → has b'&' name ≡ false
    → has b'&' v ≡ false
    → settings (name ++ b'=' ∷ v) ≡ (name ++ b'=' ∷ v) ∷ []
settings-param [] v h k = settings-single b'=' v k
settings-param (c ∷ name) v h k =
    settings-single c (name ++ b'=' ∷ v) (has-append b'&' (c ∷ name) (b'=' ∷ v) ∙ rw h k)

-- One setting that was printed is read back.
read_all-param :
    (name : Text) (n : ℕ)
    → has b'&' name ≡ false
    → has b'=' name ≡ false
    → read_all (name ++ b'=' ∷ to_string n) ≡ (name, some n) ∷ []
read_all-param name n h e =
    ap (map read_setting) (settings-param name (to_string n) h (no_ampersand n))
    ∙ ap₂ (λ a v. (a, read_digits v 0) ∷ []) (name_of-param name (to_string n) e)
        (value_of-param name (to_string n) e)
    ∙ ap (λ r. (name, r) ∷ []) (read_digits-to_string n)

-- The same with more settings behind it.
read_all-param_and :
    (name : Text) (n : ℕ) (more : Text) {l : List (Text × Option ℕ)}
    → has b'&' name ≡ false
    → has b'=' name ≡ false
    → read_all more ≡ l
    → read_all (name ++ b'=' ∷ (to_string n ++ b'&' ∷ more)) ≡ (name, some n) ∷ l
read_all-param_and name n more h e r =
    ap read_all (sym (append_assoc name (b'=' ∷ to_string n) (b'&' ∷ more)))
    ∙ read_all-append (name ++ b'=' ∷ to_string n) more
    ∙ ap₂ (λ k l. k ++ l) (read_all-param name n h e) r

read_all-keepalive_params : (o : PgOptions) → read_all (keepalive_params o) ≡ options_of o
unfolding keepalive_params
read_all-keepalive_params o =
    read_all-param_and (codes "keepalives") (number_of o.keepalive) _ refl refl (
      read_all-param_and (codes "keepalives_idle") o.keepalive_idle _ refl refl (
        read_all-param_and (codes "keepalives_interval") o.keepalive_interval _ refl refl
          (read_all-param (codes "keepalives_count") o.keepalive_count refl refl)))

-- `back` of what stands at the end.
back-append : (xs : Text) (y : ℕ) (ys : Text) → back (xs ++ y ∷ ys) ≡ back (y ∷ ys)
back-append [] y ys = refl
back-append (x ∷ []) y ys = refl
back-append (x ∷ x' ∷ xs) y ys = back-append (x' ∷ xs) y ys

back_differs : (d c : ℕ) (cs : Text) → has d (c ∷ cs) ≡ false → (back (c ∷ cs) == d) ≡ false
back_differs d c [] h = ground arith
back_differs d c (c' ∷ cs) h = back_differs d c' cs (ground arith)

-- A text that ends in an ampersand.
back_ampersand :
    (c : ℕ) (cs : Text) → (back (c ∷ cs) == b'&') ≡ true → (xs : Text) × (c ∷ cs ≡ xs ++ b'&' ∷ [])
back_ampersand c [] h = ([], ap (λ d. d ∷ []) ((==_iff c b'&').0 h))
back_ampersand c (c' ∷ cs) h = let (xs, e) = back_ampersand c' cs h in (c ∷ xs, ap (λ t. c ∷ t) e)

-- What the separator does for the settings that stand there.
abbrev separator_for : ℕ → Text
separator_for c = if c == b'?' || c == b'&' then [] else codes "&"

abbrev separator : Text → Text
separator t = separator_for (back t)

read_all-separator :
    (params more : Text)
    → has b'?' params ≡ false
    → read_all (params ++ (separator (b'?' ∷ params) ++ more)) ≡ read_all params ++ read_all more
unfolding settings split nonempty
read_all-separator [] more h = refl
read_all-separator (c ∷ cs) more h = elim (Bool-cases (back (c ∷ cs) == b'&')) [
  | inl amp ↦
      let (xs, e) = back_ampersand c cs amp in
      rw (back_differs b'?' c cs h, amp)
        (ap (λ t. read_all (t ++ more)) e
          ∙ ap read_all (append_assoc xs (b'&' ∷ []) more)
          ∙ read_all-append xs more
          ∙ ap (λ l. l ++ read_all more)
              (sym (append-nil (read_all xs)) ∙ sym (read_all-append xs []) ∙ ap read_all (sym e)))
  | inr other ↦ rw (back_differs b'?' c cs h, other) (read_all-append (c ∷ cs) more)
]

get_database_url-some :
    (t : Text) (options : Option PgOptions)
    → 0 < length t
    → get_database_url (some t) options ≡ some (with_options options t)
unfolding get_database_url
get_database_url-some [] options h = absurd (omega arith)
get_database_url-some (c ∷ cs) options h = refl

behind_options :
    (o : PgOptions) (path params : Text)
    → has b'?' path ≡ false
    → behind_question_mark (with_options (some o) (path ++ b'?' ∷ params))
      ≡ params ++ (separator (b'?' ∷ params) ++ keepalive_params o)
unfolding with_options
behind_options o path params h =
    ap
      (λ c.
        behind_question_mark (((path ++ b'?' ∷ params) ++ separator_for c) ++ keepalive_params o))
      (back-append path b'?' params)
    ∙ ap behind_question_mark (
        append_assoc (path ++ b'?' ∷ params) (separator (b'?' ∷ params)) (keepalive_params o)
        ∙ append_assoc path (b'?' ∷ params) (separator (b'?' ∷ params) ++ keepalive_params o))
    ∙ behind_question_mark-append path (params ++ (separator (b'?' ∷ params) ++ keepalive_params o))
        h

has-keepalive_params : (o : PgOptions) → has b'?' (keepalive_params o) ≡ false
unfolding keepalive_params
has-keepalive_params o =
    let none_in = λ (n : ℕ). has-to_string b'?' n refl in
    has_neither b'?' (to_string (number_of o.keepalive)) _ (none_in (number_of o.keepalive)) (
      has_neither b'?' (to_string o.keepalive_idle) _ (none_in o.keepalive_idle) (
        has_neither b'?' (to_string o.keepalive_interval) _ (none_in o.keepalive_interval)
          (none_in o.keepalive_count)))

no_question_mark :
    (o : PgOptions) (db_url : Text)
    → has b'?' db_url ≡ false
    → has b'?' (with_options (some o) db_url) ≡ false
unfolding with_options
no_question_mark o db_url h =
    has_neither b'?' (db_url ++ separator db_url) (keepalive_params o)
      (has_neither b'?' db_url (separator db_url) h (
        if_elim (λ t. has b'?' t ≡ false) (back db_url == b'?' || back db_url == b'&') (λ _. refl)
          (λ _. refl)))
      (has-keepalive_params o)

-- With options, `GetDatabaseUrl` appends them to the settings of the URL in the environment: who reads
-- the settings behind its question mark finds those that stand there, and then the four options by
-- name, each with its number.
pub get_database_url-appends :
    (o : PgOptions) (path params : Text)
    → has b'?' path ≡ false
    → has b'?' params ≡ false
    → (url : Text) × (get_database_url (some (path ++ b'?' ∷ params)) (some o) ≡ some url)
      × (map read_setting (settings_of url) ≡ map read_setting (settings params) ++ options_of o)
get_database_url-appends o path params h k =
    let t = path ++ b'?' ∷ params in
    (
      with_options (some o) t,
      get_database_url-some t (some o) (omega (arith, length-append path (b'?' ∷ params))),
      ap (map read_setting) (ap settings (behind_options o path params h))
          ∙ read_all-separator params (keepalive_params o) k
          ∙ ap (λ l. read_all params ++ l) (read_all-keepalive_params o),
    )

-- A URL in the environment that has no question mark gets none: who reads it finds no settings, and
-- the options are lost.
pub get_database_url-loses :
    (o : PgOptions) (db_url : Text)
    → has b'?' db_url ≡ false
    → 0 < length db_url
    → (url : Text) × (get_database_url (some db_url) (some o) ≡ some url) × (settings_of url ≡ [])
unfolding settings split nonempty
get_database_url-loses o db_url h n = (
  with_options (some o) db_url,
  get_database_url-some db_url (some o) n,
  ap settings
      (behind_question_mark-none (with_options (some o) db_url) (no_question_mark o db_url h)),
)
