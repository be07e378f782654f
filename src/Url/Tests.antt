-- ===== src/Url/Tests.antt =====
-- URLs from the environment, and the theorems at them.
use postgres_cpp_lib.Base.{◌≡◌, refl, arith, none, some, [], ◌∷◌, ◌++◌, map}
use postgres_cpp_lib.Base.Texts.{Text, codes}
use postgres_cpp_lib.Base.Decimal.{low_digits, to_string}
use postgres_cpp_lib.Url.{default_options, keepalive_params, with_options, get_database_url}
use postgres_cpp_lib.Url.Settings.{settings, settings_of, read_setting}
use postgres_cpp_lib.Url.Appended.{options_of, get_database_url-appends, get_database_url-loses}

default_url :
    get_database_url (some (codes "postgres://u@h/db?sslmode=require")) (some default_options)
    ≡ some (
        codes
          "postgres://u@h/db?sslmode=require&keepalives=1&keepalives_idle=30&keepalives_interval=10&keepalives_count=5")
unfolding get_database_url with_options keepalive_params to_string low_digits default_options
default_url = refl

unset_url : get_database_url (some []) (some default_options) ≡ none
unfolding get_database_url
unset_url = refl

get_database_url-appends_example :
    (url : Text) × (get_database_url
        (some (codes "postgres://u@h/db" ++ b'?' ∷ codes "sslmode=require"))
        (some default_options)
      ≡ some url)
    × (map read_setting (settings_of url)
        ≡ map read_setting (settings (codes "sslmode=require")) ++ options_of default_options)
get_database_url-appends_example =
    get_database_url-appends default_options (codes "postgres://u@h/db") (codes "sslmode=require")
      refl refl

get_database_url-loses_example :
    (url : Text) × (get_database_url (some (codes "postgres://u@h/db")) (some default_options)
      ≡ some url)
    × (settings_of url ≡ [])
get_database_url-loses_example =
    get_database_url-loses default_options (codes "postgres://u@h/db") refl (omega arith)
