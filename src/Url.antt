-- ===== src/Url.antt =====
-- include/database/postgres_client.h: `PGOptions` and `GetDatabaseUrl`. The environment variable
-- POSTGRES_DB_URL is an argument, `none` where it is not set.
pub mod Settings
pub mod Appended
mod Tests
use postgres_cpp_lib.Base.{
  ℕ, Bool, true, false, ◌||◌, Option, none, some, List, [], ◌∷◌, ◌++◌, ◌==◌, if◌then◌else◌,
}
use postgres_cpp_lib.Base.Texts.{Text, codes}
use postgres_cpp_lib.Base.Decimal.{to_string}

pub record PgOptions : Type 0 where
  pub keepalive : Bool
  pub keepalive_count : ℕ
  pub keepalive_interval : ℕ
  pub keepalive_idle : ℕ

-- The default member initializers.
unfoldable pub default_options : PgOptions
default_options = record {
  keepalive = true;
  keepalive_count = 5;
  keepalive_interval = 10;
  keepalive_idle = 30;
}

-- `std::string::back`; it is called on no empty text.
abbrev pub back : Text → ℕ
back [] = 0
back (c ∷ []) = c
back (c ∷ d ∷ cs) = back (d ∷ cs)

-- What `std::to_string` is given for a bool.
abbrev pub number_of : Bool → ℕ
number_of true = 1
number_of false = 0

-- The text behind the URL.
unfoldable pub keepalive_params : PgOptions → Text
unfolding to_string
keepalive_params o =
    codes "keepalives="
    ++ (to_string (number_of o.keepalive)
        ++ (codes "&keepalives_idle="
            ++ (to_string o.keepalive_idle
                ++ (codes "&keepalives_interval="
                    ++ (to_string o.keepalive_interval
                        ++ (codes "&keepalives_count=" ++ to_string o.keepalive_count))))))

unfoldable pub with_options : Option PgOptions → Text → Text
unfolding keepalive_params
with_options none db_url = db_url
with_options (some o) db_url =
    let body = db_url ++ (if back db_url == b'?' || back db_url == b'&' then [] else codes "&") in
    body ++ keepalive_params o

unfoldable pub get_database_url : Option Text → Option PgOptions → Option Text
unfolding with_options
get_database_url none options = none
get_database_url (some []) options = none
get_database_url (some (c ∷ cs)) options = some (with_options options (c ∷ cs))
