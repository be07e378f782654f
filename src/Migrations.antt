-- ===== src/Migrations.antt =====
-- include/database/migrations.h: `Migrate`. The file system and the connection pool are parameters;
-- a client of the pool is an executor, include/database/query_executor.h.
pub mod Sent
mod Tests
use postgres_cpp_lib.Base.{ℕ, Option, none, some, List, [], ◌∷◌}
use postgres_cpp_lib.Base.Texts.{Text, codes, Expected, value, unexpected}
use postgres_cpp_lib.Param.{make_pg_param_buffer}
use postgres_cpp_lib.SqlError.{SqlError, sql_file_error}
use postgres_cpp_lib.SqlParser.{parse_statements}
use postgres_cpp_lib.Transaction.{Executor}

-- `ConnectionError` is the pool's.
pub data ErrorVariant (ConnectionError : Type 0) : Type 0 where
  of_sql : SqlError → ErrorVariant ConnectionError
  of_connection : ConnectionError → ErrorVariant ConnectionError

-- A `migration_error` without a value means success.
abbrev pub MigrationError : Type 0 → Type 0
MigrationError ConnectionError = Option (ErrorVariant ConnectionError)

module _ {W : Type 0} {Table : Type 0} (x : Executor W Table) (per_us : ℕ) where
  open x use {send_to_worker}

  -- `client->execute(stmt)`, and the wait for its future.
  unfoldable pub execute_statement : Text → W → Expected Table SqlError × W
  execute_statement stmt w = send_to_worker (make_pg_param_buffer per_us stmt []) w

module _ {W : Type 0} {Table : Type 0} {ConnectionError : Type 0} where
  -- `if (auto result = future.get(); !result)`, and the rest of the loop.
  abbrev pub after_statement :
      Expected Table SqlError × W
      → (W → MigrationError ConnectionError × W)
      → MigrationError ConnectionError × W
  after_statement (value table, w) rest = rest w
  after_statement (unexpected err, w) rest = (some (of_sql err), w)

module _ {W : Type 0} {Table : Type 0} {ConnectionError : Type 0} (x : Executor W Table)
    (per_us : ℕ) where
  unfoldable pub execute_statements : List Text → W → MigrationError ConnectionError × W
  unfolding execute_statement
  execute_statements [] w = (none, w)
  execute_statements (stmt ∷ stmts) w =
      after_statement (execute_statement x per_us stmt w) (execute_statements stmts)

  -- Behind the reading of the file, with what the pool answered; `none` if the parser did not end.
  unfoldable pub with_client :
      Option (List Text)
      → Expected (Unit {0}) ConnectionError × W
      → Option (MigrationError ConnectionError × W)
  unfolding execute_statements
  with_client none acquired = none
  with_client (some statements) (unexpected err, w) = some (some (of_connection err), w)
  with_client (some statements) (value client, w) = some (execute_statements statements w)

  -- The text of the file, if it could be opened, and what `acquire` does.
  unfoldable pub migrate :
      Option Text
      → (W → Expected (Unit {0}) ConnectionError × W)
      → W
      → Option (MigrationError ConnectionError × W)
  unfolding with_client
  migrate none acquire w =
      some (some (of_sql (sql_file_error (codes "Failed to open sql file"))), w)
  migrate (some sql) acquire w = with_client (parse_statements sql) (acquire w)
