-- ===== src/Migrations/Tests.antt =====
-- A migration of two statements.
use postgres_cpp_lib.Base.{ℕ, ◌≡◌, refl, some, List, [], ◌∷◌, ◌++◌}
use postgres_cpp_lib.Base.Texts.{Text, codes, Expected, value}
use postgres_cpp_lib.SqlParser.{parse_statements}
use postgres_cpp_lib.Transaction.{Executor}
use postgres_cpp_lib.Transaction.Script.{Logs}
use postgres_cpp_lib.Migrations.{MigrationError, migrate}
use postgres_cpp_lib.Migrations.Sent.{Migrated, migrate-Migrated}

abbrev recorder : Executor (List Text) ℕ
recorder = record {
  send_to_worker = λ d w. (value 1, w ++ d.query ∷ []);
  enqueue_async = λ d w. w ++ d.query ∷ [];
}

abbrev sent : List Text → List Text
sent w = w

abbrev recorder_logs : Logs recorder sent
recorder_logs = record { sends = λ d w. refl; enqueues = λ d w. refl }

abbrev acquire : List Text → Expected (Unit {0}) ℕ × List Text
acquire w = (value tt, w)

abbrev script : Text
script = codes "CREATE TABLE t (id INT); INSERT INTO t VALUES (1);"

migrate-Migrated_example :
    (stmts : List Text) × (e : MigrationError ℕ) × (w' : List Text) × (parse_statements script
      ≡ some stmts)
    × (migrate recorder 1000 (some script) acquire [] ≡ some (e, w'))
    × Migrated ℕ recorder 1000 sent stmts [] e w'
migrate-Migrated_example =
    migrate-Migrated ℕ recorder 1000 sent recorder_logs script acquire [] [] refl
