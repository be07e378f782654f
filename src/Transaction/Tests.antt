-- ===== src/Transaction/Tests.antt =====
-- Transactions over an executor that writes down what it is told.
use postgres_cpp_lib.Base.{ℕ, ◌≡◌, refl, true, none, some, List, [], ◌∷◌, ◌++◌}
use postgres_cpp_lib.Base.Texts.{Text, codes, value, unexpected}
use postgres_cpp_lib.Param.{PgParamDetail, pg_param_detail}
use postgres_cpp_lib.SqlError.{SqlError, query_failed}
use postgres_cpp_lib.Transaction.State.{TransactionState}
use postgres_cpp_lib.Transaction.{
  Executor, Transaction, transaction, move, execute, execute_async, commit, rollback, destroy,
  create_transaction,
}
use postgres_cpp_lib.Transaction.Threads.{
  query, ends, Shared, fresh, execute_locked, finish_locked, executes as runs,
  commits as wins_commit, rolls_back as loses_rollback, sends, Reach, here, later, EndsOnce,
  Reach-EndsOnce,
}
use postgres_cpp_lib.Transaction.Finished.{move_lem}
use postgres_cpp_lib.Transaction.Script.{
  Op, executes, executes_async, commits, rolls_back, Logs, script, live, live-script, begun,
  begin_script, create_transaction_lem,
}

abbrev recorder : Executor (List Text) ℕ
recorder = record {
  send_to_worker = λ d w. (value 1, w ++ d.query ∷ []);
  enqueue_async = λ d w. w ++ d.query ∷ [];
}

abbrev said : List Text → List Text
said w = w

abbrev recorder_logs : Logs recorder said
recorder_logs = record { sends = λ d w. refl; enqueues = λ d w. refl }

abbrev refusal : SqlError
refusal = query_failed (codes "connection lost")

-- An executor that answers every command with an error.
abbrev broken : Executor (List Text) ℕ
broken = record {
  send_to_worker = λ d w. (unexpected refusal, w ++ d.query ∷ []);
  enqueue_async = λ d w. w ++ d.query ∷ [];
}

abbrev broken_logs : Logs broken said
broken_logs = record { sends = λ d w. refl; enqueues = λ d w. refl }

abbrev running : Transaction
running = record { has_executor = true; state = TransactionState.active }

abbrev insert_one : PgParamDetail
insert_one = pg_param_detail (codes "INSERT INTO t VALUES (1)") 0

abbrev committed : Transaction
committed = record { has_executor = true; state = TransactionState.commit }

abbrev calls : List Op
calls =
    executes insert_one
    ∷ executes_async insert_one
    ∷ commits
    ∷ executes insert_one
    ∷ rolls_back
    ∷ []

calls-script :
    script calls
    ≡ codes "INSERT INTO t VALUES (1)" ∷ codes "INSERT INTO t VALUES (1)" ∷ codes "COMMIT" ∷ []
unfolding script pg_param_detail
calls-script = refl

-- A failed BEGIN is followed by a ROLLBACK.
begin_failed : create_transaction broken [] ≡ some (none, codes "BEGIN" ∷ codes "ROLLBACK" ∷ [])
unfolding create_transaction pg_param_detail
begin_failed = refl

move_lem_example :
    ((move running).0 ≡ running)
    × (destroy recorder (move running).1 [] ≡ [])
    × (execute recorder (move running).1 insert_one [] ≡ none)
    × (execute_async recorder (move running).1 insert_one [] ≡ none)
    × (commit recorder (move running).1 [] ≡ none)
    × (rollback recorder (move running).1 [] ≡ none)
move_lem_example = move_lem recorder running insert_one [] refl

live-script_example :
    (w' : List Text) × (live recorder calls (some (transaction, [])) ≡ some w')
    × (said w' ≡ said [] ++ script calls)
live-script_example = live-script recorder said recorder_logs calls []

create_transaction_lem_example :
    (w'' : List Text) × (create_transaction broken []
      ≡ some (begun {Table = ℕ} (unexpected refusal), w''))
    × (said w'' ≡ said [] ++ begin_script {Table = ℕ} (unexpected refusal))
unfolding pg_param_detail
create_transaction_lem_example =
    create_transaction_lem broken said broken_logs (unexpected refusal) [] (codes "BEGIN" ∷ []) refl

-- A query, and then a commit and a rollback at once: the commit wins, and a late query is refused.
abbrev raced : Shared
raced = record {
  txn = committed;
  leaving = [];
  sent = query (codes "SELECT 1") ∷ ends TransactionState.commit ∷ [];
}

raced-Reach : Reach raced
unfolding fresh transaction execute_locked finish_locked
raced-Reach =
    later
      (later (later (later (later here (runs (codes "SELECT 1"))) wins_commit) loses_rollback)
        (runs (codes "SELECT 2")))
      (sends [] [] (ends TransactionState.commit) refl)

Reach-EndsOnce_example : EndsOnce raced
Reach-EndsOnce_example = Reach-EndsOnce raced-Reach
