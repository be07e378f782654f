-- ===== src/Transaction.antt =====
-- src/transaction.cpp and include/database/transaction.h, and `create_transaction` of
-- src/postgres_pub.cpp. Each method holds the mutex up to its last look at the state, so it is one
-- step of the transaction. A call through a null executor is a fault, `none`.
pub mod State
pub mod Finished
pub mod Script
pub mod Threads
mod Tests
use postgres_cpp_lib.Base.{
  Bool, true, false, not, ◌||◌, Option, none, some, List, [], ◌∷◌, if◌then◌else◌,
}
use postgres_cpp_lib.Base.Texts.{Text, codes, Expected, value, unexpected}
use postgres_cpp_lib.Param.{PgParamDetail, pg_param_detail}
use postgres_cpp_lib.SqlError.{SqlError, transaction_rolled_back}
use State.{TransactionState}

-- The executor, include/database/query_executor.h: what it is told, and the answer that the future
-- of `SendToWorker` holds. `W` is the world that it acts on and `Table` what a query returns.
pub record Executor (W : Type 0) (Table : Type 0) : Type 0 where
  pub send_to_worker : PgParamDetail → W → Expected Table SqlError × W
  pub enqueue_async : PgParamDetail → W → W

-- `m_executor` is null or the one executor; the executor itself is an argument of the methods.
pub record Transaction : Type 0 where
  pub has_executor : Bool
  pub state : TransactionState

unfoldable pub transaction : Transaction
transaction = record { has_executor = true; state = TransactionState.active }

abbrev pub is_active : TransactionState → Bool
is_active TransactionState.active = true
is_active TransactionState.commit = false
is_active TransactionState.rollback = false

-- The move constructor: the new transaction and what is left of the old one.
unfoldable pub move : Transaction → Transaction × Transaction
move other = (other, record other { has_executor = false })

-- What a caller of `execute_async` sees at once: `on_error` is called, or the query is queued.
pub data Submitted : Type 0 where
  refused : SqlError → Submitted
  queued : Submitted

module _ {W : Type 0} {Table : Type 0} (x : Executor W Table) where
  open x use {send_to_worker, enqueue_async}

  unfoldable pub execute : Transaction → PgParamDetail → W → Option (Expected Table SqlError × W)
  execute t detail w =
      if not (is_active t.state)
      then some (unexpected transaction_rolled_back, w)
      else if t.has_executor
      then some (send_to_worker detail w)
      else none

  unfoldable pub execute_async : Transaction → PgParamDetail → W → Option (Submitted × W)
  execute_async t detail w =
      if not (is_active t.state)
      then some (refused transaction_rolled_back, w)
      else if t.has_executor
      then some (queued, enqueue_async detail w)
      else none

  unfoldable pub commit : Transaction → W → Option (Transaction × W)
  commit t w =
      if not (is_active t.state)
      then some (t, w)
      else if t.has_executor
      then some (
        record t { state = TransactionState.commit },
        (send_to_worker (pg_param_detail (codes "COMMIT") 0) w).1,
      )
      else none

  unfoldable pub rollback : Transaction → W → Option (Transaction × W)
  rollback t w =
      if not (is_active t.state)
      then some (t, w)
      else if t.has_executor
      then some (
        record t { state = TransactionState.rollback },
        (send_to_worker (pg_param_detail (codes "ROLLBACK") 0) w).1,
      )
      else none

  -- The destructor.
  unfoldable pub destroy : Transaction → W → W
  destroy t w =
      if not (is_active t.state) || not t.has_executor
      then w
      else (send_to_worker (pg_param_detail (codes "ROLLBACK") 0) w).1

  -- A failed BEGIN returns null, and the transaction is destroyed on the way out.
  unfoldable pub after_begin :
      Transaction → Option (Expected Table SqlError × W) → Option (Option Transaction × W)
  after_begin txn none = none
  after_begin txn (some (value table, w)) = some (some txn, w)
  after_begin txn (some (unexpected err, w)) = some (none, destroy txn w)

  unfoldable pub create_transaction : W → Option (Option Transaction × W)
  unfolding after_begin execute destroy transaction
  create_transaction w =
      after_begin transaction (execute transaction (pg_param_detail (codes "BEGIN") 0) w)
