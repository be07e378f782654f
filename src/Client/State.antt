-- ===== src/Client/State.antt =====
-- The state of `postgres_client` and what its threads do to it: include/database/postgres_client.h.
use postgres_cpp_lib.Base.{ℕ, Bool, List}
use postgres_cpp_lib.Base.Texts.{Expected}
use postgres_cpp_lib.Param.{PgParamDetail}
use postgres_cpp_lib.SqlError.{SqlError}

-- `id` stands for the two callbacks of the request.
pub record QueryRequest : Type 0 where
  pub id : ℕ
  pub detail : PgParamDetail
  pub direct_callback : Bool

-- Where the worker is: at the test of its loop, at the wait for a request, in `ExecuteWithRetry`, or
-- behind the loop.
pub data Worker : Type 0 where
  at_head at_wait finished : Worker
  executing : QueryRequest → Worker

module _ (Table : Type 0) where
  -- A callback with the result that it is called with.
  pub record Task : Type 0 where
    pub id : ℕ
    pub result : Expected Table SqlError

  pub record OverflowCallbackThread : Type 0 where
    pub done : Bool
    pub task : Task

  -- `ready` are the callback workers at the head of their loop, `running` the tasks of those that
  -- have one, and `called` the callbacks that were called, in order.
  pub record PostgresClient : Type 0 where
    pub heartbeat_enabled : Bool
    pub requests : List QueryRequest
    pub stop_requested : Bool
    pub worker : Worker
    pub idle_cb_workers : ℕ
    pub ready : ℕ
    pub cb_stop_requested : Bool
    pub cb_queue : List Task
    pub running : List Task
    pub overflow_cb_threads : List OverflowCallbackThread
    pub called : List Task

  pub data Event : Type 0 where
    sends_to_worker enqueues_async : ℕ → PgParamDetail → Event
    requests_stop requests_cb_stop : Event
    -- Whether the heartbeat is due, and what a query returns.
    works : Bool → Expected Table SqlError → Event
    cb_waits cb_wakes : Event
    -- The callback worker, or the overflow thread, at this position calls its task.
    cb_calls overflow_calls : ℕ → Event
