-- ===== src/Client/Tests.antt =====
-- A client with two requests waiting, and the theorems at it.
use postgres_cpp_lib.Base.{
  ◌-◌, ◌⊎◌, ◌==◌, some, ◌+◌, ◌++◌, ℕ, ◌≡◌, refl, true, false, List, [], ◌∷◌, map,
}
use postgres_cpp_lib.Base.Int.{pos}
use postgres_cpp_lib.Base.Texts.{Text, codes, value, unexpected}
use postgres_cpp_lib.Param.{PgParamDetail, pg_param_detail}
use postgres_cpp_lib.Client.{
  QueryRequest, Worker, at_wait, finished, executing, PostgresClient, Event, enqueues_async, works,
  cb_wakes, cb_calls, overflow_calls, next, run, connected, enqueue_async, work, wake, take_request,
  answer, answer_pending, post_callback, call, reap_overflow_threads, cb_wait, cb_wake, cb_call,
  take_out, overflow_call, finish,
}
use postgres_cpp_lib.Client.Count.{self, one, times, of_tasks, of_requests}
use postgres_cpp_lib.Client.Conserved.{submissions}
use postgres_cpp_lib.Client.Order.{gone_all, run-in_order}
use postgres_cpp_lib.Client.Lost.{ids, Left, answered, stop_while_executing}
use postgres_cpp_lib.Client.Service.{Serves, idle_service}
use postgres_cpp_lib.Client.Refinement.{view, run-Serves}
use postgres_cpp_lib.Client.Destroy.{
  left_to_do, destroy, join_worker, call_all, join_overflow, go_on, join_callbacks, before_pool,
}
use postgres_cpp_lib.Client.Connect.{
  ConnectApi, Handle, postgres_client, with_connection, connect, destroy_handle,
}
use postgres_cpp_lib.Client.Opened.{Opens, connect_lem}
use postgres_cpp_lib.Client.Destroyed.{abandoned, destroy_lem}

abbrev detail : PgParamDetail
detail = pg_param_detail (codes "SELECT 1") 0

abbrev direct : ℕ → QueryRequest
direct id = record { id = id; detail = detail; direct_callback = true }

abbrev pooled : ℕ → QueryRequest
pooled id = record { id = id; detail = detail; direct_callback = false }

-- A stop was requested, 2 and 3 are waiting.
abbrev stopping : Worker → PostgresClient ℕ
stopping worker = record {
  heartbeat_enabled = false;
  requests = direct 2 ∷ pooled 3 ∷ [];
  stop_requested = true;
  worker = worker;
  idle_cb_workers = 1;
  ready = 1;
  cb_stop_requested = false;
  cb_queue = [];
  running = [];
  overflow_cb_threads = [];
  called = [];
}

-- Both are answered when the worker sees the stop, and neither when it is executing.
drained_run :
    map
      (λ t. t.id)
      (run (works false (value 0) ∷ cb_wakes ∷ cb_calls 0 ∷ []) (stopping at_wait)).called
    ≡ 2 ∷ 3 ∷ []
unfolding run next work wake answer_pending answer call post_callback cb_wake cb_call take_out
drained_run = refl

lost_run :
    map
      (λ t. t.id)
      (run
        (works false (value 0) ∷ works false (value 0) ∷ [])
        (stopping (executing (direct 1)))).called
    ≡ 1 ∷ []
unfolding run next work answer call
lost_run = refl

-- With no callback thread idle, the callback has a thread of its own.
abbrev overflow_events : List (Event ℕ)
overflow_events =
    enqueues_async 5 detail
    ∷ works false (value 0)
    ∷ works false (value 0)
    ∷ works false (value 9)
    ∷ overflow_calls 0
    ∷ []

overflow_run :
    (run overflow_events (connected false 0)).called ≡ record { id = 5; result = value 9 } ∷ []
unfolding run next connected enqueue_async work wake take_request answer post_callback call
    overflow_call finish reap_overflow_threads
overflow_run = refl

run-in_order_example :
    gone_all overflow_events (connected false 0)
      ++ ids (run overflow_events (connected false 0)).requests
    ≡ submissions overflow_events
run-in_order_example = run-in_order false 0 overflow_events

stop_while_executing_example :
    let d =
      run
        (works false (value 0) ∷ works false (value 0) ∷ overflow_events)
        (stopping (executing (direct 1))) in
    Left (submissions overflow_events) (stopping (executing (direct 1))) d
    × ((i : ℕ) → answered d i ≡ answered (stopping (executing (direct 1))) i + one 1 i)
stop_while_executing_example =
    stop_while_executing false false (value 0) (value 0) (direct 1) overflow_events
      (stopping (executing (direct 1))) refl refl

run-Serves_example :
    Serves idle_service
      (submissions overflow_events)
      (view (run overflow_events (connected false 0)))
run-Serves_example = run-Serves false 0 overflow_events

-- One request is answered by the destructor, as the worker waits.
abbrev waiting_events : List (Event ℕ)
waiting_events = works false (value 0) ∷ enqueues_async 5 detail ∷ []

answered_at_last :
    map (λ t. t.id) (destroy (value 0) (run waiting_events (connected false 2))).called ≡ 5 ∷ []
unfolding run next connected enqueue_async work wake take_request answer answer_pending
    post_callback call finish reap_overflow_threads cb_wait cb_wake cb_call join_worker call_all
    join_overflow go_on join_callbacks before_pool destroy
answered_at_last = refl

destroy_lem_example :
    ((destroy (value 0) (run waiting_events (connected false 2))).worker ≡ finished)
    × ((destroy (value 0) (run waiting_events (connected false 2))).overflow_cb_threads ≡ [])
    × (left_to_do (destroy (value 0) (run waiting_events (connected false 2))) ≡ 0)
    × (of_tasks (destroy (value 0) (run waiting_events (connected false 2))).called 5
          + of_requests
              (abandoned
                (run waiting_events (connected false 2)).worker
                (run waiting_events (connected false 2)).requests)
              5
        ≡ times self 5 (submissions waiting_events))
destroy_lem_example = destroy_lem false 2 waiting_events (value 0) 5

-- A libpq whose second connection fails: the world is the number of open connections, and a
-- connection is its number.
abbrev libpq : ConnectApi ℕ ℕ Text
libpq = record {
  pq_connectdb = λ uri w. (some w, w + 1);
  pq_status_ok = λ conn w. conn == 0;
  pq_error_message = λ conn w. codes "too many connections";
  pq_set_nonblocking = λ conn w. (pos 0, w);
  pq_finish = λ conn w. w - 1;
  connection_failed = λ t. t;
  socket_failed = λ t. t;
}

abbrev libpq_opens : Opens libpq
libpq_opens = record {
  opened = λ w. w;
  connectdb_opens = λ uri w. refl;
  set_nonblocking_keeps = λ conn w. refl;
  finish_closes = λ conn w. refl;
}

abbrev new_client : Handle ℕ ℕ
new_client = postgres_client (codes "postgres://u@h/db") false 2

refused_connection : (connect libpq new_client 1).result ≡ unexpected (codes "too many connections")
unfolding connect with_connection
refused_connection = refl

connect_lem_example :
    ((((connect libpq new_client 0).result ≡ value tt)
        × ((connect libpq new_client 0).world ≡ 1)
        × ((connect libpq new_client 0).handle.client ≡ connected false 2))
      ⊎ ((e : Text) × ((connect libpq new_client 0).result ≡ unexpected e)
          × ((connect libpq new_client 0).world ≡ 0)
          × ((connect libpq new_client 0).handle ≡ new_client)))
    × ((destroy_handle libpq
          (value 0)
          (connect libpq new_client 0).handle
          (connect libpq new_client 0).world).1
        ≡ 0)
connect_lem_example = connect_lem libpq libpq_opens (codes "postgres://u@h/db") false 2 (value 0) 0
