-- ===== src/Client.antt =====
-- The threads of `postgres_client`, include/database/postgres_client.h and src/postgres_priv.cpp: the
-- requests, the worker that owns the connection, and the threads that run callbacks. An event is
-- what one thread does between two points at which another can come in. The look at the number of
-- idle workers and the push behind it are one event here, and so are the callbacks at a stop; Posting
-- takes them apart.
mod State
pub use State.*
pub mod Count
pub mod Conserved
pub mod Stop
pub mod Lost
pub mod Order
pub mod Service
pub mod Called
pub mod Refinement
pub mod Stranded
pub mod Posting
pub mod Destroy
pub mod Joined
pub mod Destroyed
pub mod Connect
pub mod Opened
mod Tests
use mathlib.Core.Option
use postgres_cpp_lib.Base.{
  ℕ, ◌+◌, zero, suc, Bool, true, false, not, ◌&&◌, Option, none, some, List, [], ◌∷◌, ◌++◌, ◌==◌,
  if◌then◌else◌,
}
use postgres_cpp_lib.Base.Texts.{codes, Expected, value, unexpected}
use postgres_cpp_lib.Param.{PgParamDetail}
use postgres_cpp_lib.SqlError.{SqlError, shutting_down}

module _ {Table : Type 0} where
  -- The client behind `connect`.
  unfoldable pub connected : Bool → ℕ → PostgresClient Table
  connected heartbeat_enabled num_cb_threads = record {
    heartbeat_enabled = heartbeat_enabled;
    requests = [];
    stop_requested = false;
    worker = at_head;
    idle_cb_workers = 0;
    ready = num_cb_threads;
    cb_stop_requested = false;
    cb_queue = [];
    running = [];
    overflow_cb_threads = [];
    called = [];
  }

  unfoldable pub send_to_worker : ℕ → PgParamDetail → PostgresClient Table → PostgresClient Table
  send_to_worker id detail c = record c {
    requests = c.requests ++ record { id = id; detail = detail; direct_callback = true } ∷ [];
  }

  unfoldable pub enqueue_async : ℕ → PgParamDetail → PostgresClient Table → PostgresClient Table
  enqueue_async id detail c = record c {
    requests = c.requests ++ record { id = id; detail = detail; direct_callback = false } ∷ [];
  }

  unfoldable pub reap_overflow_threads :
      List (OverflowCallbackThread Table) → List (OverflowCallbackThread Table)
  reap_overflow_threads [] = []
  reap_overflow_threads (t ∷ ts) =
      if t.done then reap_overflow_threads ts else t ∷ reap_overflow_threads ts

  unfoldable pub call : Task Table → PostgresClient Table → PostgresClient Table
  call task c = record c { called = c.called ++ task ∷ [] }

  -- On the thread that this flag is about.
  unfoldable pub post_callback : Bool → Task Table → PostgresClient Table → PostgresClient Table
  unfolding call reap_overflow_threads
  post_callback is_callback_thread task c =
      if is_callback_thread
      then call task c
      else if c.idle_cb_workers == 0
      then record c {
        overflow_cb_threads =
            reap_overflow_threads c.overflow_cb_threads
            ++ record { done = false; task = task } ∷ [];
      }
      else record c { cb_queue = c.cb_queue ++ task ∷ [] }

  -- How the worker calls a callback of the request.
  unfoldable pub answer :
      QueryRequest → Expected Table SqlError → PostgresClient Table → PostgresClient Table
  unfolding call post_callback
  answer item result c =
      let task : Task Table = record { id = item.id; result = result } in
      if item.direct_callback then call task c else post_callback false task c

  abbrev pub stopped_error : Expected Table SqlError
  stopped_error = unexpected (shutting_down (codes "worker thread stopped"))

  unfoldable pub answer_pending : List QueryRequest → PostgresClient Table → PostgresClient Table
  unfolding answer
  answer_pending [] c = c
  answer_pending (r ∷ rs) c = answer_pending rs (answer r stopped_error c)

  -- Behind the wait, where no stop was requested; without heartbeat the wait goes on until there is a
  -- request.
  unfoldable pub take_request : List QueryRequest → PostgresClient Table → PostgresClient Table
  take_request [] c = if c.heartbeat_enabled then record c { worker = at_head } else c
  take_request (item ∷ rest) c = record c { requests = rest; worker = executing item }

  unfoldable pub wake : List QueryRequest → PostgresClient Table → PostgresClient Table
  unfolding answer_pending take_request
  wake reqs c =
      if c.stop_requested
      then answer_pending reqs (record c { requests = []; worker = finished })
      else take_request reqs c

  unfoldable pub work :
      Bool → Expected Table SqlError → Worker → PostgresClient Table → PostgresClient Table
  unfolding wake answer
  work due result at_head c =
      if c.stop_requested
      then record c { worker = finished }
      else if c.heartbeat_enabled && due
      then c
      else record c { worker = at_wait }
  work due result at_wait c = wake c.requests c
  work due result (executing item) c = answer item result (record c { worker = at_head })
  work due result finished c = c

  -- A callback worker is counted as idle, and waits.
  unfoldable pub cb_wait : ℕ → PostgresClient Table → PostgresClient Table
  cb_wait zero c = c
  cb_wait (suc n) c = record c { ready = n; idle_cb_workers = suc c.idle_cb_workers }

  -- An idle one takes a task, or leaves its loop where there is none and a stop was requested.
  unfoldable pub cb_wake : ℕ → List (Task Table) → PostgresClient Table → PostgresClient Table
  cb_wake zero queue c = c
  cb_wake (suc n) [] c = if c.cb_stop_requested then record c { idle_cb_workers = n } else c
  cb_wake (suc n) (task ∷ rest) c = record c {
    idle_cb_workers = n;
    cb_queue = rest;
    running = c.running ++ task ∷ [];
  }

  -- The task at a position, and the others.
  unfoldable pub take_out : ℕ → List (Task Table) → Option (Task Table × List (Task Table))
  take_out i [] = none
  take_out zero (t ∷ ts) = some (t, ts)
  take_out (suc i) (t ∷ ts) = Option.map (λ r. (r.0, t ∷ r.1)) (take_out i ts)

  unfoldable pub cb_call :
      Option (Task Table × List (Task Table)) → PostgresClient Table → PostgresClient Table
  unfolding call
  cb_call none c = c
  cb_call (some (task, others)) c = call task (record c { running = others; ready = suc c.ready })

  -- The thread at a position that is not done calls its task, and is done.
  unfoldable pub finish :
      ℕ
      → List (OverflowCallbackThread Table)
      → Option (Task Table × List (OverflowCallbackThread Table))
  finish i [] = none
  finish zero (t ∷ ts) = if t.done then none else some (t.task, record t { done = true } ∷ ts)
  finish (suc i) (t ∷ ts) = Option.map (λ r. (r.0, t ∷ r.1)) (finish i ts)

  unfoldable pub overflow_call :
      Option (Task Table × List (OverflowCallbackThread Table))
      → PostgresClient Table
      → PostgresClient Table
  unfolding call
  overflow_call none c = c
  overflow_call (some (task, threads)) c = call task (record c { overflow_cb_threads = threads })

  -- One event, and a run of them.
  unfoldable pub next : Event Table → PostgresClient Table → PostgresClient Table
  unfolding send_to_worker enqueue_async work cb_wait cb_wake cb_call take_out overflow_call finish
  next (sends_to_worker id detail) c = send_to_worker id detail c
  next (enqueues_async id detail) c = enqueue_async id detail c
  next requests_stop c = record c { stop_requested = true }
  next requests_cb_stop c = record c { cb_stop_requested = true }
  next (works due result) c = work due result c.worker c
  next cb_waits c = cb_wait c.ready c
  next cb_wakes c = cb_wake c.idle_cb_workers c.cb_queue c
  next (cb_calls i) c = cb_call (take_out i c.running) c
  next (overflow_calls i) c = overflow_call (finish i c.overflow_cb_threads) c

  unfoldable pub run : List (Event Table) → PostgresClient Table → PostgresClient Table
  run [] c = c
  run (e ∷ es) c = run es (next e c)
