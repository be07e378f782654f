-- ===== src/Client/Posting.antt =====
-- `PostCallback` and `QueryWorker` of src/postgres_priv.cpp in finer events: between the look at the
-- number of idle callback workers and what follows it, and between the callbacks that the worker
-- calls at a stop, the other threads go on. The destructor of src/postgres_pub.cpp requests the stop of
-- the callback workers once the worker is joined.
pub mod Held
pub mod Posted
pub mod Places
pub mod Delivered
pub mod Leaving
pub mod Closing
mod Tests
use postgres_cpp_lib.Base.{
  ℕ, zero, suc, Bool, true, false, ◌&&◌, Option, none, some, List, [], ◌∷◌, ◌++◌, ◌==◌, map,
  if◌then◌else◌,
}
use postgres_cpp_lib.Base.Texts.{Expected}
use postgres_cpp_lib.SqlError.{SqlError}
use postgres_cpp_lib.Client.{
  QueryRequest, Worker, at_head, at_wait, finished, executing, Task, OverflowCallbackThread,
  PostgresClient, Event, sends_to_worker, enqueues_async, requests_stop, requests_cb_stop, works,
  cb_waits, cb_wakes, cb_calls, overflow_calls, reap_overflow_threads, call, stopped_error,
  take_request, work, next, connected,
}

abbrev pub is_finished : Worker → Bool
is_finished finished = true
is_finished at_head = false
is_finished at_wait = false
is_finished (executing item) = false

module _ (Table : Type 0) where
  -- A callback that the worker has still to call, or to post.
  pub record Duty : Type 0 where
    pub direct_callback : Bool
    pub task : Task Table

  -- Where the worker is in `PostCallback`: not in it; behind the look, which found an idle callback
  -- worker or none; behind the start of a thread that is not in the list yet.
  pub data Poster : Type 0 where
    resting : Poster
    pushes starts : Task Table → Poster
    lists : OverflowCallbackThread Table → Poster

  pub record Posting : Type 0 where
    pub client : PostgresClient Table
    pub duties : List Duty
    pub poster : Poster

  pub data Turn : Type 0 where
    -- A thread goes on as in `Event`, the worker where it has nothing to post.
    goes : Event Table → Turn
    -- The worker goes on with its callbacks.
    posts : Turn
    -- The thread that is not in the list yet calls its task.
    started_calls : Turn

module _ {Table : Type 0} where
  unfoldable pub posting : Bool → ℕ → Posting Table
  unfolding connected
  posting heartbeat_enabled num_cb_threads = record {
    client = connected heartbeat_enabled num_cb_threads;
    duties = [];
    poster = resting;
  }

  abbrev pub is_resting : Poster Table → Bool
  is_resting resting = true
  is_resting (pushes t) = false
  is_resting (starts t) = false
  is_resting (lists t) = false

  abbrev pub no_duties : List (Duty Table) → Bool
  no_duties [] = true
  no_duties (d ∷ ds) = false

  -- The worker has nothing to call or to post.
  abbrev pub is_free : Posting Table → Bool
  is_free p = is_resting p.poster && no_duties p.duties

  unfoldable pub duty : Expected Table SqlError → QueryRequest → Duty Table
  duty result item = record {
    direct_callback = item.direct_callback;
    task = record { id = item.id; result = result };
  }

  -- A round of the worker, up to its callbacks.
  unfoldable pub begin : Bool → Expected Table SqlError → Worker → Posting Table → Posting Table
  unfolding duty take_request work
  begin due result at_head p = record p { client = work due result at_head p.client }
  begin due result at_wait p =
      if p.client.stop_requested
      then record p {
        client = record p.client { requests = []; worker = finished };
        duties = map (duty stopped_error) p.client.requests;
      }
      else record p { client = take_request p.client.requests p.client }
  begin due result (executing item) p = record p {
    client = record p.client { worker = at_head };
    duties = duty result item ∷ [];
  }
  begin due result finished p = p

  -- The next step of the worker with its callbacks.
  unfoldable pub post : Poster Table → List (Duty Table) → Posting Table → Posting Table
  unfolding call reap_overflow_threads
  post resting [] p = p
  post resting (d ∷ ds) p =
      if d.direct_callback
      then record p { client = call d.task p.client; duties = ds }
      else record p {
        duties = ds;
        poster = if p.client.idle_cb_workers == 0 then starts d.task else pushes d.task;
      }
  post (pushes task) ds p = record p {
    client = record p.client { cb_queue = p.client.cb_queue ++ task ∷ [] };
    poster = resting;
  }
  post (starts task) ds p = record p { poster = lists (record { done = false; task = task }) }
  post (lists thread) ds p = record p {
    client = record p.client {
      overflow_cb_threads = reap_overflow_threads p.client.overflow_cb_threads ++ thread ∷ [];
    };
    poster = resting;
  }

  unfoldable pub started_call : Poster Table → Posting Table → Posting Table
  unfolding call
  started_call (lists thread) p = if thread.done then p else record p {
    client = call thread.task p.client;
    poster = lists (record thread { done = true });
  }
  started_call resting p = p
  started_call (pushes task) p = p
  started_call (starts task) p = p

  -- The stop of the callback workers waits for the join of the worker.
  unfoldable pub turn : Turn Table → Posting Table → Posting Table
  unfolding begin post started_call next
  turn (goes (works due result)) p = if is_free p then begin due result p.client.worker p else p
  turn (goes requests_cb_stop) p =
      if is_free p && is_finished p.client.worker
      then record p { client = next requests_cb_stop p.client }
      else p
  turn (goes (sends_to_worker id detail)) p = record p {
    client = next (sends_to_worker id detail) p.client;
  }
  turn (goes (enqueues_async id detail)) p = record p {
    client = next (enqueues_async id detail) p.client;
  }
  turn (goes requests_stop) p = record p { client = next requests_stop p.client }
  turn (goes cb_waits) p = record p { client = next cb_waits p.client }
  turn (goes cb_wakes) p = record p { client = next cb_wakes p.client }
  turn (goes (cb_calls i)) p = record p { client = next (cb_calls i) p.client }
  turn (goes (overflow_calls i)) p = record p { client = next (overflow_calls i) p.client }
  turn posts p = post p.poster p.duties p
  turn started_calls p = started_call p.poster p

  unfoldable pub turns : List (Turn Table) → Posting Table → Posting Table
  turns [] p = p
  turns (t ∷ ts) p = turns ts (turn t p)
