-- ===== src/Session.antt =====
-- The parts together: a client whose worker sends what it takes to the server with `ExecuteWithRetry`,
-- in the order in which its threads go on while a caller waits for a future.
pub mod Served
pub mod Waited
pub mod Settled
pub mod Logged
pub mod Asked
pub mod Heartbeat
mod Tests
use postgres_cpp_lib.Base.{
  ℕ, suc, zero, ◌≡◌, false, Option, none, some, List, [], ◌∷◌, ◌++◌, length, map,
}
use postgres_cpp_lib.Base.Texts.{Text, codes, Expected, value, unexpected}
use postgres_cpp_lib.Param.{Argument, create_single_data, PgParamDetail, make_pg_param_buffer}
use postgres_cpp_lib.SqlError.{SqlError, query_failed}
use postgres_cpp_lib.Connection.Libpq.{LibpqApi}
use postgres_cpp_lib.Connection.{Outcome, execute_with_retry}
use postgres_cpp_lib.Client.{
  QueryRequest, Worker, at_head, at_wait, finished, executing, Task, PostgresClient, works,
  stopped_error, send_to_worker, enqueue_async, next,
}

-- `sent` are the queries that the worker handed to `ExecuteWithRetry`; requests are numbered.
pub record Session (W Table : Type 0) : Type 0 where
  pub client : PostgresClient Table
  pub world : W
  pub sent : List Text
  pub next_id : ℕ

-- With the fuel that Settled gives, the error is never met.
abbrev pub returned : {W A : Type 0} → Outcome W A → W → Expected A SqlError × W
returned none w = (unexpected (query_failed (codes "out of fuel")), w)
returned (some o) w = o

abbrev pub last_result : {Table : Type 0} → List (Task Table) → Expected Table SqlError
last_result [] = stopped_error
last_result (t ∷ []) = t.result
last_result (t ∷ u ∷ ts) = last_result (u ∷ ts)

module _ {W Table : Type 0} where
  -- `SendToWorker` and `EnqueueAsync` of the client, with the next number.
  unfoldable pub submit : PgParamDetail → Session W Table → Session W Table
  submit detail s = record s {
    client = send_to_worker s.next_id detail s.client;
    next_id = suc s.next_id;
  }

  unfoldable pub submit_async : PgParamDetail → Session W Table → Session W Table
  submit_async detail s = record s {
    client = enqueue_async s.next_id detail s.client;
    next_id = suc s.next_id;
  }

  -- `execute` and `execute_async` of the client, from the caller's arguments. `per_us` is as in Param.
  unfoldable pub execute : ℕ → Text → List Argument → Session W Table → Session W Table
  unfolding submit
  execute per_us query params s =
      submit (make_pg_param_buffer per_us query (map create_single_data params)) s

  unfoldable pub execute_async : ℕ → Text → List Argument → Session W Table → Session W Table
  unfolding submit_async
  execute_async per_us query params s =
      submit_async (make_pg_param_buffer per_us query (map create_single_data params)) s

module _ {W Table : Type 0} (api : LibpqApi W Table) (fuel : ℕ) where
  unfoldable pub run_query : PgParamDetail → W → Expected Table SqlError × W
  unfolding execute_with_retry
  run_query detail w = returned (execute_with_retry api fuel detail 5000 w) w

  -- The worker, up to where another thread can come in; the heartbeat is not due.
  unfoldable pub serve_at : Worker → Session W Table → Session W Table
  unfolding run_query next
  serve_at (executing item) s =
      let (result, w) = run_query item.detail s.world in
      record s {
        client = next (works false result) s.client;
        world = w;
        sent = s.sent ++ item.detail.query ∷ [];
      }
  serve_at at_head s = record s { client = next (works false stopped_error) s.client }
  serve_at at_wait s = record s { client = next (works false stopped_error) s.client }
  serve_at finished s = s

  unfoldable pub serve : Session W Table → Session W Table
  unfolding serve_at
  serve s = serve_at s.client.worker s

  -- From the head of the loop back to it.
  unfoldable pub serve_request : Session W Table → Session W Table
  unfolding serve
  serve_request s = serve (serve (serve s))

  unfoldable pub serve_requests : ℕ → Session W Table → Session W Table
  unfolding serve_request
  serve_requests zero s = s
  serve_requests (suc n) s = serve_requests n (serve_request s)

  -- `SendToWorker`, and the wait for its future: the worker serves what is queued, this request last,
  -- and calls its callback.
  unfoldable pub send_and_wait :
      PgParamDetail → Session W Table → Expected Table SqlError × Session W Table
  unfolding submit serve_requests
  send_and_wait detail s =
      let s₁ = submit detail s in
      let s₂ = serve_requests (length s₁.client.requests) s₁ in (last_result s₂.client.called, s₂)
