-- ===== src/Session/Tests.antt =====
-- A session over the server of Connection/Server, and the theorems at it.
use postgres_cpp_lib.Base.{
  ◌≤◌, ℕ, ◌≡◌, refl, arith, true, false, some, List, [], ◌∷◌, ◌++◌, map, All,
}
use postgres_cpp_lib.Base.Texts.{Expected, codes}
use postgres_cpp_lib.SqlError.{SqlError}
use postgres_cpp_lib.Param.{
  Argument, null_argument, boolean_argument, create_single_data, to_binary, pg_param_detail,
}
use postgres_cpp_lib.Param.Sent.{IsShort}
use postgres_cpp_lib.Connection.Server.{World, server, server_progress, fresh, select}
use postgres_cpp_lib.Client.{QueryRequest, connected, send_to_worker, enqueue_async}
use postgres_cpp_lib.Session.Heartbeat.{serve_between, Beats, Served, serve_between-Served}
use postgres_cpp_lib.Transaction.{transaction}
use postgres_cpp_lib.Transaction.Script.{Op, executes, executes_async, commits, script, live}
use postgres_cpp_lib.Session.{Session, execute, execute_async}
use postgres_cpp_lib.Session.Served.{Rests}
use postgres_cpp_lib.Session.Settled.{Waits, send_and_wait-Waits}
use postgres_cpp_lib.Session.Logged.{Resting, log, session_executor, session-live}
use postgres_cpp_lib.Session.Asked.{Asks, execute-Asks}

abbrev opened : Session World ℕ
opened = record { client = connected false 2; world = fresh; sent = []; next_id = 0 }

opened-Rests : Rests opened
unfolding connected
opened-Rests = (refl, refl)

send_and_wait-Waits_example :
    (n : ℕ) × (t : Session World ℕ) × (r : Expected ℕ SqlError) × (u : Session World ℕ)
    × ((fuel : ℕ) → n ≤ fuel → Waits server server_progress fuel select opened t r u)
    × (u.sent
        ≡ (opened.sent ++ map (λ q. q.detail.query) opened.client.requests) ++ select.query ∷ [])
    × (u.client.called ≡ t.client.called ++ record { id = opened.next_id; result = r } ∷ [])
    × (u.client.requests ≡ [])
    × Rests u
send_and_wait-Waits_example = send_and_wait-Waits server server_progress select opened opened-Rests

abbrev resting : Resting World ℕ
resting = record { session = opened; rests = opened-Rests }

abbrev calls : List Op
calls = executes_async (pg_param_detail (codes "INSERT") 0) ∷ executes select ∷ commits ∷ []

session-live_example :
    (u : Resting World ℕ) × (live (session_executor server 4) calls (some (transaction, resting))
      ≡ some u)
    × (u.session.sent ≡ log resting ++ script calls)
    × (u.session.client.requests ≡ [])
session-live_example = session-live server 4 calls resting

abbrev params : List Argument
params = boolean_argument true ∷ null_argument ∷ []

params_short : All (IsShort 1) (map create_single_data params)
unfolding to_binary create_single_data
params_short = (omega arith, (omega arith, tt))

execute-Asks_example :
    Asks true 1
      (codes "SELECT $1, $2")
      params
      opened
      (execute 1 (codes "SELECT $1, $2") params opened)
    × Asks false 1
        (codes "SELECT $1, $2")
        params
        opened
        (execute_async 1 (codes "SELECT $1, $2") params opened)
execute-Asks_example =
    execute-Asks 1 (codes "SELECT $1, $2") params opened params_short (omega arith)

-- Two requests are queued, and heartbeats are enabled.
abbrev beating : Session World ℕ
beating = record {
  client = enqueue_async 1 select (send_to_worker 0 select (connected true 2));
  world = fresh;
  sent = [];
  next_id = 2;
}

abbrev queued : List QueryRequest
queued =
    record { id = 0; detail = select; direct_callback = true }
    ∷ record { id = 1; detail = select; direct_callback = false }
    ∷ []

beating-Beats : Beats beating.client
unfolding connected send_to_worker enqueue_async
beating-Beats = (refl, refl, refl)

beating-queued : beating.client.requests ≡ queued ++ []
unfolding connected send_to_worker enqueue_async
beating-queued = refl

serve_between-Served_example :
    (n : ℕ) × (t : Session World ℕ) × ((m : ℕ)
      → n ≤ m
      → (serve_between server m (2 ∷ 0 ∷ []) beating ≡ t)
        × Served server m [] (2 ∷ 0 ∷ []) queued beating.client beating.world t.client t.world)
    × Beats t.client
    × (t.client.requests ≡ [])
serve_between-Served_example =
    serve_between-Served server server_progress (2 ∷ 0 ∷ []) queued [] beating refl beating-Beats
      beating-queued
