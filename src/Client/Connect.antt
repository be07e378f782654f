-- ===== src/Client/Connect.antt =====
-- The constructors, `connect` and the end of `postgres_client`, src/postgres_pub.cpp, over libpq's
-- functions for connections, which act on a world `W`. The errors are those of the connection pool.
use postgres_cpp_lib.Base.{ℕ, ◌+◌, Bool, false, not, Option, none, some, [], if◌then◌else◌}
use postgres_cpp_lib.Base.Int.{ℤ}
use postgres_cpp_lib.Base.Texts.{Text, codes, Expected, value, unexpected}
use postgres_cpp_lib.SqlError.{SqlError}
use postgres_cpp_lib.Connection.{is_zero}
use postgres_cpp_lib.Client.{PostgresClient, at_head, finished}
use postgres_cpp_lib.Client.Destroy.{destroy}

pub record ConnectApi (W Conn : Type 0) (ConnectionError : Type 0) : Type 0 where
  -- A null connection is `none`.
  pub pq_connectdb : Text → W → Option Conn × W
  pub pq_status_ok : Conn → W → Bool
  pub pq_error_message : Conn → W → Text
  pub pq_set_nonblocking : Conn → W → ℤ × W
  pub pq_finish : Conn → W → W
  pub connection_failed : Text → ConnectionError
  pub socket_failed : Text → ConnectionError

-- The client with what its connection is made from.
pub record Handle (Conn Table : Type 0) : Type 0 where
  pub uri : Text
  pub num_cb_threads : ℕ
  pub connection : Option Conn
  pub client : PostgresClient Table

module _ {Table : Type 0} where
  -- No thread runs, and nothing is queued.
  unfoldable pub idle_client : Bool → PostgresClient Table
  idle_client heartbeat_enabled = record {
    heartbeat_enabled = heartbeat_enabled;
    requests = [];
    stop_requested = false;
    worker = finished;
    idle_cb_workers = 0;
    ready = 0;
    cb_stop_requested = false;
    cb_queue = [];
    running = [];
    overflow_cb_threads = [];
    called = [];
  }

  -- The worker, with a stop token of its own, and the callback workers.
  unfoldable pub start_threads : ℕ → PostgresClient Table → PostgresClient Table
  start_threads num_cb_threads c = record c {
    worker = at_head;
    stop_requested = false;
    ready = c.ready + num_cb_threads;
  }

unfoldable pub postgres_client : {Conn Table : Type 0} → Text → Bool → ℕ → Handle Conn Table
unfolding idle_client
postgres_client uri heartbeat_enabled num_cb_threads = record {
  uri = uri;
  num_cb_threads = num_cb_threads;
  connection = none;
  client = idle_client heartbeat_enabled;
}

-- What a `unique_pg_conn` does at its end.
unfoldable pub release :
    {W Conn ConnectionError : Type 0} → ConnectApi W Conn ConnectionError → Option Conn → W → W
release api none w = w
release api (some conn) w = api.pq_finish conn w

-- What `connect` returns, with the client and the world behind it.
pub record Attempt (W Conn ConnectionError Table : Type 0) : Type 0 where
  pub result : Expected (Unit {0}) ConnectionError
  pub handle : Handle Conn Table
  pub world : W

module _ {W Conn ConnectionError Table : Type 0} (api : ConnectApi W Conn ConnectionError) where
  open api use {
    pq_connectdb, pq_status_ok, pq_error_message, pq_set_nonblocking, connection_failed,
    socket_failed,
  }

  -- Behind `PQconnectdb`. On each failure the new connection is released.
  unfoldable pub with_connection :
      Handle Conn Table → Option Conn → W → Attempt W Conn ConnectionError Table
  unfolding release start_threads
  with_connection h none w = record {
    result = unexpected (connection_failed (codes "Postgres connection failed"));
    handle = h;
    world = w;
  }
  with_connection h (some conn) w =
      let (nonblocking, w₁) = pq_set_nonblocking conn w in
      if not (pq_status_ok conn w)
      then record {
        result = unexpected (connection_failed (pq_error_message conn w));
        handle = h;
        world = release api (some conn) w;
      }
      else if not (is_zero nonblocking)
      then record {
        result = unexpected (socket_failed (pq_error_message conn w₁));
        handle = h;
        world = release api (some conn) w₁;
      }
      else record {
        result = value tt;
        handle = record h {
          connection = some conn;
          client = start_threads h.num_cb_threads h.client;
        };
        world = release api h.connection w₁;
      }

  -- On a client whose threads do not run.
  unfoldable pub connect : Handle Conn Table → W → Attempt W Conn ConnectionError Table
  unfolding with_connection
  connect h w = let (conn, w₁) = pq_connectdb h.uri w in with_connection h conn w₁

  -- The destructor: the threads first, the members behind it.
  unfoldable pub destroy_handle :
      Expected Table SqlError → Handle Conn Table → W → PostgresClient Table × W
  unfolding destroy release
  destroy_handle result h w = (destroy result h.client, release api h.connection w)
