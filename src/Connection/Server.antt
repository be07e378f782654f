-- ===== src/Connection/Server.antt =====
-- A server that loses the first connection: libpq over it, and the progress that it makes.
use postgres_cpp_lib.Base.{
  ℕ, suc, ◌+◌, ◌-◌, ◌<◌, ◌≡◌, refl, arith, Bool, true, false, Option, none, some, List, [], ◌∷◌,
  length,
}
use postgres_cpp_lib.Base.Int.{ℤ, pos}
use postgres_cpp_lib.Base.Texts.{codes}
use postgres_cpp_lib.Param.{PgParamDetail}
use postgres_cpp_lib.Connection.Libpq.{LibpqApi, PollEvents, PollAnswer, polling_ok, tuples_ok}
use postgres_cpp_lib.Connection.Progress.{Progress, first, rest}
use postgres_cpp_lib.Connection.{is_zero}
use postgres_cpp_lib.Connection.Retry.{Enough}

-- Whether the connection is alive, output is left, input is left; the result, and the time.
pub data World : Type 0 where
  world : Bool → Bool → Bool → Option ℕ → ℕ → World

abbrev pub dispatched : PgParamDetail → World → Bool × World
dispatched d (world alive output input result time) = (true, world alive true alive (some 7) time)

abbrev pub flushed : World → ℤ × World
flushed (world alive true input result time) = (pos 1, world alive false input result time)
flushed (world alive false input result time) = (pos 0, world alive false input result time)

abbrev pub polled : ℤ → PollEvents → ℕ → World → PollAnswer × World
polled socket events timeout w = (record { result = pos 1; has_error = false }, w)

abbrev pub consumed : World → Bool × World
consumed (world alive output true result time) = (true, world alive output false result time)
consumed (world alive output false result time) = (false, world alive output false result time)

abbrev pub got : World → Option ℕ × World
got (world alive output input result time) = (result, world alive output input none time)

abbrev pub started : World → Bool × World
started (world alive output input result time) = (true, world true false false none time)

abbrev pub read_clock : World → ℕ × World
read_clock (world alive output input result time) =
    (time, world alive output input result (suc time))

abbrev pub server : LibpqApi World ℕ
server = record {
  has_connection = λ w. true;
  status_ok = λ w. true;
  pq_socket = λ w. pos 3;
  pq_send_query_params = dispatched;
  pq_error_message = λ w. codes "server closed the connection unexpectedly";
  pq_flush = flushed;
  poll = polled;
  pq_consume_input = consumed;
  pq_is_busy = λ w. false;
  pq_get_result = got;
  pq_result_status = λ r. tuples_ok;
  pq_result_error_message = λ r. [];
  pq_reset_start = started;
  pq_reset_poll = λ w. (polling_ok, w);
  pq_set_nonblocking = λ w. (pos 0, w);
  now = read_clock;
}

abbrev pub output_left : World → ℕ
output_left (world alive true input result time) = 1
output_left (world alive false input result time) = 0

abbrev pub input_left : World → ℕ
input_left (world alive output true result time) = 1
input_left (world alive output false result time) = 0

abbrev pub results_left : World → List ℕ
results_left (world alive output input (some r) time) = r ∷ []
results_left (world alive output input none time) = []

abbrev pub time_of : World → ℕ
time_of (world alive output input result time) = time

pub flush_falls_here :
    (w : World) → is_zero (flushed w).0 ≡ false → output_left (flushed w).1 < output_left w
flush_falls_here (world alive true input result time) h = omega arith
flush_falls_here (world alive false input result time) h = ground arith

pub read_falls_here : (w : World) → (consumed w).0 ≡ true → input_left (consumed w).1 < input_left w
read_falls_here (world alive output true result time) h = omega arith
read_falls_here (world alive output false result time) h = ground arith

pub got-first : (w : World) → (got w).0 ≡ first (results_left w)
got-first (world alive output input (some r) time) = refl
got-first (world alive output input none time) = refl

pub got-rest : (w : World) → results_left (got w).1 ≡ rest (results_left w)
got-rest (world alive output input (some r) time) = refl
got-rest (world alive output input none time) = refl

pub clock_reads : (w : World) → (read_clock w).0 ≡ time_of w
clock_reads (world alive output input result time) = refl

pub clock_passes : (w : World) → time_of w < time_of (read_clock w).1
clock_passes (world alive output input result time) = omega arith

abbrev pub server_progress : Progress server
server_progress = record {
  unsent = output_left;
  flush_falls = λ socket w _ h _ _. flush_falls_here w h;
  unread = input_left;
  read_falls = λ socket w _ _ h. read_falls_here w h;
  results = results_left;
  get_first = got-first;
  get_rest = got-rest;
  clock = time_of;
  now_reads = clock_reads;
  readings_before = λ t w. t - time_of w;
  rate = 1;
  readings_bound = λ timeout w. omega arith;
  now_falls = λ t w h. omega (arith, clock_passes w);
  now_keeps = λ t w. omega (arith, clock_passes w);
  reset_poll_keeps = λ t w. omega arith;
  poll_keeps = λ t socket events timeout w. omega arith;
}

pub output_bound : (w : World) → output_left w < 2
output_bound (world alive true input result time) = omega arith
output_bound (world alive false input result time) = omega arith

pub input_bound : (w : World) → input_left w < 2
input_bound (world alive output true result time) = omega arith
input_bound (world alive output false result time) = omega arith

pub results_bound : (w : World) → length (results_left w) < 2
results_bound (world alive output input (some r) time) = omega arith
results_bound (world alive output input none time) = omega arith

abbrev pub server_enough : (extra : ℕ) → Enough server server_progress (extra + 2)
server_enough extra = record {
  for_unsent = λ w. omega (arith, output_bound w);
  for_unread = λ w. omega (arith, input_bound w);
  for_results = λ w. omega (arith, results_bound w);
}

abbrev pub fresh : World
fresh = world true true true (some 7) 0

-- The server will drop this connection on the next query.
abbrev pub stale : World
stale = world false false false none 0

abbrev pub select : PgParamDetail
select = record { query = codes "SELECT 7"; text = []; buffers = []; lengths = []; formats = [] }
