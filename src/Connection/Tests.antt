-- ===== src/Connection/Tests.antt =====
-- The theorems at a server that loses the first connection.
use postgres_cpp_lib.Base.{◌≤◌, ℕ, ◌≡◌, refl, arith, true, false, none, some, []}
use postgres_cpp_lib.Base.Texts.{Expected, value}
use postgres_cpp_lib.SqlError.{SqlError, bad_connection}
use postgres_cpp_lib.Connection.{
  attempts_left, ensure_connected, is_connected, execute_query, consume_from, reconnect_until,
  check_for_poll_out, check_for_poll_in, consume_result, attempt_reconnect, execute_with_retry,
}
use postgres_cpp_lib.Connection.Consume.{summary, consume_result_lem}
use postgres_cpp_lib.Connection.Reconnect.{Reconnected, attempt_reconnect-Reconnected}
use postgres_cpp_lib.Connection.Attempts.{Ended}
use postgres_cpp_lib.Connection.Settled.{execute_with_retry-Settled}
use postgres_cpp_lib.Connection.Server.{
  server, results_left, server_progress, fresh, stale, select, World, world, results_bound,
}

-- The first attempt finds the connection dead, the second is answered.
retried_run :
    execute_with_retry server 6 select 5 stale ≡ some (value 7, world true false false none 2)
unfolding execute_with_retry attempts_left ensure_connected is_connected execute_query
    check_for_poll_out check_for_poll_in consume_result consume_from attempt_reconnect
    reconnect_until bad_connection
retried_run = refl

consume_result_lem_example :
    (w' : World) × (consume_result server 2 fresh
      ≡ some (summary server none (results_left fresh), w'))
    × (results_left w' ≡ [])
consume_result_lem_example = consume_result_lem server server_progress 2 fresh (results_bound fresh)

attempt_reconnect-Reconnected_example : Reconnected server (attempt_reconnect server 6 5 stale)
attempt_reconnect-Reconnected_example =
    attempt_reconnect-Reconnected server server_progress 6 5 stale (omega arith)

execute_with_retry-Settled_example :
    (n : ℕ) × (r : Expected ℕ SqlError) × (w' : World) × ((m : ℕ)
      → n ≤ m
      → (execute_with_retry server m select 5 stale ≡ some (r, w'))
        × Ended server m select 5 stale r w')
execute_with_retry-Settled_example =
    execute_with_retry-Settled server server_progress select 5 stale
