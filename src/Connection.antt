-- ===== src/Connection.antt =====
-- The connection's side of src/postgres_priv.cpp: `ExecuteWithRetry` and what it calls. Each `while`
-- loop takes fuel, and `none` means that it ran out; Connection/Progress bounds the rounds.
pub mod Libpq
mod Outcomes
pub use Outcomes.*
pub mod Progress
pub mod Polling
pub mod Consume
pub mod Reconnect
pub mod Attempts
pub mod Ways
pub mod Retry
pub mod Stable
pub mod Settled
pub mod Server
mod Tests
use postgres_cpp_lib.Base.{
  ℕ, ◌+◌, zero, suc, ◌-◌, Bool, true, false, not, ◌&&◌, ◌||◌, Option, none, some, List, [], ◌∷◌,
  leb, ◌==◌, if◌then◌else◌,
}
use postgres_cpp_lib.Base.Int.{ℤ, pos, negsuc}
use postgres_cpp_lib.Base.Texts.{Text, codes, Expected, value, unexpected}
use postgres_cpp_lib.Param.{PgParamDetail}
use postgres_cpp_lib.SqlError.{
  SqlError, failed_to_reconnect, bad_connection, socket_failed, query_failed,
}
use postgres_cpp_lib.SqlError.Types.{ErrorType}
use Libpq.{
  LibpqApi, PollEvents, none_in, poll_in, poll_out, PollAnswer, PollingStatus, polling_ok,
  polling_failed, polling_reading, polling_writing, polling_active, ResultStatus, tuples_ok,
  command_ok, other_status,
}

module _ {W : Type 0} {Res : Type 0} (api : LibpqApi W Res) where
  open api use {
    has_connection, status_ok, pq_socket, pq_send_query_params, pq_error_message, pq_flush, poll,
    pq_consume_input, pq_is_busy, pq_get_result, pq_result_status, pq_result_error_message,
    pq_reset_start, pq_reset_poll, pq_set_nonblocking, now,
  }

  -- src/postgres_pub.cpp
  unfoldable pub is_connected : W → Bool
  is_connected w = has_connection w && status_ok w

  unfoldable pub check_for_poll_out : ℕ → ℤ → W → Outcome W (Unit {0})
  check_for_poll_out zero socket w = none
  check_for_poll_out (suc fuel) socket w =
      let (flushed, w₁) = pq_flush w in
      let (answer, w₂) = poll socket poll_out 5000 w₁ in
      let again = check_for_poll_out fuel socket w₂ in
      if is_negative flushed
      then some (unexpected (socket_failed (codes "failed to flush socket")), w₁)
      else if is_zero flushed
      then some (value tt, w₁)
      else if is_negative answer.result
      then some (unexpected (socket_failed (codes "Pollout event failed")), w₂)
      else if is_zero answer.result
      then some (unexpected (socket_failed (codes "socket timed out")), w₂)
      else if answer.has_error
      then some (unexpected (socket_failed (codes "Socket failed")), w₂)
      else again

  unfoldable pub check_for_poll_in : ℕ → ℤ → W → Outcome W (Unit {0})
  check_for_poll_in zero socket w = none
  check_for_poll_in (suc fuel) socket w =
      let (answer, w₁) = poll socket poll_in 5000 w in
      let (consumed, w₂) = pq_consume_input w₁ in
      let again = check_for_poll_in fuel socket w₂ in
      if is_negative answer.result
      then some (unexpected (socket_failed (codes "failed to poll socket")), w₁)
      else if is_zero answer.result
      then some (unexpected (socket_failed (codes "socket timed out")), w₁)
      else if not consumed
      then some (unexpected (bad_connection (pq_error_message w₂)), w₂)
      else if pq_is_busy w₂
      then again
      else some (value tt, w₂)

  -- `while (PGresult* r2 = PQgetResult(…)) PQclear(r2);`
  unfoldable pub drain : ℕ → W → Option W
  drain zero w = none
  drain (suc fuel) w =
      let (r, w₁) = pq_get_result w in elim r [ none ↦ some w₁ | some r₂ ↦ drain fuel w₁ ]

  -- The error that is returned once the other results are gone.
  abbrev pub drained : Text → Option W → Outcome W Res
  drained msg none = none
  drained msg (some w) = some (unexpected (query_failed msg), w)

  -- The loop of `ConsumeResult`, with the result kept so far.
  unfoldable pub consume_from : ℕ → Option Res → W → Outcome W Res
  unfolding drain
  consume_from zero result w = none
  consume_from (suc fuel) result w =
      let (r, w₁) = pq_get_result w in
      elim r [
        | none ↦ some (or_no_results result, w₁)
        | some temp ↦
            let onward = consume_from fuel (or_first result temp) w₁ in
            let failed = drained (pq_result_error_message temp) (drain fuel w₁) in
            if is_ok (pq_result_status temp) then onward else failed
      ]

  unfoldable pub consume_result : ℕ → W → Outcome W Res
  consume_result fuel w = consume_from fuel none w

  -- The loop of `AttemptReconnect` up to `deadline`; the answer is the error, if any.
  unfoldable pub reconnect_until : ℕ → ℕ → W → Option (Option SqlError × W)
  reconnect_until zero deadline w = none
  reconnect_until (suc fuel) deadline w =
      let (time, w₁) = now w in
      let (st, w₂) = pq_reset_poll w₁ in
      let (set, w₃) = pq_set_nonblocking w₂ in
      let socket = pq_socket w₂ in
      let (answer, w₄) = poll socket (events_of st) (deadline - time) w₂ in
      let again = reconnect_until fuel deadline w₄ in
      if leb deadline time
      then some (some (failed_to_reconnect (codes "timeout")), w₁)
      else if is_polling_ok st
      then (if not (is_zero set)
          then some (some (failed_to_reconnect (pq_error_message w₃)), w₃)
          else some (none, w₃))
      else if is_polling_failed st
      then some (some (failed_to_reconnect (codes "PQresetPoll failed")), w₂)
      else if is_negative socket
      then some (some (failed_to_reconnect (codes "PQsocket failed")), w₂)
      else if is_negative answer.result || is_zero answer.result
      then some (some (failed_to_reconnect (codes "poll failed")), w₄)
      else if answer.has_error
      then some (some (failed_to_reconnect (codes "socket error")), w₄)
      else again

  unfoldable pub attempt_reconnect : ℕ → ℕ → W → Option (Option SqlError × W)
  attempt_reconnect fuel timeout w =
      let (started, w₁) = pq_reset_start w in
      let (time, w₂) = now w₁ in
      let onward = reconnect_until fuel (time + timeout) w₂ in
      if not started
      then some (some (failed_to_reconnect (codes "PQresetStart failed")), w₁)
      else onward

  -- What follows a wait: its error ends the query.
  abbrev pub and_then : {A B : Type 0} → Outcome W A → (W → Outcome W B) → Outcome W B
  and_then none k = none
  and_then (some (value a, w)) k = k w
  and_then (some (unexpected e, w)) k = some (unexpected e, w)

  unfoldable pub execute_query : ℕ → PgParamDetail → W → Outcome W Res
  execute_query fuel detail w =
      let socket = pq_socket w in
      let (sent, w₁) = pq_send_query_params detail w in
      if is_negative socket
      then some (unexpected (socket_failed (codes "failed to get socket")), w)
      else if not sent
      then some (unexpected (bad_connection (pq_error_message w₁)), w₁)
      else and_then (check_for_poll_out fuel socket w₁)
          (λ w₂. and_then (check_for_poll_in fuel socket w₂) (consume_result fuel))

  -- A reconnection whose error ends the query.
  abbrev pub or_reconnect :
      {A : Type 0} → Option (Option SqlError × W) → (W → Outcome W A) → Outcome W A
  or_reconnect none k = none
  or_reconnect (some (none, w)) k = k w
  or_reconnect (some (some e, w)) k = some (unexpected e, w)

  -- `if (!is_connected())` at the head of an attempt.
  unfoldable pub ensure_connected : ℕ → ℕ → W → Option (Option SqlError × W)
  ensure_connected fuel timeout w =
      if not (is_connected w) then attempt_reconnect fuel timeout w else some (none, w)

  -- What an attempt does with the outcome of its query: `first` is `attempts == 1`, and `onward` the
  -- attempts behind it.
  abbrev pub retry_on :
      Bool
      → (W → Option (Option SqlError × W))
      → Outcome W Res
      → (W → Outcome W Res)
      → Outcome W Res
  retry_on first reset none onward = none
  retry_on first reset (some (value r, w)) onward = some (value r, w)
  retry_on first reset (some (unexpected err, w)) onward =
      if is_bad_connection err.err && first
      then or_reconnect (reset w) onward
      else some (unexpected err, w)

  -- `for (int attempts = ...; attempts <= 2; ++attempts)`, on the number of attempts left, at most 2;
  -- `attempts` is 1 where one more is left.
  unfoldable pub attempts_left : ℕ → ℕ → ℕ → PgParamDetail → W → Outcome W Res
  attempts_left zero fuel timeout detail w =
      some (unexpected (query_failed (codes "unreachable")), w)
  attempts_left (suc n) fuel timeout detail w = or_reconnect (ensure_connected fuel timeout w) λ w₁.
      retry_on (n == 1) (attempt_reconnect fuel timeout) (execute_query fuel detail w₁)
        (attempts_left n fuel timeout detail)

  unfoldable pub execute_with_retry : ℕ → PgParamDetail → ℕ → W → Outcome W Res
  execute_with_retry fuel detail reconnect_timeout w =
      attempts_left 2 fuel reconnect_timeout detail w
