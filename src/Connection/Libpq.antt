-- ===== src/Connection/Libpq.antt =====
-- libpq, `poll` and the clock, as the client uses them. `W` is the world that they act on: the
-- connection, the socket and the time. `Res` is `PGresult`.
use postgres_cpp_lib.Base.{ℕ, Bool, Option}
use postgres_cpp_lib.Base.Int.{ℤ}
use postgres_cpp_lib.Base.Texts.{Text}
use postgres_cpp_lib.Param.{PgParamDetail}

pub data PollEvents : Type 0 where
  none_in poll_in poll_out : PollEvents

-- The result of `poll`, and whether POLLERR, POLLHUP or POLLNVAL came back.
pub record PollAnswer : Type 0 where
  pub result : ℤ
  pub has_error : Bool

pub data PollingStatus : Type 0 where
  polling_ok polling_failed polling_reading polling_writing polling_active : PollingStatus

pub data ResultStatus : Type 0 where
  tuples_ok command_ok other_status : ResultStatus

pub record LibpqApi (W : Type 0) (Res : Type 0) : Type 0 where
  pub has_connection : W → Bool
  pub status_ok : W → Bool
  pub pq_socket : W → ℤ
  -- Whether the query was dispatched.
  pub pq_send_query_params : PgParamDetail → W → Bool × W
  pub pq_error_message : W → Text
  -- 0 when all is sent, 1 when some is left, -1 for an error.
  pub pq_flush : W → ℤ × W
  -- Descriptor, events and timeout in milliseconds.
  pub poll : ℤ → PollEvents → ℕ → W → PollAnswer × W
  pub pq_consume_input : W → Bool × W
  pub pq_is_busy : W → Bool
  pub pq_get_result : W → Option Res × W
  pub pq_result_status : Res → ResultStatus
  pub pq_result_error_message : Res → Text
  pub pq_reset_start : W → Bool × W
  pub pq_reset_poll : W → PollingStatus × W
  pub pq_set_nonblocking : W → ℤ × W
  -- Milliseconds of the steady clock.
  pub now : W → ℕ × W
