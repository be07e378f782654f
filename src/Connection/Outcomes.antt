-- ===== src/Connection/Outcomes.antt =====
-- The tests that src/postgres_priv.cpp makes on what libpq and `poll` return, and its outcomes.
use postgres_cpp_lib.Base.{Bool, true, false, Option, none, some, ◌==◌}
use postgres_cpp_lib.Base.Int.{ℤ, pos, negsuc}
use postgres_cpp_lib.Base.Texts.{codes, Expected, value, unexpected}
use postgres_cpp_lib.SqlError.{SqlError, query_failed}
use postgres_cpp_lib.SqlError.Types.{ErrorType}
use postgres_cpp_lib.Connection.Libpq.{
  PollEvents, none_in, poll_in, poll_out, PollingStatus, polling_ok, polling_failed,
  polling_reading, polling_writing, ResultStatus, tuples_ok, command_ok, other_status,
}

abbrev pub is_negative : ℤ → Bool
is_negative (pos n) = false
is_negative (negsuc n) = true

abbrev pub is_zero : ℤ → Bool
is_zero (pos n) = n == 0
is_zero (negsuc n) = false

abbrev pub is_bad_connection : ErrorType → Bool
is_bad_connection ErrorType.bad_connection = true
is_bad_connection _ = false

-- The outcome of a function that returns `std::expected` or an error, with the world after it.
abbrev pub Outcome : Type 0 → Type 0 → Type 0
Outcome W A = Option (Expected A SqlError × W)

abbrev pub is_ok : ResultStatus → Bool
is_ok tuples_ok = true
is_ok command_ok = true
is_ok other_status = false

-- `if (!result) result = std::move(temp);`
abbrev pub or_first {ℓ} : {Res : Type ℓ} → Option Res → Res → Option Res
or_first none r = some r
or_first (some first) r = some first

abbrev pub or_no_results : {Res : Type 0} → Option Res → Expected Res SqlError
or_no_results none = unexpected (query_failed (codes "no results received"))
or_no_results (some r) = value r

-- The events that a round of the reconnection waits for.
abbrev pub events_of : PollingStatus → PollEvents
events_of polling_reading = poll_in
events_of polling_writing = poll_out
events_of _ = none_in

abbrev pub is_polling_ok : PollingStatus → Bool
is_polling_ok polling_ok = true
is_polling_ok _ = false

abbrev pub is_polling_failed : PollingStatus → Bool
is_polling_failed polling_failed = true
is_polling_failed _ = false
