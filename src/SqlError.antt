-- ===== src/SqlError.antt =====
-- include/database/postgres_error.h: `sql_error`.
pub mod Types
pub mod Shown
mod Tests
use postgres_cpp_lib.Base.{ℕ, Bool, List, [], ◌∷◌, ◌++◌, ◌==◌, if◌then◌else◌}
use postgres_cpp_lib.Base.Texts.{Text, codes}
use Types.{ErrorType}

pub record SqlError : Type 0 where
  pub err : ErrorType
  pub message : Text

unfoldable pub sql_file_error : Text → SqlError
sql_file_error str = record { err = ErrorType.sql_file_error; message = str }

unfoldable pub failed_to_connect : SqlError
failed_to_connect = record {
  err = ErrorType.connection_failed;
  message = codes "Failed to connect to postgres";
}

unfoldable pub failed_to_reconnect : Text → SqlError
failed_to_reconnect msg = record { err = ErrorType.reconnect_failed; message = msg }

unfoldable pub bad_connection : Text → SqlError
bad_connection str = record { err = ErrorType.bad_connection; message = str }

unfoldable pub socket_failed : Text → SqlError
socket_failed str = record { err = ErrorType.socket_failed; message = str }

unfoldable pub query_failed : Text → SqlError
query_failed str = record { err = ErrorType.query_failed; message = str }

unfoldable pub shutting_down : Text → SqlError
shutting_down str = record { err = ErrorType.shutting_down; message = str }

unfoldable pub transaction_rolled_back : SqlError
transaction_rolled_back = record {
  err = ErrorType.transaction_rolled_back;
  message = codes "transaction already rolled back";
}

unfoldable pub code_str : ErrorType → Text
code_str ErrorType.connection_failed = codes "ConnectionFailed"
code_str ErrorType.query_failed = codes "QueryFailed"
code_str ErrorType.flush_failed = codes "FlushFailed"
code_str ErrorType.poll_failed = codes "PollFailed"
code_str ErrorType.consume_failed = codes "ConsumeFailed"
code_str ErrorType.socket_failed = codes "SocketFailed"
code_str ErrorType.busy = codes "Busy"
code_str ErrorType.time_out = codes "TimeOut"
code_str ErrorType.shutting_down = codes "ShuttingDown"
code_str ErrorType.bad_connection = codes "BadConnection"
code_str ErrorType.reconnect_failed = codes "ReconnectFailed"
code_str ErrorType.sql_file_error = codes "SqlFileError"
code_str ErrorType.transaction_rolled_back = codes "TransactionRolledBack"

-- `std::erase(message, '\n')`
unfoldable pub erase_newlines : Text → Text
erase_newlines [] = []
erase_newlines (c ∷ cs) = if c == b'\n' then erase_newlines cs else c ∷ erase_newlines cs

-- `to_str`: the text, and the error, whose message is mutable.
unfoldable pub to_str : SqlError → Text × SqlError
unfolding code_str erase_newlines
to_str e =
    let message = erase_newlines e.message in
    (codes "Postgres: " ++ (code_str e.err ++ b' ' ∷ message), record e { message = message })
