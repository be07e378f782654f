-- ===== src/SqlError/Types.antt =====
-- `sql_error::type`.
pub data ErrorType : Type 0 where
  connection_failed reconnect_failed query_failed flush_failed poll_failed : ErrorType
  consume_failed socket_failed busy time_out shutting_down : ErrorType
  bad_connection sql_file_error transaction_rolled_back : ErrorType
