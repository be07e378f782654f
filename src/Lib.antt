-- ===== src/Lib.antt =====
-- A verification library for postgres-cpp-lib, an asynchronous PostgreSQL client over libpq.
--
-- The program. A caller hands a query and its arguments to a transaction or to the client. The
-- arguments are put into a variant and encoded for the wire; the query is queued for the one worker
-- thread that owns the connection; the worker sends it, waits for the answer, reconnects where the
-- connection was lost, and hands the result back, whose columns are decoded on demand. A migration
-- reads a file and splits it into statements.
--
-- The parts, by file:
-- - Base and its children: lists, texts, signed integers and tests on the native numbers.
-- - SqlParser: `ParseStatements` of include/database/internal/sql_parser.h. The text is a list of
--   character codes. The index into it is the rest of the list, and `current` is kept in reverse,
--   so that `back` and `push_back` are at its head. `step` is one round of the main loop and `loop`
--   runs it on fuel; a round consumes a character, so the length of the text is enough. SqlParser/Steps
--   is about the loop; Tidy and Statements about what is returned; Comments about comments and
--   literals; Replay about printing and reading back. Reference reads a text in three passes, with
--   no state; Tokens and Equivalence compare it with the loop.
-- - Wire: `EncodeFixed` and `ToNetworkOrder` of include/database/internal/type_detail.h and
--   `ReadBigEndian` of include/database/result/colunm.h. A byte is a number below 256, a machine
--   integer its bit pattern as a number.
-- - Numeric: `EncodeNumericUint64` of include/database/internal/type_detail.h; the digit loop has the
--   value as fuel, which each round divides by 10000.
-- - Param: `NormalizeIntegral`, `CreateSingleData`, `ToBinary` and `MakePgParamBuffer` of the same
--   file. A pointer into the texts of a `pg_param_detail` is the position of the text, or none for
--   a null pointer. A float or a double is its bit pattern. `per_us` is the number of ticks of the
--   system clock in a microsecond. Buffer and Sent are about what libpq reads, Integers about the
--   variant, Types about `IsSupported` and the alternatives, Bounds about the sizes of encoded arguments.
-- - Moves: the moves of `pg_param_detail` and of `query_request` (include/database/postgres_client.h) in
--   a memory of objects and of blocks of strings, since the pointers of a `pg_param_detail` are into
--   its own strings. An address has a `pg_param_detail`, and what a request has behind it. Places and
--   Kept are about where the parameters go, Passed about the callbacks, Reading and Sent about what
--   libpq reads.
-- - Column: `colum` and the specialisations of `as` of include/database/result/colunm.h. PgOid has the
--   type numbers; Decode the reading of NUMERIC; RoundTrip and Typed what comes back of an argument;
--   Nulls what a reading refuses.
-- - SqlError: `sql_error` of include/database/postgres_error.h.
-- - Transaction: src/transaction.cpp, include/database/transaction.h and `create_transaction` of
--   src/postgres_pub.cpp, over the executor of include/database/query_executor.h, which is a
--   parameter. Script is about a whole life of a transaction, Finished about one that has ended or
--   was moved from. Threads is about several callers: a step is what one does up to the point at
--   which it releases the mutex.
-- - Connection: `ExecuteWithRetry`, `ExecuteQuery`, `AttemptReconnect`, `CheckForPollOut`,
--   `CheckForPollIn` and `ConsumeResult` of src/postgres_priv.cpp. Libpq has libpq, `poll` and the
--   clock as a record of functions on a world. Each loop of the source takes fuel. Progress names
--   what ends the loops: each wait lets some output go or some answer come, the results of a query
--   are finitely many (those of COPY FROM STDIN are not), and the clock can be read only so often in a millisecond; Polling, Consume,
--   Reconnect and Retry show that fuel above these bounds is enough. Attempts and Ways have the ways in which
--   `ExecuteWithRetry` can end; Stable and Settled show that there is fuel for any world and that more
--   changes nothing. Server is a server for the tests.
-- - Client: the threads of src/postgres_priv.cpp and include/database/postgres_client.h:
--   `SendToWorker`, `EnqueueAsync`, `PostCallback`, `QueryWorker`, `CallbackWorker` and
--   `reap_overflow_threads`. An event is what one thread does between two points at which another can
--   come in, and a run is any list of events; an event that is not possible changes nothing. The
--   two callbacks of a request are its number. What `ExecuteWithRetry` returns to the worker, and
--   whether the heartbeat is due, come with the event. Count is about the places where a callback
--   can stand, Conserved about all runs, Stop and Lost about what a stop does.
--   Order is about the order in which requests are taken. Service is what a client promises: a bag
--   of outstanding requests, each answered once; Called and Refinement map a client to it. Destroy is the
--   destructor, which joins one thread after the other; the rounds of the callback workers are
--   bounded by what is left to do. Stranded, Joined and Destroyed are about how it ends.
--   Posting has finer events, for what comes between the look of `PostCallback` at the idle callback
--   workers and what it does then. Held and Posted are about the worker that a callback in the queue
--   has, Places and Delivered about where callbacks stand, Leaving and Closing about the end.
--   Connect is the constructors and `connect` of src/postgres_pub.cpp; Opened counts connections.
-- - Wakeup: the mutex `m_mutex` and the condition variable `m_cv` of the same class: between the test
--   of the condition and the sleep of `QueryWorker`, the `notify_one` of `SendToWorker` and
--   `EnqueueAsync`, and the stop of the destructor. Client has no lost notifications; here the
--   sleep is a state. Heard is about requests, Join about the destructor, whose runs have a rank.
-- - Url: `GetDatabaseUrl` of include/database/postgres_client.h. Settings is how such a URL is read,
--   Appended what becomes of the options.
-- - Session: Client over Connection, and the executor that transactions and migrations use. The worker
--   goes on when a caller waits for a future; the world is that of libpq. Served, Waited
--   and Settled are about a caller that waits, Logged about a transaction, Asked about the arguments
--   of a caller. Heartbeat has the heartbeats that the worker sends between requests; how many are due
--   is given.
-- - Migrations: `Migrate` of include/database/migrations.h, over an executor and the answer of the
--   pool.
-- - Table: include/database/result/table.h and row.h, over the accessors of a PGresult.
-- The tests and the examples at concrete values stand in the module Tests of each part.
--
-- How the parts fit: what Param sends for an argument is what Column reads back (Column/Typed,
-- Column/RoundTrip); Transaction and Migrations work over any executor that logs what it is given, and
-- Session shows that a client over a connection is one; Session/Asked joins the queue of Client and the
-- buffers of Param.
--
-- Not modelled: the start of threads; a second `connect` while the threads run; `ToTimestampString`,
-- which nothing calls; the connection pool and the core library of dependencies/core, which is another
-- project. An allocation that fails is not modelled, nor output to the console.
pub mod Base
pub mod SqlParser
pub mod Wire
pub mod Numeric
pub mod Param
pub mod Column
pub mod SqlError
pub mod Transaction
pub mod Connection
pub mod Client
pub mod Url
pub mod Session
pub mod Wakeup
pub mod Moves
pub mod Migrations
pub mod Table
