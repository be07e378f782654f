-- ===== src/Client/Destroy.antt =====
-- `~postgres_client` of src/postgres_pub.cpp: one order in which the threads that it joins can end.
use postgres_cpp_lib.Base.{ℕ, ◌+◌, ◌*◌, zero, suc, false, List, [], ◌∷◌, some, length}
use postgres_cpp_lib.Base.Texts.{Expected}
use postgres_cpp_lib.SqlError.{SqlError}
use postgres_cpp_lib.Client.{
  Task, PostgresClient, requests_stop, requests_cb_stop, works, reap_overflow_threads, call,
  cb_wait, cb_wake, cb_call, next,
}
use postgres_cpp_lib.Client.Count.{waiting}

module _ {Table : Type 0} where
  -- `m_worker_thread.join()`: the worker is at the end of its loop after two rounds at most; `result` is
  -- what the query returns that it may be executing.
  unfoldable pub join_worker : Expected Table SqlError → PostgresClient Table → PostgresClient Table
  unfolding next
  join_worker result c = next (works false result) (next (works false result) c)

  unfoldable pub call_all : List (Task Table) → PostgresClient Table → PostgresClient Table
  unfolding call
  call_all [] c = c
  call_all (t ∷ ts) c = call_all ts (call t c)

  -- `m_overflow_cb_threads.clear()` joins the threads that are not done.
  unfoldable pub join_overflow : PostgresClient Table → PostgresClient Table
  unfolding call_all waiting reap_overflow_threads
  join_overflow c =
      call_all (waiting (reap_overflow_threads c.overflow_cb_threads))
        (record c { overflow_cb_threads = [] })

  -- A callback worker that can go on does: one at the head of its loop, one with a task, or an idle one.
  unfoldable pub go_on : ℕ → List (Task Table) → PostgresClient Table → PostgresClient Table
  unfolding cb_wait cb_wake cb_call
  go_on (suc n) running c = cb_wait (suc n) c
  go_on zero (t ∷ ts) c = cb_call (some (t, ts)) c
  go_on zero [] c = cb_wake c.idle_cb_workers c.cb_queue c

  unfoldable pub join_callbacks : ℕ → PostgresClient Table → PostgresClient Table
  unfolding go_on
  join_callbacks zero c = c
  join_callbacks (suc fuel) c = join_callbacks fuel (go_on c.ready c.running c)

  -- How often the callback workers can go on, at most.
  abbrev pub left_to_do : PostgresClient Table → ℕ
  left_to_do c = 2 * c.ready + c.idle_cb_workers + 3 * length c.running + 3 * length c.cb_queue

  unfoldable pub before_pool : Expected Table SqlError → PostgresClient Table → PostgresClient Table
  unfolding join_worker join_overflow next
  before_pool result c =
      next requests_cb_stop (join_overflow (join_worker result (next requests_stop c)))

  unfoldable pub destroy : Expected Table SqlError → PostgresClient Table → PostgresClient Table
  unfolding before_pool join_callbacks
  destroy result c = let d = before_pool result c in join_callbacks (left_to_do d) d
