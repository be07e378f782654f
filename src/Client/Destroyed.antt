-- ===== src/Client/Destroyed.antt =====
-- What the destructor leaves behind.
use postgres_cpp_lib.Base.{
  ℕ, ◌+◌, ◌≡◌, refl, ap, ◌∙◌, arith, Bool, true, false, List, [], ◌∷◌, length, append-nil,
}
use postgres_cpp_lib.Base.Texts.{Expected}
use postgres_cpp_lib.SqlError.{SqlError}
use postgres_cpp_lib.Client.{
  QueryRequest, Worker, at_head, at_wait, finished, executing, Task, PostgresClient, Event,
  requests_stop, requests_cb_stop, works, reap_overflow_threads, next, run, connected,
}
use postgres_cpp_lib.Client.Count.{
  times-map, self, times, of_worker, of_requests, of_tasks, waiting, places,
}
use postgres_cpp_lib.Client.Conserved.{submissions, run-conserves, next-places}
use postgres_cpp_lib.Client.Stop.{stop_at_wait}
use postgres_cpp_lib.Client.Lost.{ids, leaves, rounds}
use postgres_cpp_lib.Client.Stranded.{Attended, next-Attended, run-Attended}
use postgres_cpp_lib.Client.Destroy.{
  join_worker, join_overflow, join_callbacks, left_to_do, before_pool, destroy,
}
use postgres_cpp_lib.Client.Joined.{
  finished_stays, join_worker_at, join_overflow-places, call_all-Kept, call_all-Attended, Settled,
  join_callbacks-Settled, join_callbacks-places,
}

-- The requests that are lost when the stop comes where the worker is.
abbrev pub abandoned : Worker → List QueryRequest → List QueryRequest
abandoned at_wait reqs = []
abandoned at_head reqs = reqs
abandoned finished reqs = reqs
abandoned (executing item) reqs = reqs

module _ {Table : Type 0} where
  none_of : (ts : List (Task Table)) (i : ℕ) → length ts ≡ 0 → of_tasks ts i ≡ 0
  unfolding times
  none_of [] i h = refl
  none_of (t ∷ ts) i h = absurd (omega (arith, h))

  join_worker-abandoned :
      (result : Expected Table SqlError) (c : PostgresClient Table) (w : Worker)
      → c.worker ≡ w
      → c.stop_requested ≡ true
      → ids (join_worker result c).requests ≡ ids (abandoned w c.requests)
  unfolding join_worker
  join_worker-abandoned result c (executing item) at stop =
      (rounds false false result result item c at stop).1 ∙ append-nil (ids c.requests)
  join_worker-abandoned result c at_head at stop =
      let left : PostgresClient Table = record c { worker = finished } in
      ap (λ d. ids (next (works false result) d).requests) (leaves false result c at stop)
      ∙ ap (λ d. ids d.requests) (finished_stays false result left refl)
  join_worker-abandoned result c at_wait at stop =
      let d : PostgresClient Table = next (works false result) c in
      let (f, none_left, _, _) = stop_at_wait false result c at stop in
      ap (λ d. ids d.requests) (finished_stays false result d f) ∙ ap ids none_left
  join_worker-abandoned result c finished at stop =
      ap (λ d. ids (next (works false result) d).requests) (finished_stays false result c at)
      ∙ ap (λ d. ids d.requests) (finished_stays false result c at)

  join_worker-places :
      (i : ℕ) (result : Expected Table SqlError) (c : PostgresClient Table)
      → places (join_worker result c) i ≡ places c i
  unfolding join_worker times
  join_worker-places i result c = omega (
    arith,
    next-places i (works false result) (next (works false result) c),
    next-places i (works false result) c,
  )

  join_worker-Attended :
      (result : Expected Table SqlError) (c : PostgresClient Table)
      → Attended c
      → Attended (join_worker result c)
  unfolding join_worker
  join_worker-Attended result c h =
      next-Attended (works false result) (next (works false result) c)
        (next-Attended (works false result) c h)

  before_pool-places :
      (i : ℕ) (result : Expected Table SqlError) (c : PostgresClient Table)
      → places (before_pool result c) i ≡ places c i
  unfolding before_pool times
  before_pool-places i result c =
      let c₁ : PostgresClient Table = next requests_stop c in
      let w : PostgresClient Table = join_worker result c₁ in
      omega (
        arith,
        next-places i requests_cb_stop (join_overflow w),
        join_overflow-places i w,
        join_worker-places i result c₁,
        next-places i requests_stop c,
      )

  -- The client when the callback workers are told to stop.
  record Stopped (c d : PostgresClient Table) : Type 0 where
    pub gone : d.worker ≡ finished
    pub reaped : d.overflow_cb_threads ≡ []
    pub told : d.cb_stop_requested ≡ true
    pub attended : Attended d
    pub conserved : (i : ℕ) → places d i ≡ places c i
    pub lost : ids d.requests ≡ ids (abandoned c.worker c.requests)

  before_pool-Stopped :
      (result : Expected Table SqlError) (c : PostgresClient Table)
      → Attended c
      → Stopped c (before_pool result c)
  unfolding before_pool next join_overflow
  before_pool-Stopped result c h =
      let c₁ : PostgresClient Table = next requests_stop c in
      let w : PostgresClient Table = join_worker result c₁ in
      let cleared : PostgresClient Table = record w { overflow_cb_threads = [] } in
      let ts : List (Task Table) = waiting (reap_overflow_threads w.overflow_cb_threads) in
      let (k, o, r) = call_all-Kept ts cleared in
      record {
        gone = k ∙ join_worker_at result c₁ c.worker refl refl;
        reaped = o;
        told = refl;
        attended = call_all-Attended ts cleared (join_worker-Attended result c₁ h);
        conserved = λ i. before_pool-places i result c;
        lost = ap ids r ∙ join_worker-abandoned result c₁ c.worker refl refl;
      }

  all_called :
      (d : PostgresClient Table) (i : ℕ)
      → d.worker ≡ finished
      → d.overflow_cb_threads ≡ []
      → left_to_do d ≡ 0
      → places d i ≡ of_requests d.requests i + of_tasks d.called i
  unfolding places waiting times
  all_called d i f o z = omega (
    arith,
    ap (λ w. of_worker w i) f,
    ap (λ ts. of_tasks (waiting ts) i) o,
    none_of d.running i (omega (arith, z)),
    none_of d.cb_queue i (omega (arith, z)),
  )

  pool_counts :
      (fuel i total : ℕ) (b c : PostgresClient Table)
      → Stopped c b
      → Settled b (join_callbacks fuel b)
      → places c i ≡ total
      → of_tasks (join_callbacks fuel b).called i + of_requests (abandoned c.worker c.requests) i
        ≡ total
  pool_counts fuel i total b c s ((k, o, r), z) t =
      let d : PostgresClient Table = join_callbacks fuel b in
      omega (
        arith,
        t,
        s.conserved i,
        join_callbacks-places i fuel b,
        all_called d i (k ∙ s.gone) (o ∙ s.reaped) z,
        ap (times self i) (ap ids r ∙ s.lost),
        times-map (λ (x : QueryRequest). x.id) i d.requests,
        times-map (λ (x : QueryRequest). x.id) i (abandoned c.worker c.requests),
      )

  -- The destructor, after any run: the worker and all the threads for callbacks are gone, no callback
  -- is left on its way, and every callback was called as often as it was submitted, but for those of
  -- the requests that were queued while the worker was not at its wait, which are never called.
  pub destroy_lem :
      (heartbeat_enabled : Bool) (num_cb_threads : ℕ) (es : List (Event Table))
      (result : Expected Table SqlError) (i : ℕ)
      → let c = run es (connected heartbeat_enabled num_cb_threads) in
        let d = destroy result c in
        (d.worker ≡ finished)
        × (d.overflow_cb_threads ≡ [])
        × (left_to_do d ≡ 0)
        × (of_tasks d.called i + of_requests (abandoned c.worker c.requests) i
            ≡ times self i (submissions es))
  unfolding destroy
  destroy_lem heartbeat_enabled num_cb_threads es result i =
      let c : PostgresClient Table = run es (connected heartbeat_enabled num_cb_threads) in
      let b : PostgresClient Table = before_pool result c in
      let s = before_pool-Stopped result c (run-Attended heartbeat_enabled num_cb_threads es) in
      let settled = join_callbacks-Settled (left_to_do b) b (omega arith) s.told s.attended in
      let ((k, o, r), z) = settled in
      (
        k ∙ s.gone,
        o ∙ s.reaped,
        z,
        pool_counts (left_to_do b) i (times self i (submissions es)) b c s settled
            (run-conserves heartbeat_enabled num_cb_threads es i).0,
      )
