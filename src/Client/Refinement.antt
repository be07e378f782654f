-- ===== src/Client/Refinement.antt =====
-- The client and its service.
use postgres_cpp_lib.Base.{ℕ, ◌+◌, ◌≡◌, refl, sym, ap, subst, arith, Bool, List, [], ◌∷◌, ◌++◌}
use postgres_cpp_lib.Client.{
  QueryRequest, Worker, at_head, at_wait, finished, executing, Task, PostgresClient, Event, next,
  run, connected,
}
use postgres_cpp_lib.Client.Count.{self, times, times-append, times-map, of_worker, waiting, places}
use postgres_cpp_lib.Client.Conserved.{submission, submissions, next-places}
use postgres_cpp_lib.Client.Lost.{ids}
use postgres_cpp_lib.Client.Service.{
  Service, at, idle_service, Serves, idle, Serves-trans, Serves-of_counts,
}
use postgres_cpp_lib.Client.Called.{task_ids, next-Grows}

abbrev worker_ids : Worker → List ℕ
worker_ids (executing item) = item.id ∷ []
worker_ids at_head = []
worker_ids at_wait = []
worker_ids finished = []

times-worker_ids : (w : Worker) (i : ℕ) → times self i (worker_ids w) ≡ of_worker w i
unfolding times
times-worker_ids (executing item) i = omega arith
times-worker_ids at_head i = refl
times-worker_ids at_wait i = refl
times-worker_ids finished i = refl

module _ {Table : Type 0} where
  unfoldable pub outstanding : PostgresClient Table → List ℕ
  unfolding waiting
  outstanding c =
      ids c.requests
      ++ (worker_ids c.worker
          ++ (task_ids c.cb_queue
              ++ (task_ids c.running ++ task_ids (waiting c.overflow_cb_threads))))

  -- The abstract view of a client.
  unfoldable pub view : PostgresClient Table → Service
  unfolding outstanding
  view c = at (outstanding c) (task_ids c.called)

  places-view :
      (c : PostgresClient Table) (i : ℕ)
      → places c i ≡ times self i (outstanding c) + times self i (task_ids c.called)
  unfolding places outstanding
  places-view c i =
      let q = task_ids c.cb_queue in
      let r = task_ids c.running in
      let o = task_ids (waiting c.overflow_cb_threads) in
      omega (
        arith,
        times-append self i (ids c.requests) (worker_ids c.worker ++ (q ++ (r ++ o))),
        times-append self i (worker_ids c.worker) (q ++ (r ++ o)),
        times-append self i q (r ++ o),
        times-append self i r o,
        times-map (λ (x : QueryRequest). x.id) i c.requests,
        times-worker_ids c.worker i,
        times-map (λ (t : Task Table). t.id) i c.cb_queue,
        times-map (λ (t : Task Table). t.id) i c.running,
        times-map (λ (t : Task Table). t.id) i (waiting c.overflow_cb_threads),
        times-map (λ (t : Task Table). t.id) i c.called,
      )

  -- What an event does, seen from outside: requests come in, and callbacks are called.
  next-Serves :
      (e : Event Table) (c : PostgresClient Table)
      → Serves (view c) (submission e) (view (next e c))
  unfolding view
  next-Serves e c =
      let (new, h) = next-Grows e c in
      subst (λ l. Serves (view c) (submission e) (at (outstanding (next e c)) l)) (sym h)
        (Serves-of_counts (outstanding c) (submission e) new (outstanding (next e c))
          (task_ids c.called)
          (λ i. omega (
            arith,
            next-places i e c,
            places-view c i,
            places-view (next e c) i,
            times-append self i (task_ids c.called) new,
            ap (times self i) h,
          )))

  run-Serves_from :
      (es : List (Event Table)) (c : PostgresClient Table)
      → Serves (view c) (submissions es) (view (run es c))
  unfolding run submissions
  run-Serves_from [] c = idle
  run-Serves_from (e ∷ es) c = Serves-trans (next-Serves e c) (run-Serves_from es (next e c))

  -- The client, with all its threads and queues and in any order of their events, does nothing that the
  -- service could not do when the same requests come in, in the same order: each callback that is
  -- called is that of a request which came in, was outstanding, and is no longer.
  pub run-Serves :
      (heartbeat_enabled : Bool) (num_cb_threads : ℕ) (es : List (Event Table))
      → Serves idle_service
          (submissions es)
          (view (run es (connected heartbeat_enabled num_cb_threads)))
  unfolding view connected outstanding
  run-Serves heartbeat_enabled num_cb_threads es =
      run-Serves_from es (connected heartbeat_enabled num_cb_threads)
