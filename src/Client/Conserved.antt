-- ===== src/Client/Conserved.antt =====
-- The places of callbacks in a run of the threads.
use postgres_cpp_lib.Base.{
  ℕ, ◌+◌, ◌≤◌, zero, suc, ◌≡◌, refl, ap, arith, Bool, true, false, ◌&&◌, Option, none, some, List,
  [], ◌∷◌, ◌++◌, ◌==◌, if_elim,
}
use postgres_cpp_lib.Base.Texts.{Expected}
use postgres_cpp_lib.SqlError.{SqlError}
use postgres_cpp_lib.Client.{
  QueryRequest, Worker, at_head, at_wait, finished, executing, Task, OverflowCallbackThread,
  PostgresClient, Event, sends_to_worker, enqueues_async, requests_stop, requests_cb_stop, works,
  cb_waits, cb_wakes, cb_calls, overflow_calls, take_out, finish, call, post_callback, answer,
  answer_pending, stopped_error, take_request, wake, work, cb_wait, cb_wake, cb_call, overflow_call,
  send_to_worker, enqueue_async, next, run, connected,
}
use postgres_cpp_lib.Client.Count.{
  self, times, times-append, times-snoc, one, of_worker, of_requests, of_tasks, waiting-posted,
  take_out-Taken, Taken, finish-Finished, Finished, places,
}

module _ {Table : Type 0} where
  -- What an event submits.
  abbrev pub submission : Event Table → List ℕ
  submission (sends_to_worker id detail) = id ∷ []
  submission (enqueues_async id detail) = id ∷ []
  submission _ = []

  unfoldable pub submissions : List (Event Table) → List ℕ
  submissions [] = []
  submissions (e ∷ es) = submission e ++ submissions es

  post_callback-places :
      (i : ℕ) (b : Bool) (t : Task Table) (c : PostgresClient Table)
      → places (post_callback b t c) i ≡ places c i + one t.id i
  unfolding places post_callback call
  post_callback-places i b t c =
      if_elim (λ (d : PostgresClient Table). places d i ≡ places c i + one t.id i) b
        (λ _. omega (arith, times-snoc (λ (t : Task Table). t.id) i c.called t))
        λ _.
          if_elim (λ (d : PostgresClient Table). places d i ≡ places c i + one t.id i)
            (c.idle_cb_workers == 0) (λ _. omega (arith, waiting-posted i c.overflow_cb_threads t))
            (λ _. omega (arith, times-snoc (λ (t : Task Table). t.id) i c.cb_queue t))

  answer-places :
      (i : ℕ) (r : QueryRequest) (result : Expected Table SqlError) (c : PostgresClient Table)
      → places (answer r result c) i ≡ places c i + one r.id i
  unfolding places answer call
  answer-places i r result c =
      if_elim (λ (d : PostgresClient Table). places d i ≡ places c i + one r.id i) r.direct_callback
        (λ _. omega (
          arith,
          times-snoc (λ (t : Task Table). t.id) i c.called (record { id = r.id; result = result }),
        ))
        (λ _. post_callback-places i false (record { id = r.id; result = result }) c)

  answer_pending-places :
      (i : ℕ) (rs : List QueryRequest) (c : PostgresClient Table)
      → places (answer_pending rs c) i ≡ places c i + of_requests rs i
  unfolding answer_pending times
  answer_pending-places i [] c = omega arith
  answer_pending-places i (r ∷ rs) c = omega (
    arith,
    answer_pending-places i rs (answer r stopped_error c),
    answer-places i r stopped_error c,
  )

  pub take_request-places :
      (i : ℕ) (c : PostgresClient Table) (reqs : List QueryRequest)
      → c.worker ≡ at_wait
      → c.requests ≡ reqs
      → places (take_request reqs c) i ≡ places c i
  unfolding take_request places times
  take_request-places i c [] w e =
      if_elim (λ (d : PostgresClient Table). places d i ≡ places c i) c.heartbeat_enabled
        (λ _. omega (arith, ap (λ w. of_worker w i) w)) (λ _. refl)
  take_request-places i c (item ∷ rest) w e =
      omega (arith, ap (λ w. of_worker w i) w, ap (λ q. of_requests q i) e)

  wake-places :
      (i : ℕ) (c : PostgresClient Table) (reqs : List QueryRequest)
      → c.worker ≡ at_wait
      → c.requests ≡ reqs
      → places (wake reqs c) i ≡ places c i
  unfolding wake places times
  wake-places i c reqs w e =
      if_elim (λ (d : PostgresClient Table). places d i ≡ places c i) c.stop_requested
        (λ _. omega (
          arith,
          answer_pending-places i reqs (record c { requests = []; worker = finished }),
          ap (λ w. of_worker w i) w,
          ap (λ q. of_requests q i) e,
        ))
        (λ _. take_request-places i c reqs w e)

  pub work-places :
      (i : ℕ) (due : Bool) (result : Expected Table SqlError) (w : Worker)
      (c : PostgresClient Table)
      → c.worker ≡ w
      → places (work due result w c) i ≡ places c i
  unfolding work places
  work-places i due result at_head c e =
      if_elim (λ (d : PostgresClient Table). places d i ≡ places c i) c.stop_requested
        (λ _. omega (arith, ap (λ w. of_worker w i) e))
        λ _.
          if_elim (λ (d : PostgresClient Table). places d i ≡ places c i)
            (c.heartbeat_enabled && due) (λ _. refl) (λ _. omega (arith, ap (λ w. of_worker w i) e))
  work-places i due result at_wait c e = wake-places i c c.requests e refl
  work-places i due result (executing item) c e = omega (
    arith,
    answer-places i item result (record c { worker = at_head }),
    ap (λ w. of_worker w i) e,
  )
  work-places i due result finished c e = refl

  pub cb_wait-places : (i n : ℕ) (c : PostgresClient Table) → places (cb_wait n c) i ≡ places c i
  unfolding cb_wait places
  cb_wait-places i zero c = refl
  cb_wait-places i (suc n) c = refl

  pub cb_wake-places :
      (i n : ℕ) (c : PostgresClient Table) (queue : List (Task Table))
      → c.cb_queue ≡ queue
      → places (cb_wake n queue c) i ≡ places c i
  unfolding cb_wake places times
  cb_wake-places i zero c queue e = refl
  cb_wake-places i (suc n) c [] e = ground arith
  cb_wake-places i (suc n) c (t ∷ ts) e =
      omega (arith, ap (λ q. of_tasks q i) e, times-snoc (λ (t : Task Table). t.id) i c.running t)

  pub cb_call-places :
      (i : ℕ) (c : PostgresClient Table) (o : Option (Task Table × List (Task Table)))
      → Taken i c.running o
      → places (cb_call o c) i ≡ places c i
  unfolding cb_call places call
  cb_call-places i c none h = refl
  cb_call-places i c (some (t, others)) h =
      omega (arith, h, times-snoc (λ (t : Task Table). t.id) i c.called t)

  overflow_call-places :
      (i : ℕ) (c : PostgresClient Table)
      (o : Option (Task Table × List (OverflowCallbackThread Table)))
      → Finished i c.overflow_cb_threads o
      → places (overflow_call o c) i ≡ places c i
  unfolding overflow_call places call
  overflow_call-places i c none h = refl
  overflow_call-places i c (some (t, others)) h =
      omega (arith, h, times-snoc (λ (t : Task Table). t.id) i c.called t)

  pub next-places :
      (i : ℕ) (e : Event Table) (c : PostgresClient Table)
      → places (next e c) i ≡ places c i + times self i (submission e)
  unfolding next places times send_to_worker enqueue_async
  next-places i (sends_to_worker id detail) c = omega (
    arith,
    times-snoc (λ (r : QueryRequest). r.id) i c.requests
        (record { id = id; detail = detail; direct_callback = true }),
  )
  next-places i (enqueues_async id detail) c = omega (
    arith,
    times-snoc (λ (r : QueryRequest). r.id) i c.requests
        (record { id = id; detail = detail; direct_callback = false }),
  )
  next-places i requests_stop c = omega arith
  next-places i requests_cb_stop c = omega arith
  next-places i (works due result) c = omega (arith, work-places i due result c.worker c refl)
  next-places i cb_waits c = omega (arith, cb_wait-places i c.ready c)
  next-places i cb_wakes c = omega (arith, cb_wake-places i c.idle_cb_workers c c.cb_queue refl)
  next-places i (cb_calls n) c =
      omega (arith, cb_call-places i c (take_out n c.running) (take_out-Taken n i c.running))
  next-places i (overflow_calls n) c = omega (
    arith,
    overflow_call-places i c (finish n c.overflow_cb_threads)
        (finish-Finished n i c.overflow_cb_threads),
  )

  pub run-places :
      (i : ℕ) (es : List (Event Table)) (c : PostgresClient Table)
      → places (run es c) i ≡ places c i + times self i (submissions es)
  unfolding run submissions times
  run-places i [] c = omega arith
  run-places i (e ∷ es) c = omega (
    arith,
    run-places i es (next e c),
    next-places i e c,
    times-append self i (submission e) (submissions es),
  )

  -- However the threads take turns, each request's callback stands in one place for each time that it
  -- was submitted: in the requests, with the worker, in the queue of callbacks, with a callback
  -- worker, with an overflow thread that is not done, or among those called. So it is called at most
  -- as often as it was submitted.
  pub run-conserves :
      (heartbeat_enabled : Bool) (num_cb_threads : ℕ) (es : List (Event Table)) (i : ℕ)
      → let c = run es (connected heartbeat_enabled num_cb_threads) in
        (places c i ≡ times self i (submissions es))
        × (of_tasks c.called i ≤ times self i (submissions es))
  unfolding places connected times
  run-conserves heartbeat_enabled num_cb_threads es i =
      let h = run-places i es (connected heartbeat_enabled num_cb_threads) in
      (omega (arith, h), omega (arith, h))
