-- ===== src/Client/Stranded.antt =====
-- The callback workers and the queue of callbacks: src/postgres_priv.cpp, `CallbackWorker`.
use postgres_cpp_lib.Base.{
  ℕ, ◌+◌, ◌<◌, zero, suc, ◌≡◌, refl, ap, arith, Bool, false, ◌&&◌, Option, none, some, List, [],
  ◌∷◌, length, length-append, if_elim, ◌⊎◌, inl, inr,
}
use postgres_cpp_lib.Base.Texts.{Expected}
use postgres_cpp_lib.SqlError.{SqlError}
use postgres_cpp_lib.Client.{
  QueryRequest, Worker, at_head, at_wait, finished, executing, Task, OverflowCallbackThread,
  PostgresClient, Event, sends_to_worker, enqueues_async, requests_stop, requests_cb_stop, works,
  cb_waits, cb_wakes, cb_calls, overflow_calls, take_out, finish, call, post_callback, answer,
  answer_pending, stopped_error, take_request, wake, work, cb_wait, cb_wake, cb_call, overflow_call,
  send_to_worker, enqueue_async, next, run, connected,
}

module _ {Table : Type 0} where
  -- The callback workers that have not left their loop.
  abbrev pub present : PostgresClient Table → ℕ
  present c = c.idle_cb_workers + c.ready + length c.running

  -- A queue without workers is empty.
  abbrev pub Attended : PostgresClient Table → Type 0
  Attended c = (length c.cb_queue ≡ 0) ⊎ (0 < present c)

  post_callback-Attended :
      (b : Bool) (t : Task Table) (c : PostgresClient Table)
      → Attended c
      → Attended (post_callback b t c)
  unfolding post_callback call
  post_callback-Attended b t c h = ground (arith, length-append c.cb_queue (t ∷ []))

  answer-Attended :
      (r : QueryRequest) (result : Expected Table SqlError) (c : PostgresClient Table)
      → Attended c
      → Attended (answer r result c)
  unfolding answer call
  answer-Attended r result c h =
      if_elim Attended r.direct_callback (λ _. h)
        (λ _. post_callback-Attended false (record { id = r.id; result = result }) c h)

  answer_pending-Attended :
      (rs : List QueryRequest) (c : PostgresClient Table)
      → Attended c
      → Attended (answer_pending rs c)
  unfolding answer_pending
  answer_pending-Attended [] c h = h
  answer_pending-Attended (r ∷ rs) c h =
      answer_pending-Attended rs (answer r stopped_error c) (answer-Attended r stopped_error c h)

  take_request-Attended :
      (reqs : List QueryRequest) (c : PostgresClient Table)
      → Attended c
      → Attended (take_request reqs c)
  unfolding take_request
  take_request-Attended [] c h = if_elim Attended c.heartbeat_enabled (λ _. h) (λ _. h)
  take_request-Attended (item ∷ rest) c h = h

  work-Attended :
      (due : Bool) (result : Expected Table SqlError) (w : Worker) (c : PostgresClient Table)
      → Attended c
      → Attended (work due result w c)
  unfolding work wake
  work-Attended due result at_head c h =
      if_elim Attended c.stop_requested (λ _. h)
        λ _. if_elim Attended (c.heartbeat_enabled && due) (λ _. h) λ _. h
  work-Attended due result at_wait c h =
      if_elim Attended c.stop_requested
        (λ _. answer_pending-Attended c.requests (record c { requests = []; worker = finished }) h)
        (λ _. take_request-Attended c.requests c h)
  work-Attended due result (executing item) c h =
      answer-Attended item result (record c { worker = at_head }) h
  work-Attended due result finished c h = h

  cb_wait-Attended :
      (n : ℕ) (c : PostgresClient Table) → c.ready ≡ n → Attended c → Attended (cb_wait n c)
  unfolding cb_wait
  cb_wait-Attended zero c e h = h
  cb_wait-Attended (suc n) c e h = ground arith

  cb_wake-Attended :
      (n : ℕ) (queue : List (Task Table)) (c : PostgresClient Table)
      → c.cb_queue ≡ queue
      → Attended c
      → Attended (cb_wake n queue c)
  unfolding cb_wake
  cb_wake-Attended zero queue c e h = h
  cb_wake-Attended (suc n) [] c e h =
      if_elim Attended c.cb_stop_requested (λ _. inl (ap length e)) (λ _. h)
  cb_wake-Attended (suc n) (t ∷ ts) c e h = inr (omega (arith, length-append c.running (t ∷ [])))

  cb_call-Attended :
      (o : Option (Task Table × List (Task Table))) (c : PostgresClient Table)
      → Attended c
      → Attended (cb_call o c)
  unfolding cb_call call
  cb_call-Attended none c h = h
  cb_call-Attended (some (t, others)) c h = inr (omega arith)

  overflow_call-Attended :
      (o : Option (Task Table × List (OverflowCallbackThread Table))) (c : PostgresClient Table)
      → Attended c
      → Attended (overflow_call o c)
  unfolding overflow_call call
  overflow_call-Attended none c h = h
  overflow_call-Attended (some (t, threads)) c h = h

  pub next-Attended :
      (e : Event Table) (c : PostgresClient Table) → Attended c → Attended (next e c)
  unfolding next send_to_worker enqueue_async
  next-Attended (sends_to_worker id detail) c h = h
  next-Attended (enqueues_async id detail) c h = h
  next-Attended requests_stop c h = h
  next-Attended requests_cb_stop c h = h
  next-Attended (works due result) c h = work-Attended due result c.worker c h
  next-Attended cb_waits c h = cb_wait-Attended c.ready c refl h
  next-Attended cb_wakes c h = cb_wake-Attended c.idle_cb_workers c.cb_queue c refl h
  next-Attended (cb_calls i) c h = cb_call-Attended (take_out i c.running) c h
  next-Attended (overflow_calls i) c h = overflow_call-Attended (finish i c.overflow_cb_threads) c h

  pub run-Attended_from :
      (es : List (Event Table)) (c : PostgresClient Table) → Attended c → Attended (run es c)
  unfolding run
  run-Attended_from [] c h = h
  run-Attended_from (e ∷ es) c h = run-Attended_from es (next e c) (next-Attended e c h)

  -- No callback is stranded: at any time, and however the threads took turns, the queue of callbacks is
  -- empty or some callback worker has not left its loop.
  pub run-Attended :
      (heartbeat_enabled : Bool) (num_cb_threads : ℕ) (es : List (Event Table))
      → Attended (run es (connected heartbeat_enabled num_cb_threads))
  unfolding connected
  run-Attended heartbeat_enabled num_cb_threads es =
      run-Attended_from es (connected heartbeat_enabled num_cb_threads) (inl refl)
