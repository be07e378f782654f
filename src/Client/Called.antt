-- ===== src/Client/Called.antt =====
-- The callbacks that were called, over a run of the threads.
use mathlib.Core.List.{map-append}
use postgres_cpp_lib.Base.{
  ℕ, zero, suc, ◌≡◌, refl, sym, ap, ◌∙◌, Bool, ◌&&◌, Option, none, some, List, [], ◌∷◌, ◌++◌, ◌==◌,
  map, append-nil, append_assoc, if_elim,
}
use postgres_cpp_lib.Base.Texts.{Expected}
use postgres_cpp_lib.SqlError.{SqlError}
use postgres_cpp_lib.Client.{
  QueryRequest, Worker, at_head, at_wait, finished, executing, Task, OverflowCallbackThread,
  PostgresClient, Event, sends_to_worker, enqueues_async, requests_stop, requests_cb_stop, works,
  cb_waits, cb_wakes, cb_calls, overflow_calls, take_out, finish, call, post_callback, answer,
  answer_pending, stopped_error, take_request, wake, work, cb_wait, cb_wake, cb_call, overflow_call,
  send_to_worker, enqueue_async, next,
}

module _ {Table : Type 0} where
  abbrev pub task_ids : List (Task Table) → List ℕ
  task_ids ts = map (λ t. t.id) ts

  -- Callbacks that were called stay called.
  abbrev pub Grows : PostgresClient Table → PostgresClient Table → Type 0
  Grows c d = (new : List ℕ) × (task_ids d.called ≡ task_ids c.called ++ new)

  none_new :
      (c : PostgresClient Table) → (new : List ℕ) × (task_ids c.called ≡ task_ids c.called ++ new)
  none_new c = ([], sym (append-nil (task_ids c.called)))

  same : (c d : PostgresClient Table) → d.called ≡ c.called → Grows c d
  same c d e = ([], ap task_ids e ∙ sym (append-nil (task_ids c.called)))

  call-Grows : (t : Task Table) (c : PostgresClient Table) → Grows c (call t c)
  unfolding call
  call-Grows t c = (t.id ∷ [], map-append (λ (t : Task Table). t.id) c.called (t ∷ []))

  answer-Grows :
      (r : QueryRequest) (result : Expected Table SqlError) (c : PostgresClient Table)
      → Grows c (answer r result c)
  unfolding answer post_callback
  answer-Grows r result c =
      if_elim (Grows c) r.direct_callback
        (λ _. call-Grows (record { id = r.id; result = result }) c)
        λ _. if_elim (Grows c) (c.idle_cb_workers == 0) (λ _. none_new c) λ _. none_new c

  Grows-trans : (b c d : PostgresClient Table) → Grows b c → Grows c d → Grows b d
  Grows-trans b c d (xs, h) (ys, k) =
      (xs ++ ys, k ∙ ap (λ l. l ++ ys) h ∙ append_assoc (task_ids b.called) xs ys)

  answer_pending-Grows :
      (rs : List QueryRequest) (c : PostgresClient Table) → Grows c (answer_pending rs c)
  unfolding answer_pending
  answer_pending-Grows [] c = same c c refl
  answer_pending-Grows (r ∷ rs) c =
      Grows-trans c (answer r stopped_error c) (answer_pending rs (answer r stopped_error c))
        (answer-Grows r stopped_error c) (answer_pending-Grows rs (answer r stopped_error c))

  take_request-Grows :
      (reqs : List QueryRequest) (c : PostgresClient Table) → Grows c (take_request reqs c)
  unfolding take_request
  take_request-Grows [] c =
      if_elim (Grows c) c.heartbeat_enabled (λ _. none_new c) (λ _. none_new c)
  take_request-Grows (item ∷ rest) c = none_new c

  work-Grows :
      (due : Bool) (result : Expected Table SqlError) (w : Worker) (c : PostgresClient Table)
      → Grows c (work due result w c)
  unfolding work wake
  work-Grows due result at_head c =
      if_elim (Grows c) c.stop_requested (λ _. none_new c)
        λ _. if_elim (Grows c) (c.heartbeat_enabled && due) (λ _. none_new c) λ _. none_new c
  work-Grows due result at_wait c =
      if_elim (Grows c) c.stop_requested
        (λ _. answer_pending-Grows c.requests (record c { requests = []; worker = finished }))
        (λ _. take_request-Grows c.requests c)
  work-Grows due result (executing item) c =
      answer-Grows item result (record c { worker = at_head })
  work-Grows due result finished c = none_new c

  cb_wait-Grows : (n : ℕ) (c : PostgresClient Table) → Grows c (cb_wait n c)
  unfolding cb_wait
  cb_wait-Grows zero c = none_new c
  cb_wait-Grows (suc n) c = none_new c

  cb_wake-Grows :
      (n : ℕ) (queue : List (Task Table)) (c : PostgresClient Table) → Grows c (cb_wake n queue c)
  unfolding cb_wake
  cb_wake-Grows zero queue c = none_new c
  cb_wake-Grows (suc n) [] c =
      if_elim (Grows c) c.cb_stop_requested (λ _. none_new c) (λ _. none_new c)
  cb_wake-Grows (suc n) (t ∷ ts) c = none_new c

  cb_call-Grows :
      (o : Option (Task Table × List (Task Table))) (c : PostgresClient Table)
      → Grows c (cb_call o c)
  unfolding cb_call
  cb_call-Grows none c = none_new c
  cb_call-Grows (some (t, others)) c =
      call-Grows t (record c { running = others; ready = suc c.ready })

  overflow_call-Grows :
      (o : Option (Task Table × List (OverflowCallbackThread Table))) (c : PostgresClient Table)
      → Grows c (overflow_call o c)
  unfolding overflow_call
  overflow_call-Grows none c = none_new c
  overflow_call-Grows (some (t, threads)) c =
      call-Grows t (record c { overflow_cb_threads = threads })

  pub next-Grows : (e : Event Table) (c : PostgresClient Table) → Grows c (next e c)
  unfolding next send_to_worker enqueue_async
  next-Grows (sends_to_worker id detail) c = none_new c
  next-Grows (enqueues_async id detail) c = none_new c
  next-Grows requests_stop c = none_new c
  next-Grows requests_cb_stop c = none_new c
  next-Grows (works due result) c = work-Grows due result c.worker c
  next-Grows cb_waits c = cb_wait-Grows c.ready c
  next-Grows cb_wakes c = cb_wake-Grows c.idle_cb_workers c.cb_queue c
  next-Grows (cb_calls i) c = cb_call-Grows (take_out i c.running) c
  next-Grows (overflow_calls i) c = overflow_call-Grows (finish i c.overflow_cb_threads) c
