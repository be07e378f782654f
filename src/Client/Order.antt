-- ===== src/Client/Order.antt =====
-- The order in which requests leave the queue.
use mathlib.Core.List.{map-append}
use postgres_cpp_lib.Base.{
  ℕ, ◌≡◌, refl, sym, ap, ◌∙◌, Bool, true, false, ◌&&◌, List, [], ◌∷◌, ◌++◌, append-nil,
  append_assoc, if_elim,
}
use postgres_cpp_lib.Base.Texts.{Expected}
use postgres_cpp_lib.SqlError.{SqlError}
use postgres_cpp_lib.Client.{
  QueryRequest, Worker, at_head, at_wait, finished, executing, PostgresClient, Event,
  sends_to_worker, enqueues_async, requests_stop, requests_cb_stop, works, cb_waits, cb_wakes,
  cb_calls, overflow_calls, take_out, finish, take_request, wake, work, answer_pending,
  send_to_worker, enqueue_async, next, run, connected,
}
use postgres_cpp_lib.Client.Conserved.{submission, submissions}
use postgres_cpp_lib.Client.Stop.{answer_pending-Answers}
use postgres_cpp_lib.Client.Lost.{
  ids, Same, cb_wait-Same, cb_wake-Same, cb_call-Same, overflow_call-Same, answer-AnswerKeeps,
}

-- The request that the worker has begun to execute between two moments.
abbrev begun : Worker → Worker → List ℕ
begun (executing item) w = []
begun at_head (executing item) = item.id ∷ []
begun at_wait (executing item) = item.id ∷ []
begun finished (executing item) = item.id ∷ []
begun at_head at_head = []
begun at_head at_wait = []
begun at_head finished = []
begun at_wait at_head = []
begun at_wait at_wait = []
begun at_wait finished = []
begun finished at_head = []
begun finished at_wait = []
begun finished finished = []

-- What is in the queue where the worker leaves its loop at the wait.
abbrev given_up : Worker → Worker → List QueryRequest → List ℕ
given_up at_wait finished reqs = ids reqs
given_up at_wait at_head reqs = []
given_up at_wait at_wait reqs = []
given_up at_wait (executing item) reqs = []
given_up at_head w reqs = []
given_up finished w reqs = []
given_up (executing item) w reqs = []

still_there : (w : Worker) (reqs : List QueryRequest) → begun w w ++ given_up w w reqs ≡ []
still_there at_head reqs = refl
still_there at_wait reqs = refl
still_there finished reqs = refl
still_there (executing item) reqs = refl

module _ {Table : Type 0} where
  -- What leaves the queue between two states: what the worker begins to execute, as it stands in the
  -- second one, and what it gives up.
  abbrev gone : PostgresClient Table → PostgresClient Table → List ℕ
  gone c d = begun c.worker d.worker ++ given_up c.worker d.worker c.requests

  -- The same over a run.
  unfoldable pub gone_all : List (Event Table) → PostgresClient Table → List ℕ
  gone_all [] c = []
  gone_all (e ∷ es) c = gone c (next e c) ++ gone_all es (next e c)

  -- The queue before is what is gone, and the queue behind.
  abbrev Leaves : Worker → List QueryRequest → PostgresClient Table → Type 0
  Leaves w reqs d = ids reqs ≡ (begun w d.worker ++ given_up w d.worker reqs) ++ ids d.requests

  take_request-Leaves :
      (reqs : List QueryRequest) (c : PostgresClient Table)
      → c.worker ≡ at_wait
      → c.requests ≡ reqs
      → Leaves at_wait reqs (take_request reqs c)
  unfolding take_request
  take_request-Leaves [] c at e =
      if_elim (λ (d : PostgresClient Table). Leaves at_wait [] d) c.heartbeat_enabled
        (λ _. ap ids (sym e)) (λ _. rw (at, e) refl)
  take_request-Leaves (item ∷ rest) c at e = refl

  left_all :
      (reqs : List QueryRequest) (d : PostgresClient Table)
      → d.worker ≡ finished
      → d.requests ≡ []
      → Leaves at_wait reqs d
  left_all reqs d f e = rw (f, e) (sym (append-nil (ids reqs)))

  work-Leaves :
      (due : Bool) (result : Expected Table SqlError) (w : Worker) (c : PostgresClient Table)
      → c.worker ≡ w
      → Leaves w c.requests (work due result w c)
  unfolding work wake
  work-Leaves due result at_head c at =
      if_elim (λ (d : PostgresClient Table). Leaves at_head c.requests d) c.stop_requested
        (λ _. refl)
        λ _.
          if_elim (λ (d : PostgresClient Table). Leaves at_head c.requests d)
            (c.heartbeat_enabled && due) (λ _. rw at refl) λ _. refl
  work-Leaves due result at_wait c at =
      let left : PostgresClient Table = record c { requests = []; worker = finished } in
      let a = answer_pending-Answers c.requests left in
      if_elim (λ (d : PostgresClient Table). Leaves at_wait c.requests d) c.stop_requested
        (λ _. left_all c.requests (answer_pending c.requests left) a.same_worker a.same_requests)
        (λ _. take_request-Leaves c.requests c at refl)
  work-Leaves due result (executing item) c at =
      sym (ap ids (answer-AnswerKeeps item result (record c { worker = at_head })).0.1)
  work-Leaves due result finished c at = rw at refl

  still :
      (c d : PostgresClient Table) → Same c d → ids c.requests ++ [] ≡ gone c d ++ ids d.requests
  still c d (w, r) =
      append-nil (ids c.requests)
      ∙ ap ids (sym r)
      ∙ ap (λ l. l ++ ids d.requests)
          (sym (
            ap (λ v. begun c.worker v ++ given_up c.worker v c.requests) w
            ∙ still_there c.worker c.requests))

  added :
      (c : PostgresClient Table) (r : QueryRequest)
      → ids c.requests ++ r.id ∷ []
        ≡ (begun c.worker c.worker ++ given_up c.worker c.worker c.requests)
          ++ ids (c.requests ++ r ∷ [])
  added c r =
      sym (map-append (λ (r : QueryRequest). r.id) c.requests (r ∷ []))
      ∙ ap (λ l. l ++ ids (c.requests ++ r ∷ [])) (sym (still_there c.worker c.requests))

  next-gone :
      (e : Event Table) (c : PostgresClient Table)
      → ids c.requests ++ submission e ≡ gone c (next e c) ++ ids (next e c).requests
  unfolding next send_to_worker enqueue_async
  next-gone (sends_to_worker id detail) c =
      added c (record { id = id; detail = detail; direct_callback = true })
  next-gone (enqueues_async id detail) c =
      added c (record { id = id; detail = detail; direct_callback = false })
  next-gone requests_stop c = still c (next requests_stop c) (refl, refl)
  next-gone requests_cb_stop c = still c (next requests_cb_stop c) (refl, refl)
  next-gone (works due result) c =
      append-nil (ids c.requests) ∙ work-Leaves due result c.worker c refl
  next-gone cb_waits c = still c (next cb_waits c) (cb_wait-Same c.ready c)
  next-gone cb_wakes c = still c (next cb_wakes c) (cb_wake-Same c.idle_cb_workers c.cb_queue c)
  next-gone (cb_calls i) c = still c (next (cb_calls i) c) (cb_call-Same (take_out i c.running) c)
  next-gone (overflow_calls i) c =
      still c (next (overflow_calls i) c) (overflow_call-Same (finish i c.overflow_cb_threads) c)

  run-gone :
      (es : List (Event Table)) (c : PostgresClient Table)
      → ids c.requests ++ submissions es ≡ gone_all es c ++ ids (run es c).requests
  unfolding run submissions gone_all
  run-gone [] c = append-nil (ids c.requests)
  run-gone (e ∷ es) c =
      sym (append_assoc (ids c.requests) (submission e) (submissions es))
      ∙ ap (λ l. l ++ submissions es) (next-gone e c)
      ∙ append_assoc (gone c (next e c)) (ids (next e c).requests) (submissions es)
      ∙ ap (λ l. gone c (next e c) ++ l) (run-gone es (next e c))
      ∙ sym (
          append_assoc (gone c (next e c)) (gone_all es (next e c))
            (ids (run es (next e c)).requests))

  -- However the threads take turns, requests are executed in the order in which they were submitted:
  -- those that the worker began to execute, read from where it stands behind each event, then those
  -- that were in the queue when it left its loop at the wait, if it did, and then those that are
  -- still in the queue are the submitted ones, in order.
  pub run-in_order :
      (heartbeat_enabled : Bool) (num_cb_threads : ℕ) (es : List (Event Table))
      → let c = connected heartbeat_enabled num_cb_threads in
        gone_all es c ++ ids (run es c).requests ≡ submissions es
  unfolding connected
  run-in_order heartbeat_enabled num_cb_threads es =
      sym (run-gone es (connected heartbeat_enabled num_cb_threads))
