-- ===== src/Client/Lost.antt =====
-- A stop that is requested while the worker is executing a query.
use mathlib.Core.List.{map-append}
use postgres_cpp_lib.Base.{
  ℕ, ◌+◌, arith, zero, suc, ◌≡◌, refl, sym, ap, subst, ◌∙◌, Bool, true, false, ◌&&◌, Option, none,
  some, List, [], ◌∷◌, ◌++◌, ◌==◌, append-nil, append_assoc, if◌then◌else◌, if_elim, map,
}
use postgres_cpp_lib.Base.Texts.{Expected}
use postgres_cpp_lib.SqlError.{SqlError}
use postgres_cpp_lib.Client.{
  QueryRequest, at_head, at_wait, finished, executing, Task, OverflowCallbackThread, PostgresClient,
  Event, sends_to_worker, enqueues_async, requests_stop, requests_cb_stop, works, cb_waits,
  cb_wakes, cb_calls, overflow_calls, take_out, finish, call, post_callback, answer, work, cb_wait,
  cb_wake, cb_call, overflow_call, send_to_worker, enqueue_async, next, run,
}
use postgres_cpp_lib.Client.Count.{
  self, times, times-append, times-map, one, of_worker, of_tasks, waiting, places,
}
use postgres_cpp_lib.Client.Conserved.{submission, submissions, run-places}

abbrev pub ids : List QueryRequest → List ℕ
ids rs = map (λ r. r.id) rs

module _ {Table : Type 0} where
  abbrev pub Same : PostgresClient Table → PostgresClient Table → Type 0
  Same c d = (d.worker ≡ c.worker) × (d.requests ≡ c.requests)

  pub cb_wait-Same : (n : ℕ) (c : PostgresClient Table) → Same c (cb_wait n c)
  unfolding cb_wait
  cb_wait-Same zero c = (refl, refl)
  cb_wait-Same (suc n) c = (refl, refl)

  pub cb_wake-Same :
      (n : ℕ) (queue : List (Task Table)) (c : PostgresClient Table) → Same c (cb_wake n queue c)
  unfolding cb_wake
  cb_wake-Same zero queue c = (refl, refl)
  cb_wake-Same (suc n) [] c =
      if_elim (Same c) c.cb_stop_requested (λ _. (refl, refl)) (λ _. (refl, refl))
  cb_wake-Same (suc n) (t ∷ ts) c = (refl, refl)

  pub cb_call-Same :
      (o : Option (Task Table × List (Task Table))) (c : PostgresClient Table)
      → Same c (cb_call o c)
  unfolding cb_call call
  cb_call-Same none c = (refl, refl)
  cb_call-Same (some (t, others)) c = (refl, refl)

  pub overflow_call-Same :
      (o : Option (Task Table × List (OverflowCallbackThread Table))) (c : PostgresClient Table)
      → Same c (overflow_call o c)
  unfolding overflow_call call
  overflow_call-Same none c = (refl, refl)
  overflow_call-Same (some (t, others)) c = (refl, refl)

  abbrev pub AnswerKeeps : PostgresClient Table → PostgresClient Table → Type 0
  AnswerKeeps c d = Same c d × (d.stop_requested ≡ c.stop_requested)

  pub answer-AnswerKeeps :
      (item : QueryRequest) (result : Expected Table SqlError) (c : PostgresClient Table)
      → AnswerKeeps c (answer item result c)
  unfolding answer call post_callback
  answer-AnswerKeeps item result c =
      if_elim (AnswerKeeps c) item.direct_callback (λ _. ((refl, refl), refl))
        λ _.
          if_elim (AnswerKeeps c) (c.idle_cb_workers == 0) (λ _. ((refl, refl), refl))
            λ _. ((refl, refl), refl)

  -- The worker is gone, and `more` was added to the requests.
  abbrev pub Left : List ℕ → PostgresClient Table → PostgresClient Table → Type 0
  Left more c d = (d.worker ≡ finished) × (ids d.requests ≡ ids c.requests ++ more)

  Same-Left : (c d : PostgresClient Table) → c.worker ≡ finished → Same c d → Left [] c d
  Same-Left c d f (w, r) = (w ∙ f, ap ids r ∙ sym (append-nil (ids c.requests)))

  next-Left :
      (e : Event Table) (c : PostgresClient Table)
      → c.worker ≡ finished
      → Left (submission e) c (next e c)
  unfolding next work send_to_worker enqueue_async
  next-Left (sends_to_worker id detail) c f = (
    f,
    map-append (λ (r : QueryRequest). r.id) c.requests
        (record { id = id; detail = detail; direct_callback = true } ∷ []),
  )
  next-Left (enqueues_async id detail) c f = (
    f,
    map-append (λ (r : QueryRequest). r.id) c.requests
        (record { id = id; detail = detail; direct_callback = false } ∷ []),
  )
  next-Left requests_stop c f = Same-Left c (next requests_stop c) f (refl, refl)
  next-Left requests_cb_stop c f = Same-Left c (next requests_cb_stop c) f (refl, refl)
  next-Left (works due result) c f =
      subst (Left [] c) (sym (ap (λ w. work due result w c) f)) (Same-Left c c f (refl, refl))
  next-Left cb_waits c f = Same-Left c (next cb_waits c) f (cb_wait-Same c.ready c)
  next-Left cb_wakes c f =
      Same-Left c (next cb_wakes c) f (cb_wake-Same c.idle_cb_workers c.cb_queue c)
  next-Left (cb_calls i) c f =
      Same-Left c (next (cb_calls i) c) f (cb_call-Same (take_out i c.running) c)
  next-Left (overflow_calls i) c f =
      Same-Left c (next (overflow_calls i) c) f
        (overflow_call-Same (finish i c.overflow_cb_threads) c)

  run-Left :
      (es : List (Event Table)) (c : PostgresClient Table)
      → c.worker ≡ finished
      → Left (submissions es) c (run es c)
  unfolding run submissions
  run-Left [] c f = Same-Left c c f (refl, refl)
  run-Left (e ∷ es) c f =
      let (f₁, h₁) = next-Left e c f in
      let (f₂, h₂) = run-Left es (next e c) f₁ in
      (
        f₂,
        h₂
            ∙ ap (λ l. l ++ submissions es) h₁
            ∙ append_assoc (ids c.requests) (submission e) (submissions es),
      )

  pub leaves :
      (due : Bool) (result : Expected Table SqlError) (c : PostgresClient Table)
      → c.worker ≡ at_head
      → c.stop_requested ≡ true
      → next (works due result) c ≡ record c { worker = finished }
  unfolding next work
  leaves due result c at stop =
      ap (λ w. work due result w c) at
      ∙ ap
          (λ b.
            if b
            then record c { worker = finished }
            else (if c.heartbeat_enabled && due then c else record c { worker = at_wait }))
          stop

  -- The two rounds of the worker behind a stop: it answers the query that it has, and leaves.
  pub rounds :
      (due due' : Bool) (result result' : Expected Table SqlError) (item : QueryRequest)
      (c : PostgresClient Table)
      → c.worker ≡ executing item
      → c.stop_requested ≡ true
      → Left [] c (next (works due' result') (next (works due result) c))
  unfolding next work
  rounds due due' result result' item c at stop =
      let d : PostgresClient Table = answer item result (record c { worker = at_head }) in
      let ((w, r), s) = answer-AnswerKeeps item result (record c { worker = at_head }) in
      subst (λ x. Left [] c (next (works due' result') x)) (sym (ap (λ w. work due result w c) at))
        (subst (Left [] c) (sym (leaves due' result' d w (s ∙ stop)))
          (refl, ap ids r ∙ sym (append-nil (ids c.requests))))

  -- How often a callback was called, or is on its way to be called.
  abbrev pub answered : PostgresClient Table → ℕ → ℕ
  answered c i =
      of_tasks c.cb_queue i
      + of_tasks c.running i
      + of_tasks (waiting c.overflow_cb_threads) i
      + of_tasks c.called i

  places-answered :
      (c : PostgresClient Table) (i : ℕ)
      → places c i ≡ times self i (ids c.requests) + of_worker c.worker i + answered c i
  unfolding places waiting
  places-answered c i = omega (arith, times-map (λ (r : QueryRequest). r.id) i c.requests)

  -- If the stop is requested while the worker executes a query, the requests behind it are lost:
  -- whatever happens after the worker has the result of the query and goes on to its test, the worker
  -- has left its loop and the requests stay where they are, with the later ones behind them; the
  -- callback of that query is called or on its way to be called, and no other is.
  pub stop_while_executing :
      (due due' : Bool) (result result' : Expected Table SqlError) (item : QueryRequest)
      (es : List (Event Table)) (c : PostgresClient Table)
      → c.worker ≡ executing item
      → c.stop_requested ≡ true
      → let d = run (works due result ∷ works due' result' ∷ es) c in
        Left (submissions es) c d × ((i : ℕ) → answered d i ≡ answered c i + one item.id i)
  unfolding run submissions
  stop_while_executing due due' result result' item es c at stop =
      let c₂ = next (works due' result') (next (works due result) c) in
      let (f₁, h₁) = rounds due due' result result' item c at stop in
      let (f₂, h₂) = run-Left es c₂ f₁ in
      let h = h₂ ∙ ap (λ l. l ++ submissions es) (h₁ ∙ append-nil (ids c.requests)) in
      (
        (f₂, h),
        λ i. omega (
          arith,
          run-places i (works due result ∷ works due' result' ∷ es) c,
          places-answered c i,
          places-answered (run es c₂) i,
          ap (λ w. of_worker w i) at,
          ap (λ w. of_worker w i) f₂,
          ap (times self i) h,
          times-append self i (ids c.requests) (submissions es),
        ),
      )
