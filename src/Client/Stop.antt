-- ===== src/Client/Stop.antt =====
-- What a stop does to the requests that are waiting.
use postgres_cpp_lib.Base.{
  ◌≡◌, refl, sym, ap, subst, ◌∙◌, arith, Bool, true, false, List, [], ◌∷◌, ◌++◌, ◌==◌, append-nil,
  append_assoc, if◌then◌else◌, if_elim,
}
use postgres_cpp_lib.Base.Texts.{Expected}
use postgres_cpp_lib.SqlError.{SqlError}
use postgres_cpp_lib.Client.{
  QueryRequest, at_wait, finished, Task, OverflowCallbackThread, PostgresClient, works,
  reap_overflow_threads, call, post_callback, answer, answer_pending, stopped_error, take_request,
  wake, work, next,
}
use postgres_cpp_lib.Client.Count.{waiting, waiting-reap_overflow_threads}

module _ {Table : Type 0} where
  -- Where a callback for the pool is put: to the queue, or on a new thread where no worker is idle.
  unfoldable pub posted : PostgresClient Table → List (Task Table)
  unfolding waiting
  posted c = if c.idle_cb_workers == 0 then waiting c.overflow_cb_threads else c.cb_queue

  abbrev pub stopped : QueryRequest → Task Table
  stopped r = record { id = r.id; result = stopped_error }

  -- The error callbacks that are called by the worker itself, and those for the pool.
  unfoldable pub direct_tasks : List QueryRequest → List (Task Table)
  direct_tasks [] = []
  direct_tasks (r ∷ rs) = if r.direct_callback then stopped r ∷ direct_tasks rs else direct_tasks rs

  unfoldable pub pool_tasks : List QueryRequest → List (Task Table)
  pool_tasks [] = []
  pool_tasks (r ∷ rs) = if r.direct_callback then pool_tasks rs else stopped r ∷ pool_tasks rs

  waiting-new :
      (ts : List (OverflowCallbackThread Table)) (t : Task Table)
      → waiting (ts ++ record { done = false; task = t } ∷ []) ≡ waiting ts ++ t ∷ []
  unfolding waiting
  waiting-new [] t = refl
  waiting-new (x ∷ ts) t = ground (arith, waiting-new ts t)

  -- What an answer leaves as it was, and what it adds to the callbacks.
  pub record Answers (rs : List QueryRequest) (c d : PostgresClient Table) : Type 0 where
    pub same_worker : d.worker ≡ c.worker
    pub same_requests : d.requests ≡ c.requests
    pub same_idle : d.idle_cb_workers ≡ c.idle_cb_workers
    pub adds_called : d.called ≡ c.called ++ direct_tasks rs
    pub adds_posted : posted d ≡ posted c ++ pool_tasks rs

  answer-Answers :
      (r : QueryRequest) (c : PostgresClient Table) → Answers (r ∷ []) c (answer r stopped_error c)
  unfolding answer call post_callback direct_tasks pool_tasks posted
  answer-Answers r c =
      if_elim (Answers (r ∷ []) c) r.direct_callback
        (λ direct. record {
          same_worker = refl;
          same_requests = refl;
          same_idle = refl;
          adds_called = rw direct refl;
          adds_posted = rw direct (sym (append-nil _));
        })
        λ pool.
          if_elim (Answers (r ∷ []) c) (c.idle_cb_workers == 0)
            (λ none_idle. record {
              same_worker = refl;
              same_requests = refl;
              same_idle = refl;
              adds_called = rw pool (sym (append-nil _));
              adds_posted =
                  rw (pool, none_idle)
                    (waiting-new (reap_overflow_threads c.overflow_cb_threads) (stopped r)
                      ∙ ap (λ ts. ts ++ stopped r ∷ [])
                          (waiting-reap_overflow_threads c.overflow_cb_threads));
            })
            λ some_idle. record {
              same_worker = refl;
              same_requests = refl;
              same_idle = refl;
              adds_called = rw pool (sym (append-nil _));
              adds_posted = rw (pool, some_idle) refl;
            }

  direct_tasks-cons :
      (r : QueryRequest) (rs : List QueryRequest)
      → direct_tasks (r ∷ rs) ≡ direct_tasks (r ∷ []) ++ direct_tasks rs
  unfolding direct_tasks
  direct_tasks-cons r rs = ground arith

  pool_tasks-cons :
      (r : QueryRequest) (rs : List QueryRequest)
      → pool_tasks (r ∷ rs) ≡ pool_tasks (r ∷ []) ++ pool_tasks rs
  unfolding pool_tasks
  pool_tasks-cons r rs = ground arith

  behind :
      {a b : List (Task Table)} (xs ys zs : List (Task Table))
      → a ≡ xs ++ ys
      → b ≡ a ++ zs
      → b ≡ xs ++ (ys ++ zs)
  behind xs ys zs h k = k ∙ ap (λ l. l ++ zs) h ∙ append_assoc xs ys zs

  pub answer_pending-Answers :
      (rs : List QueryRequest) (c : PostgresClient Table) → Answers rs c (answer_pending rs c)
  unfolding answer_pending direct_tasks pool_tasks
  answer_pending-Answers [] c = record {
    same_worker = refl;
    same_requests = refl;
    same_idle = refl;
    adds_called = sym (append-nil _);
    adds_posted = sym (append-nil _);
  }
  answer_pending-Answers (r ∷ rs) c =
      let now = answer-Answers r c in
      let later = answer_pending-Answers rs (answer r stopped_error c) in
      record {
        same_worker = later.same_worker ∙ now.same_worker;
        same_requests = later.same_requests ∙ now.same_requests;
        same_idle = later.same_idle ∙ now.same_idle;
        adds_called =
            behind c.called (direct_tasks (r ∷ [])) (direct_tasks rs) now.adds_called
              later.adds_called
            ∙ ap (λ l. c.called ++ l) (sym (direct_tasks-cons r rs));
        adds_posted =
            behind (posted c) (pool_tasks (r ∷ [])) (pool_tasks rs) now.adds_posted
              later.adds_posted
            ∙ ap (λ l. posted c ++ l) (sym (pool_tasks-cons r rs));
      }

  wake-stopped :
      (due : Bool) (result : Expected Table SqlError) (c : PostgresClient Table)
      → c.worker ≡ at_wait
      → c.stop_requested ≡ true
      → next (works due result) c
        ≡ answer_pending c.requests (record c { requests = []; worker = finished })
  unfolding next work wake
  wake-stopped due result c at stop =
      ap (λ w. work due result w c) at
      ∙ ap
          (λ b.
            if b
            then answer_pending c.requests (record c { requests = []; worker = finished })
            else take_request c.requests c)
          stop

  -- Nothing is left of the requests of `c`, and each error callback is called or handed to the pool.
  abbrev pub Drained : PostgresClient Table → PostgresClient Table → Type 0
  Drained c d =
      (d.worker ≡ finished)
      × (d.requests ≡ [])
      × (d.called ≡ c.called ++ direct_tasks c.requests)
      × (posted d ≡ posted c ++ pool_tasks c.requests)

  -- A worker that sees the stop at its wait leaves its loop with no request left behind: the error
  -- callback of each is called with ShuttingDown, in order, by the worker or by the pool.
  pub stop_at_wait :
      (due : Bool) (result : Expected Table SqlError) (c : PostgresClient Table)
      → c.worker ≡ at_wait
      → c.stop_requested ≡ true
      → Drained c (next (works due result) c)
  unfolding posted
  stop_at_wait due result c at stop =
      let a = answer_pending-Answers c.requests (record c { requests = []; worker = finished }) in
      subst (Drained c) (sym (wake-stopped due result c at stop))
        (a.same_worker, a.same_requests, a.adds_called, a.adds_posted)
