-- ===== src/Client/Posting/Posted.antt =====
-- The queue of callbacks and the callback workers, when the worker goes on: src/postgres_priv.cpp,
-- `PostCallback`.
use postgres_cpp_lib.Base.{
  sym, ◌∙◌, Bool-cases, ℕ, ◌<◌, ◌≡◌, refl, ap, arith, Bool, true, false, ◌&&◌, List, [], ◌∷◌,
  if_elim, inl, inr, ◌==◌, if◌then◌else◌,
}
use postgres_cpp_lib.Base.Texts.{Expected}
use postgres_cpp_lib.SqlError.{SqlError}
use postgres_cpp_lib.Client.{
  QueryRequest, Worker, at_head, at_wait, finished, executing, PostgresClient, Event,
  sends_to_worker, enqueues_async, requests_stop, requests_cb_stop, works, cb_waits, cb_wakes,
  cb_calls, overflow_calls, call, take_request, work, send_to_worker, enqueue_async, next,
  connected,
}
use postgres_cpp_lib.Client.Stranded.{present, next-Attended}
use postgres_cpp_lib.Client.Posting.{
  Duty, Poster, resting, pushes, starts, lists, Posting, Turn, goes, posts, started_calls, posting,
  is_free, is_finished, begin, post, started_call, turn, turns,
}
use postgres_cpp_lib.Client.Posting.Held.{
  is_pushing, Posted, Kept, cb_wait-Kept, cb_wake-Kept, cb_call-Kept, overflow_call-Kept,
  client-Posted,
}

module _ {Table : Type 0} where
  -- Where the worker is not finished, no stop of the callback workers was requested.
  unfinished :
      (p : Posting Table)
      → Posted p
      → is_finished p.client.worker ≡ false
      → p.client.cb_stop_requested ≡ false
  unfinished p h e = elim (Bool-cases p.client.cb_stop_requested) [
    | inl s ↦ absurd (let (_, ends) = h.stopped_last s in cc)
    | inr s ↦ s
  ]

  -- A step of the worker that leaves the callback workers and their queue as they are.
  worker-Posted :
      (p q : Posting Table)
      → q.client.cb_stop_requested ≡ false
      → q.poster ≡ p.poster
      → q.client.cb_queue ≡ p.client.cb_queue
      → present q.client ≡ present p.client
      → Posted p
      → Posted q
  worker-Posted p q s e f g h = record {
    stopped_last = λ t. absurd cc;
    pushed_to = λ t. rw g (h.pushed_to (ap is_pushing (sym e) ∙ t));
    attended = rw (f, g) h.attended;
  }

  taken_request :
      (reqs : List QueryRequest) (p : Posting Table)
      → p.client.cb_stop_requested ≡ false
      → Posted p
      → Posted (record p { client = take_request reqs p.client })
  unfolding take_request
  taken_request [] p s h =
      if_elim (λ d. Posted (record p { client = d })) p.client.heartbeat_enabled
        (λ _. worker-Posted p _ s refl refl refl h) (λ _. h)
  taken_request (item ∷ rest) p s h = worker-Posted p _ s refl refl refl h

  begin-Posted :
      (due : Bool) (result : Expected Table SqlError) (w : Worker) (p : Posting Table)
      → p.client.worker ≡ w
      → Posted p
      → Posted (begin due result w p)
  unfolding begin work take_request
  begin-Posted due result finished p e h = h
  begin-Posted due result (executing item) p e h =
      worker-Posted p _ (unfinished p h (ap is_finished e)) refl refl refl h
  begin-Posted due result at_head p e h =
      let s = unfinished p h (ap is_finished e) in
      if_elim (λ d. Posted (record p { client = d })) p.client.stop_requested
        (λ _. worker-Posted p _ s refl refl refl h)
        λ _.
          if_elim (λ d. Posted (record p { client = d })) (p.client.heartbeat_enabled && due)
            (λ _. h) (λ _. worker-Posted p _ s refl refl refl h)
  begin-Posted due result at_wait p e h =
      let s = unfinished p h (ap is_finished e) in
      if_elim Posted p.client.stop_requested (λ _. worker-Posted p _ s refl refl refl h)
        (λ _. taken_request p.client.requests p s h)

  -- Where the worker has a callback in hand, no stop of the callback workers was requested.
  unfree : (p : Posting Table) → Posted p → is_free p ≡ false → p.client.cb_stop_requested ≡ false
  unfree p h e = elim (Bool-cases p.client.cb_stop_requested) [
    | inl s ↦ absurd (let (free, _) = h.stopped_last s in cc)
    | inr s ↦ s
  ]

  -- Behind a look, or without one, the stop was not requested.
  looked :
      (p : Posting Table) (ds : List (Duty Table)) (q : Poster Table)
      → p.client.cb_stop_requested ≡ false
      → (is_pushing q ≡ true → 0 < present p.client)
      → Posted p
      → Posted (record p { duties = ds; poster = q })
  looked p ds q s f h = record {
    stopped_last = λ t. absurd cc;
    pushed_to = f;
    attended = h.attended;
  }

  post-Posted :
      (q : Poster Table) (ds : List (Duty Table)) (p : Posting Table)
      → p.poster ≡ q
      → p.duties ≡ ds
      → Posted p
      → Posted (post q ds p)
  unfolding post call
  post-Posted resting [] p e f h = h
  post-Posted resting (d ∷ ds) p e f h =
      let s = unfree p h (ground (arith, e, f)) in
      if_elim Posted d.direct_callback (λ _. worker-Posted p _ s refl refl refl h)
        λ _.
          looked p ds (if p.client.idle_cb_workers == 0 then starts d.task else pushes d.task) s
            (λ t. ground arith) h
  post-Posted (pushes task) ds p e f h = record {
    stopped_last = λ t. absurd (let s = unfree p h (ground (arith, e)) in cc);
    pushed_to = λ t. absurd cc;
    attended = inr (h.pushed_to (ap is_pushing e));
  }
  post-Posted (starts task) ds p e f h =
      looked p p.duties (lists (record { done = false; task = task }))
        (unfree p h (ground (arith, e))) (λ t. absurd cc) h
  post-Posted (lists thread) ds p e f h = record {
    stopped_last = λ t. absurd (let s = unfree p h (ground (arith, e)) in cc);
    pushed_to = λ t. absurd cc;
    attended = h.attended;
  }

  started_call-Posted :
      (q : Poster Table) (p : Posting Table) → p.poster ≡ q → Posted p → Posted (started_call q p)
  unfolding started_call call
  started_call-Posted resting p e h = h
  started_call-Posted (pushes task) p e h = h
  started_call-Posted (starts task) p e h = h
  started_call-Posted (lists thread) p e h =
      if_elim Posted thread.done (λ _. h)
        λ _. record {
          stopped_last = λ t. absurd (let s = unfree p h (ground (arith, e)) in cc);
          pushed_to = λ t. absurd cc;
          attended = h.attended;
        }

  same-Kept :
      (c d : PostgresClient Table)
      → d.cb_stop_requested ≡ c.cb_stop_requested
      → d.worker ≡ c.worker
      → present d ≡ present c
      → Kept c d
  same-Kept c d s w e = record { stop_same = s; worker_same = w; present_kept = λ _ h. rw e h }

  stop-Posted : (p : Posting Table) → Posted p → Posted (turn (goes requests_cb_stop) p)
  unfolding turn next
  stop-Posted p h =
      if_elim Posted (is_free p && is_finished p.client.worker)
        (λ e. record {
          stopped_last = λ _. both (is_free p) (is_finished p.client.worker) e;
          pushed_to = h.pushed_to;
          attended = h.attended;
        })
        (λ _. h)
    where
      both : (a b : Bool) → (a && b) ≡ true → (a ≡ true) × (b ≡ true)
      both a b e = ground arith

  -- An event of a thread other than the worker.
  other-Posted :
      (e : Event Table) (p : Posting Table)
      → Kept p.client (next e p.client)
      → Posted p
      → Posted (record p { client = next e p.client })
  other-Posted e p k h = client-Posted (next e p.client) p k (next-Attended e p.client h.attended) h

  turn-Posted : (t : Turn Table) (p : Posting Table) → Posted p → Posted (turn t p)
  unfolding turn next send_to_worker enqueue_async
  turn-Posted (goes (works due result)) p h =
      if_elim Posted (is_free p) (λ _. begin-Posted due result p.client.worker p refl h) (λ _. h)
  turn-Posted (goes requests_cb_stop) p h = stop-Posted p h
  turn-Posted (goes (sends_to_worker id detail)) p h =
      other-Posted (sends_to_worker id detail) p (same-Kept _ _ refl refl refl) h
  turn-Posted (goes (enqueues_async id detail)) p h =
      other-Posted (enqueues_async id detail) p (same-Kept _ _ refl refl refl) h
  turn-Posted (goes requests_stop) p h =
      other-Posted requests_stop p (same-Kept _ _ refl refl refl) h
  turn-Posted (goes cb_waits) p h = other-Posted cb_waits p (cb_wait-Kept _ p.client refl) h
  turn-Posted (goes cb_wakes) p h = other-Posted cb_wakes p (cb_wake-Kept _ _ p.client) h
  turn-Posted (goes (cb_calls i)) p h = other-Posted (cb_calls i) p (cb_call-Kept _ p.client) h
  turn-Posted (goes (overflow_calls i)) p h =
      other-Posted (overflow_calls i) p (overflow_call-Kept _ p.client) h
  turn-Posted posts p h = post-Posted p.poster p.duties p refl refl h
  turn-Posted started_calls p h = started_call-Posted p.poster p refl h

  turns-Posted_from : (ts : List (Turn Table)) (p : Posting Table) → Posted p → Posted (turns ts p)
  unfolding turns
  turns-Posted_from [] p h = h
  turns-Posted_from (t ∷ ts) p h = turns-Posted_from ts (turn t p) (turn-Posted t p h)

  -- However the threads take turns, also between the look at the idle callback workers and the push
  -- behind it: the queue of callbacks is empty or some callback worker has not left its loop, a
  -- callback that the worker is about to push has such a worker too, and where the callback workers
  -- are to stop the worker has ended and posts nothing more.
  pub turns-Posted :
      (heartbeat_enabled : Bool) (num_cb_threads : ℕ) (ts : List (Turn Table))
      → Posted (turns ts (posting heartbeat_enabled num_cb_threads))
  unfolding posting connected
  turns-Posted heartbeat_enabled num_cb_threads ts =
      turns-Posted_from ts (posting heartbeat_enabled num_cb_threads)
        record { stopped_last = λ e. absurd cc; pushed_to = λ e. absurd cc; attended = inl refl }
