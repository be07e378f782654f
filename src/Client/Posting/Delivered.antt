-- ===== src/Client/Posting/Delivered.antt =====
-- How often callbacks are called: src/postgres_priv.cpp, `PostCallback` and `CallbackWorker`.
use postgres_cpp_lib.Base.{
  ℕ, ◌+◌, ◌≡◌, refl, ap, arith, Bool, true, ◌&&◌, List, [], ◌∷◌, length, if_elim, inl, inr,
}
use postgres_cpp_lib.Client.{
  Task, Event, sends_to_worker, enqueues_async, requests_stop, requests_cb_stop, works, cb_waits,
  cb_wakes, cb_calls, overflow_calls, next, connected,
}
use postgres_cpp_lib.Client.Count.{
  self, times, times-append, of_requests, of_tasks, waiting, places,
}
use postgres_cpp_lib.Client.Conserved.{submission, next-places}
use postgres_cpp_lib.Client.Stranded.{present, Attended}
use postgres_cpp_lib.Client.Posting.{
  Posting, Turn, goes, posts, started_calls, posting, is_free, is_finished, turn, turns,
}
use postgres_cpp_lib.Client.Posting.Posted.{turns-Posted}
use postgres_cpp_lib.Client.Posting.Places.{
  worker_done, turn_submission, turn_submissions, all_places, idle, begin-places, post-places,
  started_call-places,
}

module _ {Table : Type 0} where
  -- An event that leaves what the worker has to post.
  other-places :
      (i : ℕ) (e : Event Table) (p : Posting Table)
      → all_places (record p { client = next e p.client }) i
        ≡ all_places p i + times self i (submission e)
  unfolding all_places
  other-places i e p = omega (arith, next-places i e p.client)

  turn-places :
      (i : ℕ) (t : Turn Table) (p : Posting Table)
      → all_places (turn t p) i ≡ all_places p i + times self i (turn_submission t)
  unfolding turn times
  turn-places i (goes (works due result)) p =
      if_elim (λ (q : Posting Table). all_places q i ≡ all_places p i + 0) (is_free p)
        (λ f. omega (arith, begin-places i due result p.client.worker p refl f)) (λ _. omega arith)
  turn-places i (goes requests_cb_stop) p =
      if_elim (λ (q : Posting Table). all_places q i ≡ all_places p i + 0)
        (is_free p && is_finished p.client.worker) (λ _. other-places i requests_cb_stop p)
        (λ _. omega arith)
  turn-places i (goes (sends_to_worker id detail)) p = other-places i (sends_to_worker id detail) p
  turn-places i (goes (enqueues_async id detail)) p = other-places i (enqueues_async id detail) p
  turn-places i (goes requests_stop) p = other-places i requests_stop p
  turn-places i (goes cb_waits) p = other-places i cb_waits p
  turn-places i (goes cb_wakes) p = other-places i cb_wakes p
  turn-places i (goes (cb_calls n)) p = other-places i (cb_calls n) p
  turn-places i (goes (overflow_calls n)) p = other-places i (overflow_calls n) p
  turn-places i posts p = omega (arith, post-places i p.poster p.duties p refl refl)
  turn-places i started_calls p = omega (arith, started_call-places i p.poster p refl)

  turns-places :
      (i : ℕ) (ts : List (Turn Table)) (p : Posting Table)
      → all_places (turns ts p) i ≡ all_places p i + times self i (turn_submissions ts)
  unfolding turns turn_submissions times
  turns-places i [] p = omega arith
  turns-places i (t ∷ ts) p = omega (
    arith,
    turns-places i ts (turn t p),
    turn-places i t p,
    times-append self i (turn_submission t) (turn_submissions ts),
  )

  -- A client whose threads have ended.
  pub record Ended (p : Posting Table) : Type 0 where
    pub worker_finished : is_finished p.client.worker ≡ true
    pub worker_free : is_free p ≡ true
    pub nobody_present : present p.client ≡ 0
    pub nobody_waiting : waiting p.client.overflow_cb_threads ≡ []

  emptied : (i : ℕ) (ts : List (Task Table)) → length ts ≡ 0 → of_tasks ts i ≡ 0
  unfolding times
  emptied i [] e = refl
  emptied i (t ∷ ts) e = absurd (omega (arith, e))

  counted :
      (i : ℕ) (p : Posting Table)
      → Attended p.client
      → Ended p
      → all_places p i ≡ of_requests p.client.requests i + of_tasks p.client.called i
  unfolding all_places places times
  counted i p a h =
      let (no_duty, no_post) = idle i p.duties p.poster h.worker_free in
      omega (
        arith,
        no_duty,
        no_post,
        worker_done i p.client.worker h.worker_finished,
        h.nobody_present,
        ap (λ ts. of_tasks ts i) h.nobody_waiting,
        emptied i p.client.running (omega (arith, h.nobody_present)),
        emptied i p.client.cb_queue
            (elim a [ inl e ↦ e | inr e ↦ absurd (omega (arith, e, h.nobody_present)) ]),
      )

  -- Once all threads have ended, however they took turns, also between the look at the idle callback
  -- workers and the push behind it: each callback was called as often as its request was submitted,
  -- less as often as that still stands among the requests that the worker did not take.
  pub turns-delivered :
      (heartbeat_enabled : Bool) (num_cb_threads : ℕ) (ts : List (Turn Table)) (i : ℕ)
      → Ended (turns ts (posting heartbeat_enabled num_cb_threads))
      → let c = (turns ts (posting heartbeat_enabled num_cb_threads)).client in
        of_requests c.requests i + of_tasks c.called i ≡ times self i (turn_submissions ts)
  unfolding posting all_places places connected times
  turns-delivered heartbeat_enabled num_cb_threads ts i h = omega (
    arith,
    counted i _ (turns-Posted heartbeat_enabled num_cb_threads ts).attended h,
    turns-places i ts (posting heartbeat_enabled num_cb_threads),
  )
