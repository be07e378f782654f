-- ===== src/Client/Posting/Leaving.antt =====
-- The end of the callback workers and of the threads of their own: src/postgres_pub.cpp, the destructor.
use postgres_cpp_lib.Base.{
  ℕ, ◌≤◌, zero, suc, ◌≡◌, refl, sym, ap, ◌∙◌, subst, arith, Bool, true, ◌&&◌, Bool-cases, some,
  List, [], ◌∷◌, ◌++◌, length, length-append, ◌⊎◌, inl, inr, if◌then◌else◌,
}
use postgres_cpp_lib.Client.{
  Task, OverflowCallbackThread, PostgresClient, requests_cb_stop, cb_waits, cb_wakes, cb_calls,
  overflow_calls, take_out, finish, call, cb_wait, cb_wake, cb_call, overflow_call, next,
}
use postgres_cpp_lib.Client.Count.{waiting}
use postgres_cpp_lib.Client.Destroy.{left_to_do}
use postgres_cpp_lib.Client.Posting.{Posting, Turn, goes, is_free, is_finished, turn, turns}
use postgres_cpp_lib.Client.Posting.Delivered.{Ended}

module _ {Table : Type 0} where
  -- Some turns end all threads.
  abbrev pub CanEnd : Posting Table → Type 0
  CanEnd p = (ts : List (Turn Table)) × Ended (turns ts p)

  pub first_turn : (t : Turn Table) (p q : Posting Table) → turn t p ≡ q → CanEnd q → CanEnd p
  unfolding turns
  first_turn t p q e (ts, h) = (t ∷ ts, subst (λ u. Ended (turns ts u)) (sym e) h)

  -- The worker has ended, and the callback workers are to stop.
  record Stopping (p : Posting Table) : Type 0 where
    free : is_free p ≡ true
    ended : is_finished p.client.worker ≡ true
    stopped : p.client.cb_stop_requested ≡ true
    nobody_waiting : waiting p.client.overflow_cb_threads ≡ []

  stays :
      (p : Posting Table) (c : PostgresClient Table)
      → c.worker ≡ p.client.worker
      → c.cb_stop_requested ≡ p.client.cb_stop_requested
      → c.overflow_cb_threads ≡ p.client.overflow_cb_threads
      → Stopping p
      → Stopping (record p { client = c })
  stays p c w b o s = record {
    free = s.free;
    ended = ap is_finished w ∙ s.ended;
    stopped = b ∙ s.stopped;
    nobody_waiting = ap waiting o ∙ s.nobody_waiting;
  }

  -- The callback workers go on until all have left their loop.
  callback_workers :
      (fuel n k : ℕ) (running queue : List (Task Table)) (p : Posting Table)
      → p.client.ready ≡ n
      → p.client.idle_cb_workers ≡ k
      → p.client.running ≡ running
      → p.client.cb_queue ≡ queue
      → left_to_do p.client ≤ fuel
      → Stopping p
      → CanEnd p
  unfolding turn next cb_wait cb_wake cb_call take_out call turns
  callback_workers fuel zero zero [] queue p n k r q h s = (
    [],
    record {
      worker_finished = s.ended;
      worker_free = s.free;
      nobody_present = omega (arith, n, k, ap length r);
      nobody_waiting = s.nobody_waiting;
    },
  )
  callback_workers zero zero (suc k) [] queue p n e r q h s = absurd (omega (arith, n, e, h))
  callback_workers (suc fuel) zero (suc k) [] [] p n e r q h s =
      let c = record p.client { idle_cb_workers = k } in
      first_turn (goes cb_wakes) p (record p { client = c })
        (ap (λ i. record p { client = cb_wake i p.client.cb_queue p.client }) e
          ∙ ap (λ ts. record p { client = cb_wake (suc k) ts p.client }) q
          ∙ ap (λ (b : Bool). record p { client = if b then c else p.client }) s.stopped)
        (callback_workers fuel zero k [] [] (record p { client = c }) n refl r q
          (omega (arith, n, e, h)) (stays p c refl refl refl s))
  callback_workers (suc fuel) zero (suc k) [] (t ∷ queue) p n e r q h s =
      let c = record p.client {
        idle_cb_workers = k;
        cb_queue = queue;
        running = p.client.running ++ t ∷ [];
      } in
      first_turn (goes cb_wakes) p (record p { client = c })
        (ap (λ i. record p { client = cb_wake i p.client.cb_queue p.client }) e
          ∙ ap (λ ts. record p { client = cb_wake (suc k) ts p.client }) q)
        (callback_workers fuel zero k (t ∷ []) queue (record p { client = c }) n refl
          (ap (λ ts. ts ++ t ∷ []) r) refl
          (omega (arith, n, e, h, ap length q, length-append p.client.running (t ∷ [])))
          (stays p c refl refl refl s))
  callback_workers zero zero k (t ∷ ts) queue p n e r q h s = absurd (omega (arith, ap length r, h))
  callback_workers (suc fuel) zero k (t ∷ ts) queue p n e r q h s =
      let c = call t (record p.client { running = ts; ready = suc p.client.ready }) in
      first_turn (goes (cb_calls 0)) p (record p { client = c })
        (ap (λ us. record p { client = cb_call (take_out 0 us) p.client }) r)
        (callback_workers fuel (suc p.client.ready) k ts queue (record p { client = c }) refl e refl
          q (omega (arith, e, h, ap length r)) (stays p c refl refl refl s))
  callback_workers zero (suc n) k running queue p e i r q h s = absurd (omega (arith, e, h))
  callback_workers (suc fuel) (suc n) k running queue p e i r q h s =
      let c = record p.client { ready = n; idle_cb_workers = suc p.client.idle_cb_workers } in
      first_turn (goes cb_waits) p (record p { client = c })
        (ap (λ m. record p { client = cb_wait m p.client }) e)
        (callback_workers fuel n (suc p.client.idle_cb_workers) running queue
          (record p { client = c }) refl refl r q (omega (arith, e, h))
          (stays p c refl refl refl s))

  -- A thread that is not done, if there is one.
  waiting_thread :
      (ts : List (OverflowCallbackThread Table))
      → (waiting ts ≡ [])
        ⊎ ((i : ℕ) × (t : Task Table) × (us : List (OverflowCallbackThread Table)) × (finish i ts
              ≡ some (t, us))
            × (suc (length (waiting us)) ≡ length (waiting ts)))
  unfolding waiting finish
  waiting_thread [] = inl refl
  waiting_thread (t ∷ ts) = elim (Bool-cases t.done) [
    | inr off ↦ inr (0, t.task, record t { done = true } ∷ ts, rw off refl, rw off refl)
    | inl on ↦ elim (waiting_thread ts) [
      | inl e ↦ inl (rw on e)
      | inr (i, u, us, e, l) ↦ inr (suc i, u, t ∷ us, rw e refl, rw on l)
    ]
  ]

  -- The threads of their own call their tasks, then the callback workers go on.
  overflow_threads :
      (n : ℕ) (p : Posting Table)
      → length (waiting p.client.overflow_cb_threads) ≡ n
      → is_free p ≡ true
      → is_finished p.client.worker ≡ true
      → p.client.cb_stop_requested ≡ true
      → CanEnd p
  unfolding turn next overflow_call call
  overflow_threads zero p l f w b =
      callback_workers (left_to_do p.client) p.client.ready p.client.idle_cb_workers
        p.client.running p.client.cb_queue p refl refl refl refl (omega arith)
        (record {
          free = f;
          ended = w;
          stopped = b;
          nobody_waiting = empty (waiting p.client.overflow_cb_threads) l;
        })
    where
      empty : (ts : List (Task Table)) → length ts ≡ 0 → ts ≡ []
      empty [] e = refl
      empty (t ∷ ts) e = absurd (omega (arith, e))
  overflow_threads (suc n) p l f w b = elim (waiting_thread p.client.overflow_cb_threads) [
    | inl e ↦ absurd (omega (arith, ap length e, l))
    | inr (i, t, us, e, more) ↦
        let c = call t (record p.client { overflow_cb_threads = us }) in
        first_turn (goes (overflow_calls i)) p (record p { client = c })
          (ap (λ o. record p { client = overflow_call o p.client }) e)
          (overflow_threads n (record p { client = c }) (omega (arith, more, l)) f w b)
  ]

  -- The worker is joined, and the callback workers are told to stop.
  pub joined :
      (p : Posting Table) → is_free p ≡ true → is_finished p.client.worker ≡ true → CanEnd p
  unfolding turn next
  joined p f w =
      let q = record p { client = record p.client { cb_stop_requested = true } } in
      first_turn (goes requests_cb_stop) p q
        (ap (λ (b : Bool). if b && is_finished p.client.worker then q else p) f
          ∙ ap (λ (b : Bool). if b then q else p) w)
        (overflow_threads (length (waiting p.client.overflow_cb_threads)) q refl f w refl)
