-- ===== src/Client/Joined.antt =====
-- The threads that the destructor joins, each by itself.
use postgres_cpp_lib.Base.{
  ◌-◌, ℕ, ◌+◌, ◌≤◌, zero, suc, ◌≡◌, refl, sym, ap, ◌∙◌, subst, arith, Bool, true, false, some, List,
  [], ◌∷◌, length, length-append, if_elim, inl, inr,
}
use postgres_cpp_lib.Base.Texts.{Expected}
use postgres_cpp_lib.SqlError.{SqlError}
use postgres_cpp_lib.Client.{
  Worker, at_head, at_wait, finished, executing, Task, PostgresClient, works, reap_overflow_threads,
  call, cb_wait, cb_wake, cb_call, work, next,
}
use postgres_cpp_lib.Client.Count.{
  times, times-snoc, of_tasks, waiting, waiting-reap_overflow_threads, places,
}
use postgres_cpp_lib.Client.Conserved.{cb_wait-places, cb_wake-places, cb_call-places}
use postgres_cpp_lib.Client.Stop.{stop_at_wait}
use postgres_cpp_lib.Client.Lost.{leaves, rounds}
use postgres_cpp_lib.Client.Stranded.{Attended}
use postgres_cpp_lib.Client.Destroy.{
  join_worker, call_all, join_overflow, go_on, join_callbacks, left_to_do,
}

module _ {Table : Type 0} where
  -- The worker.
  pub finished_stays :
      (due : Bool) (result : Expected Table SqlError) (c : PostgresClient Table)
      → c.worker ≡ finished
      → next (works due result) c ≡ c
  unfolding next work
  finished_stays due result c f = ap (λ w. work due result w c) f

  pub join_worker_at :
      (result : Expected Table SqlError) (c : PostgresClient Table) (w : Worker)
      → c.worker ≡ w
      → c.stop_requested ≡ true
      → (join_worker result c).worker ≡ finished
  unfolding join_worker
  join_worker_at result c (executing item) at stop =
      (rounds false false result result item c at stop).0
  join_worker_at result c at_head at stop =
      let left : PostgresClient Table = record c { worker = finished } in
      subst (λ d. (next (works false result) d).worker ≡ finished)
        (sym (leaves false result c at stop))
        (subst (λ d. d.worker ≡ finished) (sym (finished_stays false result left refl)) refl)
  join_worker_at result c at_wait at stop =
      let d : PostgresClient Table = next (works false result) c in
      let (f, _, _, _) = stop_at_wait false result c at stop in
      subst (λ d. d.worker ≡ finished) (sym (finished_stays false result d f)) f
  join_worker_at result c finished at stop =
      subst (λ d. (next (works false result) d).worker ≡ finished)
        (sym (finished_stays false result c at))
        (subst (λ d. d.worker ≡ finished) (sym (finished_stays false result c at)) at)

  -- The overflow threads.
  call_all-places :
      (i : ℕ) (ts : List (Task Table)) (c : PostgresClient Table)
      → places (call_all ts c) i ≡ places c i + of_tasks ts i
  unfolding call_all call places times
  call_all-places i [] c = omega arith
  call_all-places i (t ∷ ts) c =
      omega
        (arith, call_all-places i ts (call t c), times-snoc (λ (t : Task Table). t.id) i c.called t)

  pub join_overflow-places :
      (i : ℕ) (c : PostgresClient Table) → places (join_overflow c) i ≡ places c i
  unfolding join_overflow places times
  join_overflow-places i c = omega (
    arith,
    call_all-places i (waiting (reap_overflow_threads c.overflow_cb_threads))
        (record c { overflow_cb_threads = [] }),
    ap (λ ts. of_tasks ts i) (waiting-reap_overflow_threads c.overflow_cb_threads),
  )

  -- Only what was called changes.
  abbrev pub Kept : PostgresClient Table → PostgresClient Table → Type 0
  Kept c d =
      (d.worker ≡ c.worker)
      × (d.overflow_cb_threads ≡ c.overflow_cb_threads)
      × (d.requests ≡ c.requests)

  pub call_all-Kept : (ts : List (Task Table)) (c : PostgresClient Table) → Kept c (call_all ts c)
  unfolding call_all call
  call_all-Kept [] c = (refl, refl, refl)
  call_all-Kept (t ∷ ts) c = call_all-Kept ts (call t c)

  pub call_all-Attended :
      (ts : List (Task Table)) (c : PostgresClient Table) → Attended c → Attended (call_all ts c)
  unfolding call_all call
  call_all-Attended [] c h = h
  call_all-Attended (t ∷ ts) c h = call_all-Attended ts (call t c) h

  -- The callback workers.
  go_on-places :
      (i n : ℕ) (running : List (Task Table)) (c : PostgresClient Table)
      → c.running ≡ running
      → places (go_on n running c) i ≡ places c i
  unfolding go_on
  go_on-places i (suc n) running c e = cb_wait-places i (suc n) c
  go_on-places i zero (t ∷ ts) c e =
      cb_call-places i c (some (t, ts)) (ap (λ r. of_tasks r i) e ∙ unfold times in refl)
  go_on-places i zero [] c e = cb_wake-places i c.idle_cb_workers c c.cb_queue refl

  -- Each time there is less to do, as long as there is something.
  abbrev Settling : PostgresClient Table → PostgresClient Table → Type 0
  Settling c d =
      Kept c d × (d.cb_stop_requested ≡ true) × Attended d × (left_to_do d ≤ left_to_do c - 1)

  wake-Settling :
      (n : ℕ) (queue : List (Task Table)) (c : PostgresClient Table)
      → c.idle_cb_workers ≡ n
      → c.cb_queue ≡ queue
      → c.ready ≡ 0
      → c.running ≡ []
      → c.cb_stop_requested ≡ true
      → Attended c
      → Settling c (cb_wake n queue c)
  unfolding cb_wake
  wake-Settling zero queue c n q r e stop h =
      ((refl, refl, refl), stop, h, omega (arith, ap length e))
  wake-Settling (suc n) [] c i q r e stop h =
      if_elim (Settling c) c.cb_stop_requested
        (λ _. ((refl, refl, refl), stop, inl (ap length q), omega (arith, ap length q))) (λ no. cc)
  wake-Settling (suc n) (t ∷ ts) c i q r e stop h = (
    (refl, refl, refl),
    stop,
    inr (omega (arith, length-append c.running (t ∷ []))),
    omega (arith, ap length q, ap length e, length-append c.running (t ∷ [])),
  )

  go_on-Settling :
      (n : ℕ) (running : List (Task Table)) (c : PostgresClient Table)
      → c.ready ≡ n
      → c.running ≡ running
      → c.cb_stop_requested ≡ true
      → Attended c
      → Settling c (go_on n running c)
  unfolding go_on cb_wait cb_call call
  go_on-Settling (suc n) running c r e stop h =
      ((refl, refl, refl), stop, inr (omega arith), omega arith)
  go_on-Settling zero (t ∷ ts) c r e stop h =
      ((refl, refl, refl), stop, inr (omega arith), omega (arith, ap length e))
  go_on-Settling zero [] c r e stop h =
      wake-Settling c.idle_cb_workers c.cb_queue c refl refl r e stop h

  -- All callback workers have left, and nothing is queued.
  abbrev pub Settled : PostgresClient Table → PostgresClient Table → Type 0
  Settled c d = Kept c d × (left_to_do d ≡ 0)

  Kept-trans : (b c d : PostgresClient Table) → Kept b c → Kept c d → Kept b d
  Kept-trans b c d (w, o, r) (w', o', r') = (w' ∙ w, o' ∙ o, r' ∙ r)

  pub join_callbacks-Settled :
      (fuel : ℕ) (c : PostgresClient Table)
      → left_to_do c ≤ fuel
      → c.cb_stop_requested ≡ true
      → Attended c
      → Settled c (join_callbacks fuel c)
  unfolding join_callbacks
  join_callbacks-Settled zero c f stop h = ((refl, refl, refl), omega arith)
  join_callbacks-Settled (suc fuel) c f stop h =
      let d : PostgresClient Table = go_on c.ready c.running c in
      let (k, stop', h', l) = go_on-Settling c.ready c.running c refl refl stop h in
      let (k', z) = join_callbacks-Settled fuel d (omega (arith, f, l)) stop' h' in
      (Kept-trans c d (join_callbacks fuel d) k k', z)

  pub join_callbacks-places :
      (i fuel : ℕ) (c : PostgresClient Table) → places (join_callbacks fuel c) i ≡ places c i
  unfolding join_callbacks
  join_callbacks-places i zero c = refl
  join_callbacks-places i (suc fuel) c =
      join_callbacks-places i fuel (go_on c.ready c.running c)
      ∙ go_on-places i c.ready c.running c refl
