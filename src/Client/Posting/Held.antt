-- ===== src/Client/Posting/Held.antt =====
-- The queue of callbacks and the callback workers, when the other threads go on:
-- src/postgres_priv.cpp, `CallbackWorker`.
use postgres_cpp_lib.Base.{
  sym, ◌∙◌, Bool-cases, ℕ, ◌<◌, zero, suc, ◌≡◌, refl, ap, arith, Bool, true, false, ◌&&◌, Option,
  none, some, List, [], ◌∷◌, length-append, inl, inr,
}
use postgres_cpp_lib.Client.{
  Task, OverflowCallbackThread, PostgresClient, call, cb_wait, cb_wake, cb_call, overflow_call,
}
use postgres_cpp_lib.Client.Stranded.{present, Attended}
use postgres_cpp_lib.Client.Posting.{
  Duty, Poster, resting, pushes, starts, lists, Posting, is_resting, no_duties, is_free,
  is_finished,
}

module _ {Table : Type 0} where
  abbrev pub is_pushing : Poster Table → Bool
  is_pushing (pushes t) = true
  is_pushing resting = false
  is_pushing (starts t) = false
  is_pushing (lists t) = false

  -- The stop of the callback workers comes when the worker is finished and has nothing to post; a
  -- callback that is to be pushed has a callback worker, and so has one in the queue.
  pub record Posted (p : Posting Table) : Type 0 where
    pub stopped_last :
        p.client.cb_stop_requested ≡ true
        → (is_free p ≡ true) × (is_finished p.client.worker ≡ true)
    pub pushed_to : is_pushing p.poster ≡ true → 0 < present p.client
    pub attended : Attended p.client

  -- What the events of the other threads leave.
  pub record Kept (c d : PostgresClient Table) : Type 0 where
    pub stop_same : d.cb_stop_requested ≡ c.cb_stop_requested
    pub worker_same : d.worker ≡ c.worker
    pub present_kept : c.cb_stop_requested ≡ false → 0 < present c → 0 < present d

  pub cb_wait-Kept : (n : ℕ) (c : PostgresClient Table) → c.ready ≡ n → Kept c (cb_wait n c)
  unfolding cb_wait
  cb_wait-Kept zero c e = record { stop_same = refl; worker_same = refl; present_kept = λ _ h. h }
  cb_wait-Kept (suc n) c e = record {
    stop_same = refl;
    worker_same = refl;
    present_kept = λ _ h. omega (arith, e);
  }

  pub cb_wake-Kept :
      (n : ℕ) (queue : List (Task Table)) (c : PostgresClient Table) → Kept c (cb_wake n queue c)
  unfolding cb_wake
  cb_wake-Kept zero queue c = record {
    stop_same = refl;
    worker_same = refl;
    present_kept = λ _ h. h;
  }
  cb_wake-Kept (suc n) (t ∷ ts) c = record {
    stop_same = refl;
    worker_same = refl;
    present_kept = λ _ h. omega (arith, length-append c.running (t ∷ []));
  }
  cb_wake-Kept (suc n) [] c = record {
    stop_same = ground arith;
    worker_same = ground arith;
    present_kept = λ s h. rw s h;
  }

  pub cb_call-Kept :
      (o : Option (Task Table × List (Task Table))) (c : PostgresClient Table)
      → Kept c (cb_call o c)
  unfolding cb_call call
  cb_call-Kept none c = record { stop_same = refl; worker_same = refl; present_kept = λ _ h. h }
  cb_call-Kept (some (t, others)) c = record {
    stop_same = refl;
    worker_same = refl;
    present_kept = λ _ h. omega arith;
  }

  pub overflow_call-Kept :
      (o : Option (Task Table × List (OverflowCallbackThread Table))) (c : PostgresClient Table)
      → Kept c (overflow_call o c)
  unfolding overflow_call call
  overflow_call-Kept none c = record {
    stop_same = refl;
    worker_same = refl;
    present_kept = λ _ h. h;
  }
  overflow_call-Kept (some (t, threads)) c = record {
    stop_same = refl;
    worker_same = refl;
    present_kept = λ _ h. h;
  }

  not_pushing :
      (q : Poster Table) (ds : List (Duty Table))
      → is_pushing q ≡ true
      → ¬ ((is_resting q && no_duties ds) ≡ true)
  not_pushing q ds e f = ground arith

  pub client-Posted :
      (d : PostgresClient Table) (p : Posting Table)
      → Kept p.client d
      → Attended d
      → Posted p
      → Posted (record p { client = d })
  client-Posted d p k a h = record {
    stopped_last = λ e.
        let (free, ends) = h.stopped_last (sym k.stop_same ∙ e) in
        (free, ap is_finished k.worker_same ∙ ends);
    pushed_to = λ e. elim (Bool-cases p.client.cb_stop_requested) [
      | inl s ↦ absurd (not_pushing p.poster p.duties e (h.stopped_last s).0)
      | inr s ↦ k.present_kept s (h.pushed_to e)
    ];
    attended = a;
  }
