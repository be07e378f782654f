-- ===== src/Client/Posting/Places.antt =====
-- Where callbacks stand while they are posted: src/postgres_priv.cpp, `PostCallback`.
use postgres_cpp_lib.Base.{
  ℕ, ◌+◌, ◌≡◌, refl, ap, arith, Bool, true, false, ◌&&◌, List, [], ◌∷◌, ◌++◌, if_elim, ◌==◌,
  if◌then◌else◌, map,
}
use postgres_cpp_lib.Base.Texts.{Expected}
use postgres_cpp_lib.SqlError.{SqlError}
use postgres_cpp_lib.Client.{
  QueryRequest, Worker, at_head, at_wait, finished, executing, Task, OverflowCallbackThread,
  PostgresClient, call, stopped_error, reap_overflow_threads,
}
use postgres_cpp_lib.Client.Count.{
  times, times-snoc, one, of_worker, of_requests, of_tasks, waiting, waiting-append,
  waiting-reap_overflow_threads, places,
}
use postgres_cpp_lib.Client.Conserved.{submission, take_request-places, work-places}
use postgres_cpp_lib.Client.Posting.{
  Duty, Poster, resting, pushes, starts, lists, Posting, Turn, goes, posts, started_calls,
  is_resting, no_duties, is_free, is_finished, duty, begin, post, started_call,
}

pub worker_done : (i : ℕ) (w : Worker) → is_finished w ≡ true → of_worker w i ≡ 0
worker_done i finished e = refl
worker_done i at_head e = refl
worker_done i at_wait e = refl
worker_done i (executing item) e = absurd cc

module _ {Table : Type 0} where
  -- What the turns submit.
  abbrev pub turn_submission : Turn Table → List ℕ
  turn_submission (goes e) = submission e
  turn_submission posts = []
  turn_submission started_calls = []

  unfoldable pub turn_submissions : List (Turn Table) → List ℕ
  turn_submissions [] = []
  turn_submissions (t ∷ ts) = turn_submission t ++ turn_submissions ts

  abbrev pub of_duties : List (Duty Table) → ℕ → ℕ
  of_duties ds i = times (λ d. d.task.id) i ds

  abbrev pub of_poster : Poster Table → ℕ → ℕ
  of_poster resting i = 0
  of_poster (pushes t) i = one t.id i
  of_poster (starts t) i = one t.id i
  of_poster (lists t) i = of_tasks (waiting (t ∷ [])) i

  -- At all places, on the way to the callback threads too.
  unfoldable pub all_places : Posting Table → ℕ → ℕ
  all_places p i = places p.client i + of_duties p.duties i + of_poster p.poster i

  of_duties-pending :
      (i : ℕ) (result : Expected Table SqlError) (rs : List QueryRequest)
      → of_duties (map (duty result) rs) i ≡ of_requests rs i
  unfolding times duty
  of_duties-pending i result [] = refl
  of_duties-pending i result (r ∷ rs) = omega (arith, of_duties-pending i result rs)

  pub idle :
      (i : ℕ) (ds : List (Duty Table)) (q : Poster Table)
      → (is_resting q && no_duties ds) ≡ true
      → (of_duties ds i ≡ 0) × (of_poster q i ≡ 0)
  unfolding times
  idle i [] resting f = (refl, refl)
  idle i (d ∷ ds) resting f = absurd cc
  idle i ds (pushes t) f = absurd cc
  idle i ds (starts t) f = absurd cc
  idle i ds (lists t) f = absurd cc

  stopped-places :
      (i : ℕ) (p : Posting Table)
      → p.client.worker ≡ at_wait
      → is_free p ≡ true
      → all_places
          (record p {
            client = record p.client { requests = []; worker = finished };
            duties = map (duty stopped_error) p.client.requests;
          })
          i
        ≡ all_places p i
  unfolding all_places places times
  stopped-places i p e f =
      let (no_duty, no_post) = idle i p.duties p.poster f in
      omega (
        arith,
        of_duties-pending i stopped_error p.client.requests,
        ap (λ w. of_worker w i) e,
        no_duty,
        no_post,
      )

  pub begin-places :
      (i : ℕ) (due : Bool) (result : Expected Table SqlError) (w : Worker) (p : Posting Table)
      → p.client.worker ≡ w
      → is_free p ≡ true
      → all_places (begin due result w p) i ≡ all_places p i
  unfolding begin all_places places times
  begin-places i due result finished p e f = refl
  begin-places i due result at_head p e f =
      omega (arith, work-places i due result at_head p.client e)
  begin-places i due result at_wait p e f =
      if_elim (λ (q : Posting Table). all_places q i ≡ all_places p i) p.client.stop_requested
        (λ _. stopped-places i p e f)
        (λ _. omega (arith, take_request-places i p.client p.client.requests e refl))
  begin-places i due result (executing item) p e f =
      let (no_duty, no_post) = idle i p.duties p.poster f in
      omega (arith, ap (λ w. of_worker w i) e, no_duty, no_post)

  listed :
      (i : ℕ) (ts : List (OverflowCallbackThread Table)) (t : OverflowCallbackThread Table)
      → of_tasks (waiting (reap_overflow_threads ts ++ t ∷ [])) i
        ≡ of_tasks (waiting ts) i + of_tasks (waiting (t ∷ [])) i
  listed i ts t = omega (
    arith,
    waiting-append i (reap_overflow_threads ts) (t ∷ []),
    ap (λ xs. of_tasks xs i) (waiting-reap_overflow_threads ts),
  )

  called_once :
      (i : ℕ) (c : PostgresClient Table) (t : Task Table)
      → places (call t c) i ≡ places c i + one t.id i
  unfolding places call
  called_once i c t = omega (arith, times-snoc (λ (t : Task Table). t.id) i c.called t)

  looked :
      (i : ℕ) (t : Task Table) (b : Bool)
      → of_poster (if b then starts t else pushes t) i ≡ one t.id i
  unfolding times waiting
  looked i t true = refl
  looked i t false = refl

  undone :
      (i : ℕ) (t : OverflowCallbackThread Table)
      → t.done ≡ false
      → of_poster (lists t) i ≡ one t.task.id i
  unfolding times waiting
  undone i t d = ground arith

  pub post-places :
      (i : ℕ) (q : Poster Table) (ds : List (Duty Table)) (p : Posting Table)
      → p.poster ≡ q
      → p.duties ≡ ds
      → all_places (post q ds p) i ≡ all_places p i
  unfolding post all_places places times waiting
  post-places i resting [] p e f = refl
  post-places i resting (d ∷ ds) p e f =
      if_elim (λ (q : Posting Table). all_places q i ≡ all_places p i) d.direct_callback
        (λ _. omega (arith, called_once i p.client d.task, ap (λ ds. of_duties ds i) f))
        λ _. omega (
          arith,
          ap (λ q. of_poster q i) e,
          ap (λ ds. of_duties ds i) f,
          looked i d.task (p.client.idle_cb_workers == 0),
        )
  post-places i (pushes task) ds p e f = omega (
    arith,
    times-snoc (λ (t : Task Table). t.id) i p.client.cb_queue task,
    ap (λ q. of_poster q i) e,
  )
  post-places i (starts task) ds p e f = omega (arith, ap (λ q. of_poster q i) e)
  post-places i (lists thread) ds p e f =
      omega (arith, listed i p.client.overflow_cb_threads thread, ap (λ q. of_poster q i) e)

  pub started_call-places :
      (i : ℕ) (q : Poster Table) (p : Posting Table)
      → p.poster ≡ q
      → all_places (started_call q p) i ≡ all_places p i
  unfolding started_call all_places times waiting
  started_call-places i resting p e = refl
  started_call-places i (pushes task) p e = refl
  started_call-places i (starts task) p e = refl
  started_call-places i (lists thread) p e =
      if_elim (λ (q : Posting Table). all_places q i ≡ all_places p i) thread.done (λ _. refl)
        (λ d.
          omega (
            arith,
            called_once i p.client thread.task,
            ap (λ q. of_poster q i) e,
            undone i thread d,
          ))
