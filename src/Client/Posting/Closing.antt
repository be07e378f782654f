-- ===== src/Client/Posting/Closing.antt =====
-- The end of the worker and of the other threads: src/postgres_pub.cpp, the destructor.
use postgres_cpp_lib.Base.{
  ℕ, ◌+◌, ◌*◌, ◌≤◌, zero, suc, ◌≡◌, refl, ap, ◌∙◌, arith, Bool, true, false, ◌&&◌, Bool-cases, List,
  [], ◌∷◌, ◌++◌, length, ◌⊎◌, inl, inr, ◌==◌, if◌then◌else◌, map,
}
use postgres_cpp_lib.Client.{
  Worker, at_head, at_wait, finished, executing, Task, OverflowCallbackThread, requests_stop, works,
  call, reap_overflow_threads, stopped_error, take_request, work, next,
}
use postgres_cpp_lib.Client.Posting.{
  Duty, Poster, resting, pushes, starts, lists, Posting, goes, posts, is_free, is_finished, duty,
  begin, post, turn,
}
use postgres_cpp_lib.Client.Posting.Leaving.{CanEnd, first_turn, joined}

module _ {Table : Type 0} where
  -- What the worker has to do with its callbacks.
  abbrev of_poster : Poster Table → ℕ
  of_poster resting = 0
  of_poster (pushes t) = 1
  of_poster (starts t) = 2
  of_poster (lists t) = 1

  -- The worker deals with its callbacks, and then `goal` says how it goes on.
  drained :
      (fuel : ℕ) (q : Poster Table) (ds : List (Duty Table)) (p : Posting Table)
      → p.poster ≡ q
      → p.duties ≡ ds
      → 3 * length ds + of_poster q ≤ fuel
      → ((r : Posting Table)
          → is_free r ≡ true
          → r.client.worker ≡ p.client.worker
          → r.client.stop_requested ≡ p.client.stop_requested
          → CanEnd r)
      → CanEnd p
  unfolding turn post call
  drained fuel resting [] p e f h goal = goal p (ground (arith, e, f)) refl refl
  drained zero resting (d ∷ ds) p e f h goal = absurd (omega (arith, h))
  drained zero (pushes t) ds p e f h goal = absurd (omega (arith, h))
  drained zero (starts t) ds p e f h goal = absurd (omega (arith, h))
  drained zero (lists t) ds p e f h goal = absurd (omega (arith, h))
  drained (suc fuel) (pushes t) ds p e f h goal =
      let q = record p {
        client = record p.client { cb_queue = p.client.cb_queue ++ t ∷ [] };
        poster = resting;
      } in
      first_turn posts p q (ap (λ x. post x p.duties p) e)
        (drained fuel resting ds q refl f (omega (arith, h)) goal)
  drained (suc fuel) (starts t) ds p e f h goal =
      let new : OverflowCallbackThread Table = record { done = false; task = t } in
      let q = record p { poster = lists new } in
      first_turn posts p q (ap (λ x. post x p.duties p) e)
        (drained fuel (lists new) ds q refl f (omega (arith, h)) goal)
  drained (suc fuel) (lists t) ds p e f h goal =
      let q = record p {
        client = record p.client {
          overflow_cb_threads = reap_overflow_threads p.client.overflow_cb_threads ++ t ∷ [];
        };
        poster = resting;
      } in
      first_turn posts p q (ap (λ x. post x p.duties p) e)
        (drained fuel resting ds q refl f (omega (arith, h)) goal)
  drained (suc fuel) resting (d ∷ ds) p e f h goal =
      let looked = if p.client.idle_cb_workers == 0 then starts d.task else pushes d.task in
      let called = record p { client = call d.task p.client; duties = ds } in
      let posted = record p { duties = ds; poster = looked } in
      let to = ap (λ x. post x p.duties p) e ∙ ap (λ x. post resting x p) f in
      elim (Bool-cases d.direct_callback) [
        | inl direct ↦
            first_turn posts p called (to ∙ ap (λ (b : Bool). if b then called else posted) direct)
              (drained fuel resting ds called e refl (omega (arith, h)) goal)
        | inr pooled ↦
            first_turn posts p posted (to ∙ ap (λ (b : Bool). if b then called else posted) pooled)
              (drained fuel looked ds posted refl refl
                (omega (arith, h, light d.task (p.client.idle_cb_workers == 0))) goal)
      ]
    where
      light : (t : Task Table) (b : Bool) → of_poster (if b then starts t else pushes t) ≤ 2
      light t b = ground arith

  -- A worker that sees the stop at the head of its loop, or has left the loop.
  at_end :
      (w : Worker) (p : Posting Table)
      → p.client.worker ≡ w
      → (w ≡ at_head) ⊎ (w ≡ finished)
      → is_free p ≡ true
      → p.client.stop_requested ≡ true
      → CanEnd p
  unfolding turn begin work
  at_end w p e (inr at) f go = joined p f (ap is_finished (e ∙ at))
  at_end w p e (inl at) f go =
      let c = record p.client { worker = finished } in
      first_turn (goes (works false stopped_error)) p (record p { client = c })
        (ap (λ (b : Bool). if b then begin false stopped_error p.client.worker p else p) f
          ∙ ap (λ x. begin false stopped_error x p) (e ∙ at)
          ∙ ap
              (λ (b : Bool). record p {
                client =
                    if b
                    then c
                    else if p.client.heartbeat_enabled && false
                    then p.client
                    else record p.client { worker = at_wait };
              })
              go)
        (joined (record p { client = c }) f refl)

  -- The worker has nothing to post, and the stop was requested.
  stopped_worker :
      (w : Worker) (p : Posting Table)
      → p.client.worker ≡ w
      → is_free p ≡ true
      → p.client.stop_requested ≡ true
      → CanEnd p
  unfolding turn begin
  stopped_worker finished p e f go = at_end finished p e (inr refl) f go
  stopped_worker at_head p e f go = at_end at_head p e (inl refl) f go
  stopped_worker at_wait p e f go =
      let q = record p {
        client = record p.client { requests = []; worker = finished };
        duties = map (duty stopped_error) p.client.requests;
      } in
      first_turn (goes (works false stopped_error)) p q
        (ap (λ (b : Bool). if b then begin false stopped_error p.client.worker p else p) f
          ∙ ap (λ x. begin false stopped_error x p) e
          ∙ ap
              (λ (b : Bool).
                if b then q else record p { client = take_request p.client.requests p.client })
              go)
        (drained (3 * length q.duties + of_poster q.poster) q.poster q.duties q refl refl
          (omega arith) λ r free at stop. at_end finished r at (inr refl) free (stop ∙ go))
  stopped_worker (executing item) p e f go =
      let q = record p {
        client = record p.client { worker = at_head };
        duties = duty stopped_error item ∷ [];
      } in
      first_turn (goes (works false stopped_error)) p q
        (ap (λ (b : Bool). if b then begin false stopped_error p.client.worker p else p) f
          ∙ ap (λ x. begin false stopped_error x p) e)
        (drained (3 * length q.duties + of_poster q.poster) q.poster q.duties q refl refl
          (omega arith) λ r free at stop. at_end at_head r at (inl refl) free (stop ∙ go))

  -- In a client whose threads can always go back from a wait to test its condition, so that no
  -- notification is lost on them: from any state, between any two steps of its worker and with any
  -- callbacks on their way, the threads can go on in such a way that all of them end.
  pub turns-CanEnd : (p : Posting Table) → CanEnd p
  unfolding turn next
  turns-CanEnd p =
      let q = record p { client = record p.client { stop_requested = true } } in
      first_turn (goes requests_stop) p q refl (
        drained (3 * length q.duties + of_poster q.poster) q.poster q.duties q refl refl
          (omega arith) λ r free at stop. stopped_worker r.client.worker r refl free stop)
