-- ===== src/Client/Posting/Tests.antt =====
-- A callback worker that leaves an idle state while the worker is about to push.
use postgres_cpp_lib.Base.{ℕ, ◌+◌, ◌≡◌, refl, true, false, List, [], ◌∷◌}
use postgres_cpp_lib.Base.Texts.{Expected, value}
use postgres_cpp_lib.Param.{PgParamDetail, pg_param_detail}
use postgres_cpp_lib.SqlError.{SqlError}
use postgres_cpp_lib.Client.{
  enqueues_async, requests_stop, requests_cb_stop, works, cb_waits, cb_wakes, cb_calls,
}
use postgres_cpp_lib.Client.Count.{self, times, of_requests, of_tasks, waiting}
use postgres_cpp_lib.Client.Posting.{
  Posting, Turn, goes, posts, started_calls, posting, turn, turns,
}
use postgres_cpp_lib.Client.Posting.Held.{Posted}
use postgres_cpp_lib.Client.Posting.Posted.{turns-Posted}
use postgres_cpp_lib.Client.Posting.Closing.{turns-CanEnd}
use postgres_cpp_lib.Client.Posting.Places.{turn_submissions}
use postgres_cpp_lib.Client.Posting.Delivered.{Ended, turns-delivered}

abbrev select : PgParamDetail
select = pg_param_detail [] 0

abbrev rows : Expected ℕ SqlError
rows = value 5

-- Of two callbacks the first finds no idle callback worker, and its thread has called it before it is
-- in the list; the second is pushed behind a stop.
abbrev whole_life : List (Turn ℕ)
whole_life =
    goes (enqueues_async 1 select)
    ∷ goes (enqueues_async 2 select)
    ∷ goes (works false rows)
    ∷ goes (works false rows)
    ∷ goes (works false rows)
    ∷ posts
    ∷ posts
    ∷ started_calls
    ∷ posts
    ∷ goes cb_waits
    ∷ goes (works false rows)
    ∷ goes (works false rows)
    ∷ goes (works false rows)
    ∷ posts
    ∷ goes requests_stop
    ∷ goes requests_cb_stop
    ∷ posts
    ∷ goes (works false rows)
    ∷ goes requests_cb_stop
    ∷ goes cb_wakes
    ∷ goes (cb_calls 0)
    ∷ goes cb_waits
    ∷ goes cb_wakes
    ∷ []

whole_life-Ended : Ended (turns whole_life (posting false 1))
unfolding turns posting turn waiting
whole_life-Ended = record {
  worker_finished = refl;
  worker_free = refl;
  nobody_present = refl;
  nobody_waiting = refl;
}

turns-delivered_example :
    let c = (turns whole_life (posting false 1)).client in
    of_requests c.requests 2 + of_tasks c.called 2 ≡ times self 2 (turn_submissions whole_life)
turns-delivered_example = turns-delivered false 1 whole_life 2 whole_life-Ended

turns-Posted_example : Posted (turns whole_life (posting false 1))
turns-Posted_example = turns-Posted false 1 whole_life

-- A client whose worker executes a query while another is queued, with no callback worker.
abbrev started : Posting ℕ
started =
    turns
      (goes (enqueues_async 1 select)
        ∷ goes (enqueues_async 2 select)
        ∷ goes (works false rows)
        ∷ goes (works false rows)
        ∷ [])
      (posting true 0)

turns-CanEnd_example : (ts : List (Turn ℕ)) × Ended (turns ts started)
turns-CanEnd_example = turns-CanEnd started
