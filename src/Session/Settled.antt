-- ===== src/Session/Settled.antt =====
-- The fuel for a caller that waits for its future, and for what is queued before it.
use postgres_cpp_lib.Base.{
  sym, subst, ◌≤◌, ◌+◌, ℕ, ◌≡◌, refl, ap, ◌∙◌, some, List, [], ◌∷◌, ◌++◌, length, arith, map,
}
use postgres_cpp_lib.Base.Texts.{Expected}
use postgres_cpp_lib.Param.{PgParamDetail}
use postgres_cpp_lib.SqlError.{SqlError}
use postgres_cpp_lib.Connection.Libpq.{LibpqApi}
use postgres_cpp_lib.Client.{QueryRequest, at_head, answer, call, send_to_worker}
use postgres_cpp_lib.Session.{returned, Session, run_query, serve_requests, submit, send_and_wait}
use postgres_cpp_lib.Session.Served.{
  served-Rests, served-requests, Rests, Behind, served, serve_request-served,
}
use postgres_cpp_lib.Connection.Progress.{Progress}
use postgres_cpp_lib.Connection.Attempts.{Ended}
use postgres_cpp_lib.Connection.{execute_with_retry}
use postgres_cpp_lib.Connection.Attempts.{Ended}
use postgres_cpp_lib.Connection.Settled.{execute_with_retry-Settled}
use postgres_cpp_lib.Session.Waited.{direct, before, before-Behind, send_and_wait-outcome}

module _ {W Table : Type 0} where
  -- A request with its answer, and the world behind it.
  abbrev pub with_answer :
      Expected Table SqlError × W
      → QueryRequest
      → List QueryRequest
      → Session W Table
      → Session W Table
  with_answer o item rest s = record s {
    client = answer item o.0 (record s.client { worker = at_head; requests = rest });
    world = o.1;
    sent = s.sent ++ item.detail.query ∷ [];
  }

module _ {W Table : Type 0} (api : LibpqApi W Table) (p : Progress api) where
  -- What a query returns with this fuel or more.
  pub query-Settled :
      (detail : PgParamDetail) (w : W)
      → (n : ℕ) × (r : Expected Table SqlError) × (w' : W) × ((m : ℕ)
          → n ≤ m
          → (execute_with_retry api m detail 5000 w ≡ some (r, w'))
            × (run_query api m detail w ≡ (r, w'))
            × Ended api m detail 5000 w r w')
  unfolding run_query
  query-Settled detail w =
      let (n, r, w', h) = execute_with_retry-Settled api p detail 5000 w in
      (n, r, w', λ m l. ((h m l).0, ap (λ o. returned o w) (h m l).0, (h m l).1))

  pub served-with_answer :
      (m : ℕ) (item : QueryRequest) (rest : List QueryRequest) (s : Session W Table)
      → served api m item rest s ≡ with_answer (run_query api m item.detail s.world) item rest s
  unfolding served
  served-with_answer m item rest s = refl

  serve_requests-Settled :
      (xs ys : List QueryRequest) (s : Session W Table)
      → Rests s
      → s.client.requests ≡ xs ++ ys
      → (n : ℕ) × (t : Session W Table) × ((m : ℕ) → n ≤ m → serve_requests api m (length xs) s ≡ t)
  unfolding serve_requests
  serve_requests-Settled [] ys s h e = (0, s, λ m l. refl)
  serve_requests-Settled (item ∷ xs) ys s h e =
      let (n, r, w, q) = query-Settled item.detail s.world in
      let d = with_answer (r, w) item (xs ++ ys) s in
      let same = λ (m : ℕ) (l : n ≤ m).
        served-with_answer m item (xs ++ ys) s
        ∙ ap (λ o. with_answer o item (xs ++ ys) s) (q m l).1 in
      let (n', t, more) =
        serve_requests-Settled xs ys d
          (subst Rests (same n (omega arith)) (served-Rests api n item (xs ++ ys) s h.1))
          (ap (λ (u : Session W Table). u.client.requests) (sym (same n (omega arith)))
            ∙ served-requests api n item (xs ++ ys) s) in
      (
        n + n',
        t,
        λ m l.
            ap (serve_requests api m (length xs))
              (serve_request-served api m item (xs ++ ys) s h e ∙ same m (omega arith))
            ∙ more m (omega arith),
      )

  -- What a caller gets who waits: `r`, from the world of `t`, in the session `u`.
  abbrev pub Waits :
      ℕ
      → PgParamDetail
      → Session W Table
      → Session W Table
      → Expected Table SqlError
      → Session W Table
      → Type 0
  Waits fuel detail s t r u =
      (before api fuel detail s ≡ t)
      × (send_and_wait api fuel detail s ≡ (r, u))
      × (execute_with_retry api fuel detail 5000 t.world ≡ some (r, u.world))
      × Ended api fuel detail 5000 t.world r u.world

  -- Given progress, and with a worker at the head of its loop and no stop, a caller that waits for the future of
  -- `SendToWorker` gets an answer: there is fuel for it, and more changes nothing. The answer is what
  -- `ExecuteWithRetry` returns for the query, in one of the ways in which that can end, in the world
  -- that the requests before it leave; those were handed to `ExecuteWithRetry` first, in order. The
  -- caller's callback is the last that was called, no request is left, and the worker is at the head of
  -- its loop again.
  pub send_and_wait-Waits :
      (detail : PgParamDetail) (s : Session W Table)
      → Rests s
      → (n : ℕ) × (t : Session W Table) × (r : Expected Table SqlError) × (u : Session W Table)
        × ((fuel : ℕ) → n ≤ fuel → Waits fuel detail s t r u)
        × (u.sent ≡ (s.sent ++ map (λ q. q.detail.query) s.client.requests) ++ detail.query ∷ [])
        × (u.client.called ≡ t.client.called ++ record { id = s.next_id; result = r } ∷ [])
        × (u.client.requests ≡ [])
        × Rests u
  unfolding submit send_to_worker answer call served
  send_and_wait-Waits detail s h =
      let (n, t, b) =
        serve_requests-Settled s.client.requests (direct s.next_id detail ∷ []) (submit detail s) h
          refl in
      let (n', r, w, q) = query-Settled detail t.world in
      let u = with_answer (r, w) (direct s.next_id detail) [] t in
      let ((_, go), _, sent) =
        subst (Behind s.client.requests (direct s.next_id detail ∷ []) s) (b n (omega arith))
          (before-Behind api n detail s h) in
      (
        n + n',
        t,
        r,
        u,
        λ m l.
            let at_t = b m (omega arith) in
            let (run, done, ended) = q m (omega arith) in
            (
              at_t,
              send_and_wait-outcome api m detail s h
                  ∙ ap
                      (λ (v : Session W Table). (
                        (run_query api m detail v.world).0,
                        with_answer (run_query api m detail v.world) (direct s.next_id detail) [] v,
                      ))
                      at_t
                  ∙ ap (λ o. (o.0, with_answer o (direct s.next_id detail) [] t)) done,
              run,
              ended,
            ),
        ap (λ l. l ++ detail.query ∷ []) sent,
        refl,
        refl,
        (refl, go),
      )
