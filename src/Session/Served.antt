-- ===== src/Session/Served.antt =====
-- What the worker does with the requests that are queued.
use postgres_cpp_lib.Base.{
  ℕ, suc, zero, ◌≡◌, refl, sym, ap, ◌∙◌, subst, Bool, true, false, ◌&&◌, if◌then◌else◌, List, [],
  ◌∷◌, ◌++◌, length, map, append_assoc, append-nil,
}
use postgres_cpp_lib.Base.Texts.{Expected}
use postgres_cpp_lib.SqlError.{SqlError}
use postgres_cpp_lib.Connection.Libpq.{LibpqApi}
use postgres_cpp_lib.Client.{
  QueryRequest, at_head, at_wait, finished, executing, PostgresClient, works, stopped_error, answer,
  answer_pending, work, wake, take_request, next,
}
use postgres_cpp_lib.Client.Lost.{answer-AnswerKeeps}
use postgres_cpp_lib.Session.{Session, run_query, serve_at, serve, serve_request, serve_requests}

module _ {Table : Type 0} where
  head-to_wait :
      (result : Expected Table SqlError) (c : PostgresClient Table)
      → c.worker ≡ at_head
      → c.stop_requested ≡ false
      → next (works false result) c ≡ record c { worker = at_wait }
  unfolding next work
  head-to_wait result c at go =
      ap (λ w. work false result w c) at
      ∙ ap
          (λ b.
            if b
            then record c { worker = finished }
            else if c.heartbeat_enabled && false
            then c
            else record c { worker = at_wait })
          go
      ∙ not_due c.heartbeat_enabled
    where
      not_due :
          (b : Bool)
          → (if b && false then c else record c { worker = at_wait })
            ≡ record c { worker = at_wait }
      not_due true = refl
      not_due false = refl

  wait-to_query :
      (result : Expected Table SqlError) (item : QueryRequest) (rest : List QueryRequest)
      (c : PostgresClient Table)
      → c.worker ≡ at_wait
      → c.stop_requested ≡ false
      → c.requests ≡ item ∷ rest
      → next (works false result) c ≡ record c { requests = rest; worker = executing item }
  unfolding next work wake take_request
  wait-to_query result item rest c at go e =
      ap (λ w. work false result w c) at
      ∙ ap
          (λ b.
            if b
            then answer_pending c.requests (record c { requests = []; worker = finished })
            else take_request c.requests c)
          go
      ∙ ap (λ rs. take_request rs c) e

module _ {W Table : Type 0} where
  -- The worker is at the head of its loop, and no stop was requested.
  abbrev pub Rests : Session W Table → Type 0
  Rests s = (s.client.worker ≡ at_head) × (s.client.stop_requested ≡ false)

  -- The requests `xs` are gone and were sent in order, and `ys` are left.
  abbrev pub Behind :
      List QueryRequest → List QueryRequest → Session W Table → Session W Table → Type 0
  Behind xs ys s t =
      Rests t × (t.client.requests ≡ ys) × (t.sent ≡ s.sent ++ map (λ r. r.detail.query) xs)

module _ {W Table : Type 0} (api : LibpqApi W Table) (fuel : ℕ) where
  -- A request is executed and answered.
  unfoldable pub served : QueryRequest → List QueryRequest → Session W Table → Session W Table
  served item rest s =
      let (result, w) = run_query api fuel item.detail s.world in
      record s {
        client = answer item result (record s.client { worker = at_head; requests = rest });
        world = w;
        sent = s.sent ++ item.detail.query ∷ [];
      }

  to_wait :
      (s : Session W Table)
      → Rests s
      → serve api fuel s ≡ record s { client = record s.client { worker = at_wait } }
  unfolding serve serve_at
  to_wait s (at, go) =
      ap (λ w. serve_at api fuel w s) at
      ∙ ap (λ c. record s { client = c }) (head-to_wait stopped_error s.client at go)

  to_query :
      (item : QueryRequest) (rest : List QueryRequest) (s : Session W Table)
      → s.client.worker ≡ at_wait
      → s.client.stop_requested ≡ false
      → s.client.requests ≡ item ∷ rest
      → serve api fuel s
        ≡ record s { client = record s.client { requests = rest; worker = executing item } }
  unfolding serve serve_at
  to_query item rest s at go e =
      ap (λ w. serve_at api fuel w s) at
      ∙ ap (λ c. record s { client = c }) (wait-to_query stopped_error item rest s.client at go e)

  pub serve_request-served :
      (item : QueryRequest) (rest : List QueryRequest) (s : Session W Table)
      → Rests s
      → s.client.requests ≡ item ∷ rest
      → serve_request api fuel s ≡ served item rest s
  unfolding serve_request served serve serve_at next work
  serve_request-served item rest s (at, go) e =
      ap (λ t. serve api fuel (serve api fuel t)) (to_wait s (at, go))
      ∙ ap (serve api fuel) (
          to_query item rest (record s { client = record s.client { worker = at_wait } }) refl go e)

  pub served-Rests :
      (item : QueryRequest) (rest : List QueryRequest) (s : Session W Table)
      → s.client.stop_requested ≡ false
      → Rests (served item rest s)
  unfolding served
  served-Rests item rest s go =
      let ((w, _), st) =
        answer-AnswerKeeps item (run_query api fuel item.detail s.world).0
          (record s.client { worker = at_head; requests = rest }) in
      (w, st ∙ go)

  pub served-requests :
      (item : QueryRequest) (rest : List QueryRequest) (s : Session W Table)
      → (served item rest s).client.requests ≡ rest
  unfolding served
  served-requests item rest s =
      (answer-AnswerKeeps item (run_query api fuel item.detail s.world).0
        (record s.client { worker = at_head; requests = rest })).0.1

  pub serve_requests-last :
      (n : ℕ) (s : Session W Table)
      → serve_requests api fuel (suc n) s ≡ serve_request api fuel (serve_requests api fuel n s)
  unfolding serve_requests
  serve_requests-last zero s = refl
  serve_requests-last (suc n) s = serve_requests-last n (serve_request api fuel s)

  pub serve_requests-Behind :
      (xs ys : List QueryRequest) (s : Session W Table)
      → Rests s
      → s.client.requests ≡ xs ++ ys
      → Behind xs ys s (serve_requests api fuel (length xs) s)
  unfolding serve_requests served
  serve_requests-Behind [] ys s h e = (h, e, sym (append-nil s.sent))
  serve_requests-Behind (item ∷ xs) ys s h e =
      let d = served item (xs ++ ys) s in
      let (r, q, k) =
        serve_requests-Behind xs ys d (served-Rests item (xs ++ ys) s h.1)
          (served-requests item (xs ++ ys) s) in
      subst (λ t. Behind (item ∷ xs) ys s (serve_requests api fuel (length xs) t))
        (sym (serve_request-served item (xs ++ ys) s h e))
        (r, q, k ∙ append_assoc s.sent (item.detail.query ∷ []) (map (λ r. r.detail.query) xs))
