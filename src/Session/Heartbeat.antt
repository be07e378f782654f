-- ===== src/Session/Heartbeat.antt =====
-- The heartbeats that `QueryWorker` of src/postgres_priv.cpp sends between the requests.
use postgres_cpp_lib.Base.{
  ℕ, suc, zero, ◌+◌, ◌≤◌, ◌≡◌, refl, sym, ap, ◌∙◌, Bool, true, false, not, ◌&&◌, if◌then◌else◌,
  List, [], ◌∷◌, ◌++◌, length, append_assoc, append-nil, replicate, arith, if_elim, ◌==◌, some,
}
use postgres_cpp_lib.Base.Texts.{Text, codes, Expected}
use postgres_cpp_lib.SqlError.{SqlError}
use postgres_cpp_lib.Param.{PgParamDetail, pg_param_detail}
use postgres_cpp_lib.Connection.Libpq.{LibpqApi}
use postgres_cpp_lib.Connection.Progress.{Progress}
use postgres_cpp_lib.Client.{
  QueryRequest, Worker, at_head, at_wait, finished, executing, PostgresClient, works, work, next,
  answer, call, post_callback,
}
use postgres_cpp_lib.Client.Lost.{answer-AnswerKeeps}
use postgres_cpp_lib.Connection.{execute_with_retry}
use postgres_cpp_lib.Session.{Session, run_query, serve_request}
use postgres_cpp_lib.Session.Served.{serve_request-served}
use postgres_cpp_lib.Session.Settled.{query-Settled, with_answer, served-with_answer}

abbrev pub heartbeat_query : Text
heartbeat_query = codes "SELECT 1"

abbrev pub ping_detail : PgParamDetail
ping_detail = pg_param_detail heartbeat_query 0

module _ {W Table : Type 0} (api : LibpqApi W Table) (fuel : ℕ) where
  -- A heartbeat is due at the head of the loop: what `ExecuteWithRetry` returns is only printed.
  unfoldable pub heartbeat_at : Worker → Session W Table → Session W Table
  unfolding next run_query
  heartbeat_at at_head s =
      if s.client.heartbeat_enabled && not s.client.stop_requested
      then (let (result, w) = run_query api fuel ping_detail s.world in
          record s {
            client = next (works true result) s.client;
            world = w;
            sent = s.sent ++ heartbeat_query ∷ [];
          })
      else s
  heartbeat_at at_wait s = s
  heartbeat_at (executing item) s = s
  heartbeat_at finished s = s

  unfoldable pub heartbeats : ℕ → Session W Table → Session W Table
  unfolding heartbeat_at
  heartbeats zero s = s
  heartbeats (suc k) s = heartbeats k (heartbeat_at s.client.worker s)

  -- The next requests, each behind a number of heartbeats.
  unfoldable pub serve_between : List ℕ → Session W Table → Session W Table
  unfolding heartbeats serve_request
  serve_between [] s = s
  serve_between (k ∷ ks) s = serve_between ks (serve_request api fuel (heartbeats k s))

module _ {Table : Type 0} where
  -- A client whose worker is at the head of its loop, with heartbeats and without a stop.
  abbrev pub Beats : PostgresClient Table → Type 0
  Beats c = (c.worker ≡ at_head) × (c.stop_requested ≡ false) × (c.heartbeat_enabled ≡ true)

  -- A heartbeat leaves the client as it is.
  quiet :
      (result : Expected Table SqlError) (c : PostgresClient Table)
      → Beats c
      → next (works true result) c ≡ c
  unfolding next work
  quiet result c (at, go, on) =
      ap (λ w. work true result w c) at
      ∙ ap
          (λ (b : Bool).
            if b
            then record c { worker = finished }
            else if c.heartbeat_enabled && true
            then c
            else record c { worker = at_wait })
          go
      ∙ ap (λ (b : Bool). if b && true then c else record c { worker = at_wait }) on

module _ {W Table : Type 0} (api : LibpqApi W Table) (fuel : ℕ) where
  -- The session behind a heartbeat: only the world has changed, and what was sent.
  abbrev pub beaten : Session W Table → W → Session W Table
  beaten s w = record s { world = w; sent = s.sent ++ heartbeat_query ∷ [] }

  heartbeat_at-beaten :
      (s : Session W Table)
      → Beats s.client
      → heartbeat_at api fuel s.client.worker s
        ≡ beaten s (run_query api fuel ping_detail s.world).1
  unfolding heartbeat_at
  heartbeat_at-beaten s (at, go, on) =
      let o = run_query api fuel ping_detail s.world in
      ap (λ w. heartbeat_at api fuel w s) at
      ∙ ap
          (λ (b : Bool).
            if b && not s.client.stop_requested
            then record s {
              client = next (works true o.0) s.client;
              world = o.1;
              sent = s.sent ++ heartbeat_query ∷ [];
            }
            else s)
          on
      ∙ ap
          (λ (b : Bool).
            if not b
            then record s {
              client = next (works true o.0) s.client;
              world = o.1;
              sent = s.sent ++ heartbeat_query ∷ [];
            }
            else s)
          go
      ∙ ap (λ c. record s { client = c; world = o.1; sent = s.sent ++ heartbeat_query ∷ [] })
          (quiet o.0 s.client (at, go, on))

module _ {Table : Type 0} where
  answer-enabled :
      (item : QueryRequest) (result : Expected Table SqlError) (c : PostgresClient Table)
      → (answer item result c).heartbeat_enabled ≡ c.heartbeat_enabled
  unfolding answer call post_callback
  answer-enabled item result c =
      if_elim (λ (d : PostgresClient Table). d.heartbeat_enabled ≡ c.heartbeat_enabled)
        item.direct_callback (λ _. refl)
        λ _.
          if_elim (λ (d : PostgresClient Table). d.heartbeat_enabled ≡ c.heartbeat_enabled)
            (c.idle_cb_workers == 0) (λ _. refl) (λ _. refl)

module _ {W Table : Type 0} (api : LibpqApi W Table) (fuel : ℕ) where
  -- What `ExecuteWithRetry` does, from a client and a world to those behind it: heartbeats, as many as
  -- the first number says, whose results are dropped, then the first request, which is answered with
  -- its result, and so on; `ys` are left.
  pub data Served (ys : List QueryRequest)
      : List ℕ
        → List QueryRequest
        → PostgresClient Table
        → W
        → PostgresClient Table
        → W
        → Type 0 where
    done : {c : PostgresClient Table} {w : W} → c.requests ≡ ys → Served ys [] [] c w c w
    beat :
        {k : ℕ} {ks : List ℕ} {xs : List QueryRequest} {c d : PostgresClient Table} {w w' : W}
        (result : Expected Table SqlError) (w₁ : W)
        → execute_with_retry api fuel ping_detail 5000 w ≡ some (result, w₁)
        → Served ys (k ∷ ks) xs c w₁ d w'
        → Served ys (suc k ∷ ks) xs c w d w'
    request :
        {ks : List ℕ} {item : QueryRequest} {xs : List QueryRequest} {c d : PostgresClient Table}
        {w w' : W} (result : Expected Table SqlError) (w₁ : W)
        → c.requests ≡ (item ∷ xs) ++ ys
        → execute_with_retry api fuel item.detail 5000 w ≡ some (result, w₁)
        → Served ys ks xs
            (answer item result (record c { worker = at_head; requests = xs ++ ys }))
            w₁
            d
            w'
        → Served ys (zero ∷ ks) (item ∷ xs) c w d w'

  -- A number of heartbeats.
  data Beaten : ℕ → W → W → Type 0 where
    none_due : {w : W} → Beaten zero w w
    one_due :
        {k : ℕ} {w w' : W} (result : Expected Table SqlError) (w₁ : W)
        → execute_with_retry api fuel ping_detail 5000 w ≡ some (result, w₁)
        → Beaten k w₁ w'
        → Beaten (suc k) w w'

  Served-behind :
      {ys xs : List QueryRequest} {ks : List ℕ} {c d : PostgresClient Table} (k : ℕ) {w w₁ w' : W}
      → Beaten k w w₁
      → Served ys (zero ∷ ks) xs c w₁ d w'
      → Served ys (k ∷ ks) xs c w d w'
  Served-behind zero none_due h = h
  Served-behind (suc k) (one_due result w₁ e b) h = beat result w₁ e (Served-behind k b h)

module _ {W Table : Type 0} (api : LibpqApi W Table) (p : Progress api) where
  heartbeats-Settled :
      (k : ℕ) (s : Session W Table)
      → Beats s.client
      → (n : ℕ) × (w : W) × ((m : ℕ)
          → n ≤ m
          → (heartbeats api m k s
              ≡ record s { world = w; sent = s.sent ++ replicate k heartbeat_query })
            × Beaten api m k s.world w)
  unfolding heartbeats
  heartbeats-Settled zero s h =
      (0, s.world, λ m l. (ap (λ t. record s { sent = t }) (sym (append-nil s.sent)), none_due))
  heartbeats-Settled (suc k) s h =
      let (n, r, w, q) = query-Settled api p ping_detail s.world in
      let (n', w', more) = heartbeats-Settled k (beaten api 0 s w) h in
      (
        n + n',
        w',
        λ m l.
            let (run, returns, _) = q m (omega arith) in
            let (onward, b) = more m (omega arith) in
            (
              ap (heartbeats api m k)
                    (heartbeat_at-beaten api m s h ∙ ap (λ o. beaten api 0 s o.1) returns)
                  ∙ onward
                  ∙ ap (λ t. record s { world = w'; sent = t })
                      (append_assoc s.sent (heartbeat_query ∷ []) (replicate k heartbeat_query)),
              one_due r w run b,
            ),
      )

  -- Requests are served between heartbeats: with progress of socket, server and clock, and with the
  -- worker at the head of its loop, heartbeats enabled and no stop, there is fuel with which the
  -- worker, before each of the next requests, makes any number of heartbeats; with more fuel it ends
  -- in the same state. It has then called `ExecuteWithRetry` for the heartbeats and the requests in this
  -- order, each in the world that the one before left; each request was answered with the result for
  -- it, the later requests are left, and the worker is at the head of its loop again.
  pub serve_between-Served :
      (ks : List ℕ) (xs ys : List QueryRequest) (s : Session W Table)
      → length ks ≡ length xs
      → Beats s.client
      → s.client.requests ≡ xs ++ ys
      → (n : ℕ) × (t : Session W Table) × ((m : ℕ)
          → n ≤ m
          → (serve_between api m ks s ≡ t)
            × Served api m ys ks xs s.client s.world t.client t.world)
        × Beats t.client
        × (t.client.requests ≡ ys)
  unfolding serve_between
  serve_between-Served [] [] ys s e h q = (0, s, λ m l. (refl, done q), h, q)
  serve_between-Served [] (x ∷ xs) ys s e h q = absurd (omega arith)
  serve_between-Served (k ∷ ks) [] ys s e h q = absurd (omega arith)
  serve_between-Served (k ∷ ks) (x ∷ xs) ys s e h q =
      let (n₁, w₁, beats) = heartbeats-Settled k s h in
      let s₁ = record s { world = w₁; sent = s.sent ++ replicate k heartbeat_query } in
      let (n₂, r, w₂, query) = query-Settled api p x.detail w₁ in
      let s₂ = with_answer (r, w₂) x (xs ++ ys) s₁ in
      let c = record s.client { worker = at_head; requests = xs ++ ys } in
      let ((at, left), go) = answer-AnswerKeeps x r c in
      let (n₃, t, more, b, none_before) =
        serve_between-Served ks xs ys s₂ (omega arith) (at, go ∙ h.1, answer-enabled x r c ∙ h.2)
          left in
      (
        n₁ + n₂ + n₃,
        t,
        λ m l.
            let (beaten_to, bs) = beats m (omega arith) in
            let (run, returns, _) = query m (omega arith) in
            let (onward, rest) = more m (omega arith) in
            (
              ap (λ u. serve_between api m ks (serve_request api m u)) beaten_to
                  ∙ ap (serve_between api m ks) (
                      serve_request-served api m x (xs ++ ys) s₁ (h.0, h.1) q
                      ∙ served-with_answer api p m x (xs ++ ys) s₁
                      ∙ ap (λ o. with_answer o x (xs ++ ys) s₁) returns)
                  ∙ onward,
              Served-behind api m k bs (request r w₂ q run rest),
            ),
        b,
        none_before,
      )
