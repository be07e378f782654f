-- ===== src/Session/Waited.antt =====
-- What a caller of `SendToWorker` that waits for its future gets.
use postgres_cpp_lib.Base.{
  ℕ, suc, ◌≡◌, refl, ap, ◌∙◌, true, List, [], ◌∷◌, ◌++◌, length, length-append, arith,
}
use postgres_cpp_lib.Base.Texts.{Expected}
use postgres_cpp_lib.Param.{PgParamDetail}
use postgres_cpp_lib.SqlError.{SqlError}
use postgres_cpp_lib.Connection.Libpq.{LibpqApi}
use postgres_cpp_lib.Client.{QueryRequest, Task, answer, call, send_to_worker}
use postgres_cpp_lib.Session.{
  Session, run_query, serve_requests, submit, send_and_wait, last_result,
}
use postgres_cpp_lib.Session.Served.{
  Rests, Behind, served, serve_request-served, serve_requests-last, serve_requests-Behind,
}

abbrev pub direct : ℕ → PgParamDetail → QueryRequest
direct id detail = record { id = id; detail = detail; direct_callback = true }

module _ {Table : Type 0} where
  last_result-append :
      (ts : List (Task Table)) (t : Task Table) → last_result (ts ++ t ∷ []) ≡ t.result
  last_result-append [] t = refl
  last_result-append (u ∷ []) t = refl
  last_result-append (u ∷ v ∷ ts) t = last_result-append (v ∷ ts) t

module _ {W Table : Type 0} (api : LibpqApi W Table) (fuel : ℕ) where
  -- The session when what was queued before this request is served.
  abbrev pub before : PgParamDetail → Session W Table → Session W Table
  before detail s = serve_requests api fuel (length s.client.requests) (submit detail s)

  pub before-Behind :
      (detail : PgParamDetail) (s : Session W Table)
      → Rests s
      → Behind s.client.requests (direct s.next_id detail ∷ []) s (before detail s)
  unfolding submit send_to_worker
  before-Behind detail s h =
      serve_requests-Behind api fuel s.client.requests (direct s.next_id detail ∷ [])
        (submit detail s) h refl

  -- This request too.
  served_last :
      (detail : PgParamDetail) (s : Session W Table)
      → Rests s
      → serve_requests api fuel (length (submit detail s).client.requests) (submit detail s)
        ≡ served api fuel (direct s.next_id detail) [] (before detail s)
  unfolding submit send_to_worker
  served_last detail s h =
      let (r, q, _) = before-Behind detail s h in
      let n : length (s.client.requests ++ direct s.next_id detail ∷ [])
          ≡ suc (length s.client.requests) =
        omega (arith, length-append s.client.requests (direct s.next_id detail ∷ [])) in
      ap (λ n. serve_requests api fuel n (submit detail s)) n
      ∙ serve_requests-last api fuel (length s.client.requests) (submit detail s)
      ∙ serve_request-served api fuel (direct s.next_id detail) [] (before detail s) r q

  -- The future, and the session behind it.
  abbrev pub outcome : PgParamDetail → Session W Table → Expected Table SqlError × Session W Table
  outcome detail s =
      let t = before detail s in
      ((run_query api fuel detail t.world).0, served api fuel (direct s.next_id detail) [] t)

  pub send_and_wait-outcome :
      (detail : PgParamDetail) (s : Session W Table)
      → Rests s
      → send_and_wait api fuel detail s ≡ outcome detail s
  unfolding send_and_wait served answer call
  send_and_wait-outcome detail s h =
      let t = before detail s in
      let u : Session W Table = served api fuel (direct s.next_id detail) [] t in
      ap (λ (u : Session W Table). (last_result u.client.called, u)) (served_last detail s h)
      ∙ ap (λ a. (a, u))
          (last_result-append t.client.called
            (record { id = s.next_id; result = (run_query api fuel detail t.world).0 }))
