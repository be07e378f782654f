-- ===== src/Session/Logged.antt =====
-- The session as the executor of transactions and migrations.
use postgres_cpp_lib.Base.{
  ℕ, ◌≡◌, refl, sym, ap, ◌∙◌, false, Option, none, some, List, [], ◌∷◌, ◌++◌, append_assoc,
  append-nil, map,
}
use mathlib.Core.List.{map-append}
use postgres_cpp_lib.Base.Texts.{Text}
use postgres_cpp_lib.Param.{PgParamDetail}
use postgres_cpp_lib.Connection.Libpq.{LibpqApi}
use postgres_cpp_lib.Client.{QueryRequest, answer, call, enqueue_async}
use postgres_cpp_lib.Transaction.{
  Executor, transaction, execute, execute_async, commit, rollback, destroy,
}
use postgres_cpp_lib.Transaction.State.{TransactionState}
use postgres_cpp_lib.Transaction.Script.{
  Op, Logs, executes, executes_async, commits, rolls_back, script, live, live-script, live-finished,
}
use postgres_cpp_lib.Session.{Session, submit_async, send_and_wait}
use postgres_cpp_lib.Session.Served.{Rests, served}
use postgres_cpp_lib.Session.Waited.{before-Behind, send_and_wait-outcome}

-- A session whose worker waits for requests.
pub record Resting (W Table : Type 0) : Type 0 where
  pub session : Session W Table
  pub rests : Rests session

module _ {W Table : Type 0} where
  -- What was sent, and what is queued behind it.
  abbrev log_of : Session W Table → List Text
  log_of s = s.sent ++ map (λ q. q.detail.query) s.client.requests

  abbrev pub log : Resting W Table → List Text
  log r = log_of r.session

module _ {W Table : Type 0} (api : LibpqApi W Table) (fuel : ℕ) where
  stays_resting :
      (detail : PgParamDetail) (s : Session W Table)
      → Rests s
      → Rests (send_and_wait api fuel detail s).1
  unfolding served answer call
  stays_resting detail s h =
      let ((_, go), _, _) = before-Behind api fuel detail s h in
      rw (send_and_wait-outcome api fuel detail s h) (refl, go)

  unfoldable pub session_executor : Executor (Resting W Table) Table
  unfolding send_and_wait submit_async stays_resting enqueue_async
  session_executor = record {
    send_to_worker = λ detail r. (
      (send_and_wait api fuel detail r.session).0,
      record {
        session = (send_and_wait api fuel detail r.session).1;
        rests = stays_resting detail r.session r.rests;
      },
    );
    enqueue_async = λ detail r. record { session = submit_async detail r.session; rests = r.rests };
  }

  served_requests :
      (detail : PgParamDetail) (s : Session W Table)
      → Rests s
      → (send_and_wait api fuel detail s).1.client.requests ≡ []
  unfolding served answer call
  served_requests detail s h =
      ap (λ o. o.1.client.requests) (send_and_wait-outcome api fuel detail s h)

  log-send_and_wait :
      (detail : PgParamDetail) (s : Session W Table)
      → Rests s
      → log_of (send_and_wait api fuel detail s).1 ≡ log_of s ++ detail.query ∷ []
  unfolding served answer call
  log-send_and_wait detail s h =
      let (_, _, k) = before-Behind api fuel detail s h in
      ap (λ o. log_of o.1) (send_and_wait-outcome api fuel detail s h)
      ∙ append-nil _
      ∙ ap (λ l. l ++ detail.query ∷ []) k

  log-submit_async :
      (detail : PgParamDetail) (s : Session W Table)
      → log_of (submit_async detail s) ≡ log_of s ++ detail.query ∷ []
  unfolding submit_async enqueue_async
  log-submit_async detail s =
      ap (λ l. s.sent ++ l)
        (map-append (λ (q : QueryRequest). q.detail.query) s.client.requests
          (record { id = s.next_id; detail = detail; direct_callback = false } ∷ []))
      ∙ sym (append_assoc s.sent (map (λ q. q.detail.query) s.client.requests) (detail.query ∷ []))

  session_executor-Logs : Logs session_executor log
  unfolding session_executor
  session_executor-Logs = record {
    sends = λ d r. log-send_and_wait d r.session r.rests;
    enqueues = λ d r. log-submit_async d r.session;
  }

  -- What is still queued when a transaction is over.
  abbrev waiting_behind : Option (Resting W Table) → List QueryRequest
  waiting_behind none = []
  waiting_behind (some r) = r.session.client.requests

  live-waiting :
      (ops : List Op) (r : Resting W Table)
      → waiting_behind (live session_executor ops (some (transaction, r))) ≡ []
  unfolding live execute execute_async commit rollback destroy transaction session_executor
  live-waiting [] r = served_requests _ r.session r.rests
  live-waiting (executes d ∷ ops) r = live-waiting ops (session_executor.send_to_worker d r).1
  live-waiting (executes_async d ∷ ops) r = live-waiting ops (session_executor.enqueue_async d r)
  live-waiting (commits ∷ ops) r =
      ap waiting_behind (
        live-finished session_executor log session_executor-Logs TransactionState.commit ops _ refl)
      ∙ served_requests _ r.session r.rests
  live-waiting (rolls_back ∷ ops) r =
      ap waiting_behind (
        live-finished session_executor log session_executor-Logs TransactionState.rollback ops _
          refl)
      ∙ served_requests _ r.session r.rests

  -- A transaction on a client: when it is over, the worker has handed to `ExecuteWithRetry` what was
  -- queued before, then the queries of the transaction in order, the asynchronous ones too, then the
  -- command that ended it; nothing is queued, and the worker is at the head of its loop.
  pub session-live :
      (ops : List Op) (r : Resting W Table)
      → (u : Resting W Table) × (live session_executor ops (some (transaction, r)) ≡ some u)
        × (u.session.sent ≡ log r ++ script ops)
        × (u.session.client.requests ≡ [])
  session-live ops r =
      let (u, e, h) = live-script session_executor log session_executor-Logs ops r in
      let none_left : u.session.client.requests ≡ [] =
        ap waiting_behind (sym e) ∙ live-waiting ops r in
      (
        u,
        e,
        sym (ap (λ l. u.session.sent ++ map (λ q. q.detail.query) l) none_left ∙ append-nil _) ∙ h,
        none_left,
      )
