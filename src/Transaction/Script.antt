-- ===== src/Transaction/Script.antt =====
-- What reaches the executor over the life of a transaction.
use mathlib.Core.Option
use postgres_cpp_lib.Base.{
  ◌≡◌, refl, sym, ap, ◌∙◌, true, false, Option, none, some, List, [], ◌∷◌, ◌++◌, append_assoc,
}
use postgres_cpp_lib.Base.Texts.{Text, codes, Expected, value, unexpected}
use postgres_cpp_lib.Param.{PgParamDetail, pg_param_detail}
use postgres_cpp_lib.SqlError.{SqlError}
use postgres_cpp_lib.Transaction.State.{TransactionState}
use postgres_cpp_lib.Transaction.{
  Executor, Transaction, is_active, transaction, execute, execute_async, commit, rollback, destroy,
  create_transaction, after_begin,
}

pub data Op : Type 0 where
  executes executes_async : PgParamDetail → Op
  commits rolls_back : Op

-- The log of an executor: each command that it is given is written behind the earlier ones.
pub record Logs {W : Type 0} {Table : Type 0} (x : Executor W Table) (log : W → List Text)
    : Type 0 where
  pub sends : (d : PgParamDetail) (w : W) → log (x.send_to_worker d w).1 ≡ log w ++ d.query ∷ []
  pub enqueues : (d : PgParamDetail) (w : W) → log (x.enqueue_async d w) ≡ log w ++ d.query ∷ []

-- The commands of a whole life: the queries up to the first commit or rollback, and that one, or a
-- rollback where there is none.
unfoldable pub script : List Op → List Text
script [] = codes "ROLLBACK" ∷ []
script (executes d ∷ ops) = d.query ∷ script ops
script (executes_async d ∷ ops) = d.query ∷ script ops
script (commits ∷ ops) = codes "COMMIT" ∷ []
script (rolls_back ∷ ops) = codes "ROLLBACK" ∷ []

-- What a caller of `create_transaction` gets, and what is sent, by the answer to BEGIN.
abbrev pub begun : {Table : Type 0} → Expected Table SqlError → Option Transaction
begun (value table) = some transaction
begun (unexpected err) = none

abbrev pub begin_script : {Table : Type 0} → Expected Table SqlError → List Text
begin_script (value table) = codes "BEGIN" ∷ []
begin_script (unexpected err) = codes "BEGIN" ∷ codes "ROLLBACK" ∷ []

module _ {W : Type 0} {Table : Type 0} (x : Executor W Table) where
  unfoldable pub run_op : Op → Transaction → W → Option (Transaction × W)
  run_op (executes d) t w = Option.map (λ r. (t, r.1)) (execute x t d w)
  run_op (executes_async d) t w = Option.map (λ r. (t, r.1)) (execute_async x t d w)
  run_op commits t w = commit x t w
  run_op rolls_back t w = rollback x t w

  -- The calls in turn, and the destructor; `none` is a fault.
  unfoldable pub live : List Op → Option (Transaction × W) → Option W
  unfolding run_op
  live ops none = none
  live [] (some (t, w)) = some (destroy x t w)
  live (op ∷ ops) (some (t, w)) = live ops (run_op op t w)

module _ {W : Type 0} {Table : Type 0} (x : Executor W Table) (log : W → List Text)
    (l : Logs x log) where
  run_op-finished :
      (op : Op) (s : TransactionState) (w : W)
      → is_active s ≡ false
      → run_op x op (record { has_executor = true; state = s }) w
        ≡ some (record { has_executor = true; state = s }, w)
  unfolding run_op execute execute_async commit rollback
  run_op-finished (executes d) s w h = rw h refl
  run_op-finished (executes_async d) s w h = rw h refl
  run_op-finished commits s w h = rw h refl
  run_op-finished rolls_back s w h = rw h refl

  pub live-finished :
      (s : TransactionState) (ops : List Op) (w : W)
      → is_active s ≡ false
      → live x ops (some (record { has_executor = true; state = s }, w)) ≡ some w
  unfolding live
  live-finished s [] w h = unfold destroy in rw h refl
  live-finished s (op ∷ ops) w h =
      ap (live x ops) (run_op-finished op s w h) ∙ live-finished s ops w h

  -- Over its life a transaction sends its queries in order up to the first commit or rollback, then
  -- that one command, or ROLLBACK from the destructor, and nothing more; no call faults.
  pub live-script :
      (ops : List Op) (w : W)
      → (w' : W) × (live x ops (some (transaction, w)) ≡ some w') × (log w' ≡ log w ++ script ops)
  unfolding live script execute execute_async commit rollback destroy transaction pg_param_detail
  live-script [] w = (_, refl, l.sends _ w)
  live-script (executes d ∷ ops) w =
      let (w', e, h) = live-script ops (x.send_to_worker d w).1 in
      (
        w',
        e,
        h
            ∙ ap (λ xs. xs ++ script ops) (l.sends d w)
            ∙ append_assoc (log w) (d.query ∷ []) (script ops),
      )
  live-script (executes_async d ∷ ops) w =
      let (w', e, h) = live-script ops (x.enqueue_async d w) in
      (
        w',
        e,
        h
            ∙ ap (λ xs. xs ++ script ops) (l.enqueues d w)
            ∙ append_assoc (log w) (d.query ∷ []) (script ops),
      )
  live-script (commits ∷ ops) w = (_, live-finished TransactionState.commit ops _ refl, l.sends _ w)
  live-script (rolls_back ∷ ops) w =
      (_, live-finished TransactionState.rollback ops _ refl, l.sends _ w)

  -- `create_transaction` sends BEGIN. If it succeeds the caller has an active transaction and
  -- nothing more is sent; if it fails the caller has none, and a ROLLBACK is sent behind it.
  pub create_transaction_lem :
      (r : Expected Table SqlError) (w w' : W)
      → x.send_to_worker (pg_param_detail (codes "BEGIN") 0) w ≡ (r, w')
      → (w'' : W) × (create_transaction x w ≡ some (begun r, w''))
        × (log w'' ≡ log w ++ begin_script r)
  unfolding create_transaction pg_param_detail
  create_transaction_lem (value table) w w' e =
      (w', ap (λ r. after_begin x transaction (some r)) e, sym (ap (λ r. log r.1) e) ∙ l.sends _ w)
  create_transaction_lem (unexpected err) w w' e = (
    (x.send_to_worker (pg_param_detail (codes "ROLLBACK") 0) w').1,
    ap (λ r. after_begin x transaction (some r)) e,
    l.sends _ w'
        ∙ ap (λ h. h ++ codes "ROLLBACK" ∷ []) (sym (ap (λ r. log r.1) e) ∙ l.sends _ w)
        ∙ append_assoc (log w) (codes "BEGIN" ∷ []) (codes "ROLLBACK" ∷ []),
  )
