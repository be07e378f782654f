-- ===== src/Transaction/State.antt =====
-- `transaction::state`.
pub data TransactionState : Type 0 where
  active commit rollback : TransactionState
