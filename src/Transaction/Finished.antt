-- ===== src/Transaction/Finished.antt =====
-- A finished transaction, and one that was moved from.
use postgres_cpp_lib.Base.{◌≡◌, refl, arith, true, false, none, some}
use postgres_cpp_lib.Base.Texts.{unexpected}
use postgres_cpp_lib.Param.{PgParamDetail}
use postgres_cpp_lib.SqlError.{transaction_rolled_back}
use postgres_cpp_lib.Transaction.{
  Executor, Transaction, is_active, move, refused, execute, execute_async, commit, rollback,
  destroy,
}

module _ {W : Type 0} {Table : Type 0} (x : Executor W Table) where
  -- After a commit or a rollback nothing reaches the executor: queries are refused as rolled back,
  -- and a further commit, rollback or the destructor does nothing.
  pub finished_is_final :
      (t : Transaction) (detail : PgParamDetail) (w : W)
      → is_active t.state ≡ false
      → ((execute x t detail w ≡ some (unexpected transaction_rolled_back, w))
          × (execute_async x t detail w ≡ some (refused transaction_rolled_back, w)))
        × ((commit x t w ≡ some (t, w)) × (rollback x t w ≡ some (t, w)) × (destroy x t w ≡ w))
  unfolding execute execute_async commit rollback destroy
  finished_is_final t detail w h = ((rw h refl, rw h refl), (rw h refl, rw h refl, rw h refl))

  -- Moving an active transaction gives the same transaction, and destroying the one moved from
  -- sends nothing; but a query, a commit or a rollback on the one moved from is a null dereference.
  pub move_lem :
      (t : Transaction) (detail : PgParamDetail) (w : W)
      → is_active t.state ≡ true
      → ((move t).0 ≡ t)
        × (destroy x (move t).1 w ≡ w)
        × (execute x (move t).1 detail w ≡ none)
        × (execute_async x (move t).1 detail w ≡ none)
        × (commit x (move t).1 w ≡ none)
        × (rollback x (move t).1 w ≡ none)
  unfolding move execute execute_async commit rollback destroy
  move_lem t detail w h = (refl, ground arith, rw h refl, rw h refl, rw h refl, rw h refl)
