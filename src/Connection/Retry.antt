-- ===== src/Connection/Retry.antt =====
-- The fuel of `ExecuteQuery` and `ExecuteWithRetry`, and how often `ExecuteQuery` is called.
use postgres_cpp_lib.Base.{
  Option, ap, ◌∙◌, ◌*◌, ℕ, ◌<◌, ◌≡◌, refl, not, none, some, length, if_elim,
}
use postgres_cpp_lib.Base.Texts.{Expected, value, unexpected}
use postgres_cpp_lib.Param.{PgParamDetail}
use postgres_cpp_lib.SqlError.{SqlError}
use postgres_cpp_lib.Connection.Ways.{execute_with_retry-Way}
use postgres_cpp_lib.Connection.Attempts.{Ended}
use postgres_cpp_lib.Connection.Libpq.{LibpqApi}
use postgres_cpp_lib.Connection.Progress.{Progress}
use postgres_cpp_lib.Connection.Polling.{
  Returns, Flushed-Returns, Readable-Returns, check_for_poll_out-Flushed,
  check_for_poll_in-Readable,
}
use postgres_cpp_lib.Connection.Consume.{consume_result_lem}
use postgres_cpp_lib.Connection.Reconnect.{Reconnected-Returns, attempt_reconnect-Reconnected}
use postgres_cpp_lib.Connection.{
  is_negative, Outcome, is_connected, check_for_poll_out, check_for_poll_in, attempt_reconnect,
  and_then, ensure_connected, execute_query, execute_with_retry,
}

module _ {W : Type 0} {Res : Type 0} (api : LibpqApi W Res) where
  -- The fuel is enough for what can be on its way at any time.
  pub record Enough (p : Progress api) (fuel : ℕ) : Type 0 where
    pub for_unsent : (w : W) → p.unsent w < fuel
    pub for_unread : (w : W) → p.unread w < fuel
    pub for_results : (w : W) → length (p.results w) < fuel

  module _ (p : Progress api) (fuel : ℕ) (enough : Enough p fuel) where
    and_then-Returns :
        {A B : Type 0} (o : Outcome W A) (k : W → Outcome W B)
        → Returns o
        → ((w : W) → Returns (k w))
        → Returns (and_then api o k)
    and_then-Returns none k (a, e) h = cc
    and_then-Returns (some (value a, w)) k r h = h w
    and_then-Returns (some (unexpected e, w)) k r h = ((unexpected e, w), refl)

    poll_out-Returns : (socket : _) (w : W) → Returns (check_for_poll_out api fuel socket w)
    poll_out-Returns socket w =
        Flushed-Returns api (check_for_poll_out-Flushed api p fuel socket w (enough.for_unsent w))

    poll_in-Returns : (socket : _) (w : W) → Returns (check_for_poll_in api fuel socket w)
    poll_in-Returns socket w =
        Readable-Returns api (check_for_poll_in-Readable api p fuel socket w (enough.for_unread w))

    -- `ExecuteQuery` returns.
    pub execute_query-Returns :
        (detail : PgParamDetail) (w : W) → Returns (execute_query api fuel detail w)
    unfolding execute_query
    execute_query-Returns detail w =
        if_elim Returns (is_negative (api.pq_socket w)) (λ _. (_, refl))
          λ _.
            if_elim Returns (not (api.pq_send_query_params detail w).0) (λ _. (_, refl))
              λ _. and_then-Returns _ _ (poll_out-Returns _ _) λ w₂.
                and_then-Returns _ _ (poll_in-Returns _ w₂) λ w₃.
                  let (w₄, e, _) = consume_result_lem api p fuel w₃ (enough.for_results w₃) in
                  (_, e)

  module _ (p : Progress api) (fuel : ℕ) (enough : Enough p fuel) (timeout : ℕ)
      (in_time : p.rate * timeout < fuel) (detail : PgParamDetail) where
    reconnect-Returns : (w : W) → Returns (attempt_reconnect api fuel timeout w)
    reconnect-Returns w =
        Reconnected-Returns api (attempt_reconnect-Reconnected api p fuel timeout w in_time)

    ensure-Returns : (w : W) → Returns (ensure_connected api fuel timeout w)
    unfolding ensure_connected
    ensure-Returns w =
        if_elim Returns (not (is_connected api w)) (λ _. reconnect-Returns w) (λ _. (_, refl))

    -- `ExecuteWithRetry` returns, in one of the ways of `Ended`. The error "unreachable" behind the loop is never reached.
    pub execute_with_retry-Ended :
        (w : W)
        → (r : Expected Res SqlError) × (w' : W) × (execute_with_retry api fuel detail timeout w
            ≡ some (r, w'))
          × Ended api fuel detail timeout w r w'
    execute_with_retry-Ended w =
        let (_, r, w', h) =
          execute_with_retry-Way (λ n m. m ≡ fuel) (λ n k m e. (e, e)) api detail timeout
            (λ v. with_fuel (λ m. ensure_connected api m timeout v) (ensure-Returns v))
            (λ v.
              with_fuel (λ m. execute_query api m detail v)
                (execute_query-Returns p fuel enough detail v))
            (λ v. with_fuel (λ m. attempt_reconnect api m timeout v) (reconnect-Returns v)) w in
        let (e, ended) = h fuel refl in (r, w', e, ended)
      where
        with_fuel :
            {A : Type 0} (f : ℕ → Option A)
            → Returns (f fuel)
            → (n : ℕ) × (a : A) × ((m : ℕ) → m ≡ fuel → f m ≡ some a)
        with_fuel f (a, e) = (0, a, λ m h. ap f h ∙ e)
