-- ===== src/Connection/Settled.antt =====
-- The fuel of `ExecuteWithRetry`.
use postgres_cpp_lib.Base.{
  ℕ, zero, suc, ◌+◌, ◌*◌, ◌-◌, ◌≤◌, ◌≡◌, refl, ap, ◌∙◌, subst, arith, Bool, true, false, not,
  Option, none, some, length, if◌then◌else◌,
}
use postgres_cpp_lib.Base.Int.{ℤ}
use postgres_cpp_lib.Base.Texts.{Expected, value, unexpected}
use postgres_cpp_lib.Param.{PgParamDetail}
use postgres_cpp_lib.SqlError.{SqlError}
use postgres_cpp_lib.Connection.Libpq.{LibpqApi}
use postgres_cpp_lib.Connection.Progress.{Progress}
use postgres_cpp_lib.Connection.Polling.{
  Returns, Flushed-Returns, Readable-Returns, check_for_poll_out-Flushed,
  check_for_poll_in-Readable,
}
use postgres_cpp_lib.Connection.Consume.{consume_result_lem}
use postgres_cpp_lib.Connection.Reconnect.{Reconnected-Returns, attempt_reconnect-Reconnected}
use postgres_cpp_lib.Connection.Stable.{
  Refines, in_else, check_for_poll_out-Refines, check_for_poll_in-Refines, consume_from-Refines,
  reconnect_until-Refines,
}
use postgres_cpp_lib.Connection.Ways.{Got, execute_with_retry-Way}
use postgres_cpp_lib.Connection.Attempts.{Ended}
use postgres_cpp_lib.Connection.{
  is_negative, Outcome, is_connected, check_for_poll_out, check_for_poll_in, consume_result,
  attempt_reconnect, and_then, ensure_connected, execute_query, execute_with_retry,
}

-- With this fuel or more, this is the result.
abbrev pub Settles {ℓ} : {A : Type ℓ} → (ℕ → Option A) → Type ℓ
Settles {A} f = Got (λ n m. n ≤ m) (λ n k m l. (omega (arith, l), omega (arith, l))) f

Settles-of {ℓ} :
    {A : Type ℓ} (f : ℕ → Option A) (n : ℕ)
    → ((k : ℕ) → Refines (f k) (f (suc k)))
    → Returns (f n)
    → Settles f
Settles-of {A} f n h (a, e) =
    (n, a, λ m l. subst (λ k. f k ≡ some a) (omega (arith, l)) (more (m - n)))
  where
    more : (k : ℕ) → f (n + k) ≡ some a
    more zero = subst (λ m. f m ≡ some a) (omega arith) e
    more (suc k) = subst (λ m. f m ≡ some a) (omega arith) (h (n + k) a (more k))

at_once {ℓ} : {A : Type ℓ} (a : A) → Settles (λ m. some a)
at_once a = (0, a, λ m l. refl)

if_Settles {ℓ} :
    {A : Type ℓ} (b : Bool) (f g : ℕ → Option A)
    → Settles f
    → Settles g
    → Settles (λ m. if b then f m else g m)
if_Settles true f g h k = h
if_Settles false f g h k = k

module _ {W : Type 0} {Res : Type 0} (api : LibpqApi W Res) where
  and_then-Settles :
      {A B : Type 0} (f : ℕ → Outcome W A) (g : ℕ → W → Outcome W B)
      → Settles f
      → ((w : W) → Settles (λ m. g m w))
      → Settles (λ m. and_then api (f m) (g m))
  and_then-Settles f g (n, (value a, w), h) k =
      let (n', b, h') = k w in
      (
        n + n',
        b,
        λ m l. ap (λ o. and_then api o (g m)) (h m (omega (arith, l))) ∙ h' m (omega (arith, l)),
      )
  and_then-Settles f g (n, (unexpected e, w), h) k =
      (n, (unexpected e, w), λ m l. ap (λ o. and_then api o (g m)) (h m l))

  module _ (p : Progress api) where
    poll_out-Settles : (socket : ℤ) (w : W) → Settles (λ m. check_for_poll_out api m socket w)
    poll_out-Settles socket w =
        Settles-of (λ m. check_for_poll_out api m socket w) (suc (p.unsent w))
          (λ k. check_for_poll_out-Refines api k socket w)
          (Flushed-Returns api
            (check_for_poll_out-Flushed api p (suc (p.unsent w)) socket w (omega arith)))

    poll_in-Settles : (socket : ℤ) (w : W) → Settles (λ m. check_for_poll_in api m socket w)
    poll_in-Settles socket w =
        Settles-of (λ m. check_for_poll_in api m socket w) (suc (p.unread w))
          (λ k. check_for_poll_in-Refines api k socket w)
          (Readable-Returns api
            (check_for_poll_in-Readable api p (suc (p.unread w)) socket w (omega arith)))

    consume_result-Settles : (w : W) → Settles (λ m. consume_result api m w)
    unfolding consume_result
    consume_result-Settles w =
        let (w', e, _) = consume_result_lem api p (suc (length (p.results w))) w (omega arith) in
        Settles-of (λ m. consume_result api m w) (suc (length (p.results w)))
          (λ k. consume_from-Refines api k none w) (_, e)

    execute_query-Settles :
        (detail : PgParamDetail) (w : W) → Settles (λ m. execute_query api m detail w)
    unfolding execute_query
    execute_query-Settles detail w =
        let socket = api.pq_socket w in
        let (sent, w₁) = api.pq_send_query_params detail w in
        if_Settles (is_negative socket) _ _ (at_once _) (
          if_Settles (not sent) _ _ (at_once _) (
            and_then-Settles (λ m. check_for_poll_out api m socket w₁) _
              (poll_out-Settles socket w₁)
              λ w₂.
                and_then-Settles (λ m. check_for_poll_in api m socket w₂) _
                  (poll_in-Settles socket w₂) consume_result-Settles))

    reconnect-Settles : (timeout : ℕ) (w : W) → Settles (λ m. attempt_reconnect api m timeout w)
    unfolding attempt_reconnect
    reconnect-Settles timeout w =
        Settles-of (λ m. attempt_reconnect api m timeout w) (suc (p.rate * timeout))
          (λ k. in_else (not (api.pq_reset_start w).0) _ _ _ (reconnect_until-Refines api k _ _))
          (Reconnected-Returns api
            (attempt_reconnect-Reconnected api p (suc (p.rate * timeout)) timeout w (omega arith)))

    ensure-Settles : (timeout : ℕ) (w : W) → Settles (λ m. ensure_connected api m timeout w)
    unfolding ensure_connected
    ensure-Settles timeout w =
        if_Settles (not (is_connected api w)) _ _ (reconnect-Settles timeout w) (at_once _)

    -- Given progress, `ExecuteWithRetry` returns from any world: there is fuel with which it ends, and with more it
    -- ends in the same way, which is one of these: there was no connection and none could be made;
    -- `ExecuteQuery` was called once, and returned a result or an error of another type than
    -- BadConnection; or it returned BadConnection, and then either the connection could not be reset,
    -- or it was reset and was gone at the next check and could not be made again, or `ExecuteQuery` was
    -- called once more, and what it returned then is returned.
    pub execute_with_retry-Settled :
        (detail : PgParamDetail) (timeout : ℕ) (w : W)
        → (n : ℕ) × (r : Expected Res SqlError) × (w' : W) × ((m : ℕ)
            → n ≤ m
            → (execute_with_retry api m detail timeout w ≡ some (r, w'))
              × Ended api m detail timeout w r w')
    execute_with_retry-Settled detail timeout w =
        execute_with_retry-Way (λ n m. n ≤ m) (λ n k m l. (omega (arith, l), omega (arith, l))) api
          detail timeout (ensure-Settles timeout) (execute_query-Settles detail)
          (reconnect-Settles timeout) w
