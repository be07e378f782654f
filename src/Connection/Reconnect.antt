-- ===== src/Connection/Reconnect.antt =====
-- The rounds of `AttemptReconnect`, and what its outcomes mean.
use postgres_cpp_lib.Base.{
  sym, subst, ◌*◌, ℕ, zero, suc, ◌+◌, ◌-◌, ◌<◌, ◌≡◌, refl, ◌⊎◌, inl, inr, arith, true, false, not,
  ◌||◌, leb, Option, none, some, if_elim,
}
use postgres_cpp_lib.Base.Texts.{Text}
use postgres_cpp_lib.SqlError.{SqlError, failed_to_reconnect}
use postgres_cpp_lib.Connection.Libpq.{LibpqApi}
use postgres_cpp_lib.Connection.Progress.{Progress}
use postgres_cpp_lib.Connection.Polling.{Returns, not-eq_false}
use postgres_cpp_lib.Connection.{
  is_negative, is_zero, is_polling_ok, is_polling_failed, events_of, reconnect_until,
  attempt_reconnect,
}

leb→lt : (a b : ℕ) → leb a b ≡ false → b < a
leb→lt a b h = ground arith

module _ {W : Type 0} {Res : Type 0} (api : LibpqApi W Res) where
  -- A reconnection that libpq reported as complete and that was made nonblocking, or an error of
  -- type ReconnectFailed.
  abbrev pub Reconnected : Option (Option SqlError × W) → Type 0
  Reconnected o =
      ((w₀ : W) × (o ≡ some (none, (api.pq_set_nonblocking (api.pq_reset_poll w₀).1).1))
        × (is_polling_ok (api.pq_reset_poll w₀).0 ≡ true)
        × (is_zero (api.pq_set_nonblocking (api.pq_reset_poll w₀).1).0 ≡ true))
      ⊎ ((msg : Text) × (w' : W) × (o ≡ some (some (failed_to_reconnect msg), w')))

  pub Reconnected-Returns : {o : Option (Option SqlError × W)} → Reconnected o → Returns o
  Reconnected-Returns (inl (w₀, e, _, _)) = (_, e)
  Reconnected-Returns (inr (msg, w', e)) = (_, e)

  module _ (p : Progress api) where
    reconnect_until-Reconnected :
        (fuel deadline : ℕ) (w : W)
        → p.readings_before deadline w < fuel
        → Reconnected (reconnect_until api fuel deadline w)
    unfolding reconnect_until
    reconnect_until-Reconnected zero deadline w h = absurd (omega arith)
    reconnect_until-Reconnected (suc fuel) deadline w h =
        let time = (api.now w).0 in
        let w₁ = (api.now w).1 in
        let st = (api.pq_reset_poll w₁).0 in
        let w₂ = (api.pq_reset_poll w₁).1 in
        let set = (api.pq_set_nonblocking w₂).0 in
        let w₃ = (api.pq_set_nonblocking w₂).1 in
        let socket = api.pq_socket w₂ in
        let answer = (api.poll socket (events_of st) (deadline - time) w₂).0 in
        let w₄ = (api.poll socket (events_of st) (deadline - time) w₂).1 in
        if_elim Reconnected (leb deadline time) (λ _. inr (_, w₁, refl))
          λ early.
            if_elim Reconnected (is_polling_ok st)
              (λ ok.
                if_elim Reconnected (not (is_zero set)) (λ _. inr (_, w₃, refl))
                  (λ z. inl (w₁, refl, ok, not-eq_false (is_zero set) z)))
              λ _.
                if_elim Reconnected (is_polling_failed st) (λ _. inr (_, w₂, refl))
                  λ _.
                    if_elim Reconnected (is_negative socket) (λ _. inr (_, w₂, refl))
                      λ _.
                        if_elim Reconnected (is_negative answer.result || is_zero answer.result)
                          (λ _. inr (_, w₄, refl))
                          λ _.
                            if_elim Reconnected answer.has_error (λ _. inr (_, w₄, refl))
                              λ _. reconnect_until-Reconnected fuel deadline w₄ (
                                omega (
                                  arith,
                                  p.now_falls deadline w (
                                      subst (λ t. t < deadline) (p.now_reads w)
                                        (leb→lt deadline time early)),
                                  p.reset_poll_keeps deadline w₁,
                                  p.poll_keeps deadline socket (events_of st) (deadline - time) w₂,
                                ))

    -- `AttemptReconnect` ends in as many rounds as the clock can be read up to the timeout, and one.
    -- Success means that libpq reported the connection complete and that it is nonblocking; every
    -- error is of type ReconnectFailed.
    pub attempt_reconnect-Reconnected :
        (fuel timeout : ℕ) (w : W)
        → p.rate * timeout < fuel
        → Reconnected (attempt_reconnect api fuel timeout w)
    unfolding attempt_reconnect
    attempt_reconnect-Reconnected fuel timeout w h =
        let w₁ = (api.pq_reset_start w).1 in
        if_elim Reconnected (not (api.pq_reset_start w).0) (λ _. inr (_, w₁, refl))
          λ _. reconnect_until-Reconnected fuel ((api.now w₁).0 + timeout) (api.now w₁).1 (
            subst (λ t. p.readings_before (t + timeout) (api.now w₁).1 < fuel)
              (sym (p.now_reads w₁))
              (omega (arith, p.readings_bound timeout w₁, p.now_keeps (p.clock w₁ + timeout) w₁)))
