-- ===== src/Connection/Polling.antt =====
-- The rounds of `CheckForPollOut` and `CheckForPollIn`, and what their outcomes mean.
use postgres_cpp_lib.Base.{
  ℕ, zero, suc, ◌<◌, ◌≡◌, refl, ◌⊎◌, inl, inr, arith, Bool, true, false, Option, some, if_elim, not,
}
use postgres_cpp_lib.Base.Int.{ℤ}
use postgres_cpp_lib.Base.Texts.{Text, value, unexpected}
use postgres_cpp_lib.SqlError.{socket_failed, bad_connection}
use postgres_cpp_lib.Connection.Libpq.{LibpqApi, poll_in, poll_out}
use postgres_cpp_lib.Connection.Progress.{Progress}
use postgres_cpp_lib.Connection.{
  is_negative, is_zero, Outcome, check_for_poll_out, check_for_poll_in,
}

pub not-eq_false : (b : Bool) → not b ≡ false → b ≡ true
not-eq_false true h = refl
not-eq_false false h = cc

abbrev pub Returns {ℓ} : {A : Type ℓ} → Option A → Type ℓ
Returns {A} o = (a : A) × (o ≡ some a)

module _ {W : Type 0} {Res : Type 0} (api : LibpqApi W Res) where
  -- Success right after `PQflush` returned 0, or a socket error.
  abbrev pub Flushed : Outcome W (Unit {0}) → Type 0
  Flushed o =
      ((w₀ : W) × (o ≡ some (value tt, (api.pq_flush w₀).1)) × (is_zero (api.pq_flush w₀).0 ≡ true))
      ⊎ ((msg : Text) × (w' : W) × (o ≡ some (unexpected (socket_failed msg), w')))

  -- Success with a result that can be fetched, or a socket error, or libpq's message that the
  -- connection is bad.
  abbrev pub Readable : Outcome W (Unit {0}) → Type 0
  Readable o =
      ((w' : W) × (o ≡ some (value tt, w')) × (api.pq_is_busy w' ≡ false))
      ⊎ ((msg : Text) × (w' : W) × (o ≡ some (unexpected (socket_failed msg), w')))
      ⊎ ((w' : W) × (o ≡ some (unexpected (bad_connection (api.pq_error_message w')), w')))

  pub Flushed-Returns : {o : Outcome W (Unit {0})} → Flushed o → Returns o
  Flushed-Returns (inl (w₀, e, _)) = (_, e)
  Flushed-Returns (inr (msg, w', e)) = (_, e)

  pub Readable-Returns : {o : Outcome W (Unit {0})} → Readable o → Returns o
  Readable-Returns (inl (w', e, _)) = (_, e)
  Readable-Returns (inr (inl (msg, w', e))) = (_, e)
  Readable-Returns (inr (inr (w', e))) = (_, e)

  module _ (p : Progress api) where
    -- `CheckForPollOut` ends once the output is sent, and reports success only right after `PQflush`
    -- returned 0; any other outcome is a SocketFailed error.
    pub check_for_poll_out-Flushed :
        (fuel : ℕ) (socket : ℤ) (w : W)
        → p.unsent w < fuel
        → Flushed (check_for_poll_out api fuel socket w)
    unfolding check_for_poll_out
    check_for_poll_out-Flushed zero socket w h = absurd (omega arith)
    check_for_poll_out-Flushed (suc fuel) socket w h =
        let flushed = (api.pq_flush w).0 in
        let w₁ = (api.pq_flush w).1 in
        let answer = (api.poll socket poll_out 5000 w₁).0 in
        let w₂ = (api.poll socket poll_out 5000 w₁).1 in
        if_elim Flushed (is_negative flushed) (λ _. inr (_, w₁, refl))
          λ n₁.
            if_elim Flushed (is_zero flushed) (λ z. inl (w, refl, z))
              λ n₂.
                if_elim Flushed (is_negative answer.result) (λ _. inr (_, w₂, refl))
                  λ n₃.
                    if_elim Flushed (is_zero answer.result) (λ _. inr (_, w₂, refl))
                      λ n₄.
                        if_elim Flushed answer.has_error (λ _. inr (_, w₂, refl))
                          λ _.
                            check_for_poll_out-Flushed fuel socket w₂
                              (omega (arith, p.flush_falls socket w n₁ n₂ n₃ n₄))

    -- `CheckForPollIn` ends once the answer is read, and reports success only when a result can be
    -- fetched without blocking; any other outcome is a SocketFailed error, or BadConnection with
    -- libpq's message.
    pub check_for_poll_in-Readable :
        (fuel : ℕ) (socket : ℤ) (w : W)
        → p.unread w < fuel
        → Readable (check_for_poll_in api fuel socket w)
    unfolding check_for_poll_in
    check_for_poll_in-Readable zero socket w h = absurd (omega arith)
    check_for_poll_in-Readable (suc fuel) socket w h =
        let answer = (api.poll socket poll_in 5000 w).0 in
        let w₁ = (api.poll socket poll_in 5000 w).1 in
        let consumed = (api.pq_consume_input w₁).0 in
        let w₂ = (api.pq_consume_input w₁).1 in
        if_elim Readable (is_negative answer.result) (λ _. inr (inl (_, w₁, refl)))
          λ n₁.
            if_elim Readable (is_zero answer.result) (λ _. inr (inl (_, w₁, refl)))
              λ n₂.
                if_elim Readable (not consumed) (λ _. inr (inr (w₂, refl)))
                  λ n₃.
                    if_elim Readable (api.pq_is_busy w₂)
                      (λ _.
                        check_for_poll_in-Readable fuel socket w₂
                          (omega (arith, p.read_falls socket w n₁ n₂ (not-eq_false consumed n₃))))
                      (λ idle. inl (w₂, refl, idle))
