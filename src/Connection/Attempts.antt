-- ===== src/Connection/Attempts.antt =====
-- The ways in which `ExecuteWithRetry` can end, and its attempts one by one.
use postgres_cpp_lib.Base.{ℕ, suc, ◌≡◌, refl, ap, ◌∙◌, arith, true, false, Option, none, some, ◌==◌}
use postgres_cpp_lib.Base.Texts.{Expected, value, unexpected}
use postgres_cpp_lib.Param.{PgParamDetail}
use postgres_cpp_lib.SqlError.{SqlError}
use postgres_cpp_lib.Connection.Libpq.{LibpqApi}
use postgres_cpp_lib.Connection.{
  is_bad_connection, Outcome, attempt_reconnect, or_reconnect, retry_on, ensure_connected,
  execute_query, attempts_left, execute_with_retry,
}

module _ {W : Type 0} {Res : Type 0} (api : LibpqApi W Res) where
  -- The ways in which a query can end: `ExecuteQuery` is called once, or, if it returned BadConnection
  -- and the connection could be reset, twice.
  pub data Ended (fuel : ℕ) (detail : PgParamDetail) (timeout : ℕ) (w : W)
      : Expected Res SqlError → W → Type 0 where
    no_connection :
        (e : SqlError) (w₁ : W)
        → ensure_connected api fuel timeout w ≡ some (some e, w₁)
        → Ended fuel detail timeout w (unexpected e) w₁
    answered :
        (r : Res) (w₁ w₂ : W)
        → ensure_connected api fuel timeout w ≡ some (none, w₁)
        → execute_query api fuel detail w₁ ≡ some (value r, w₂)
        → Ended fuel detail timeout w (value r) w₂
    failed :
        (e : SqlError) (w₁ w₂ : W)
        → ensure_connected api fuel timeout w ≡ some (none, w₁)
        → execute_query api fuel detail w₁ ≡ some (unexpected e, w₂)
        → is_bad_connection e.err ≡ false
        → Ended fuel detail timeout w (unexpected e) w₂
    lost :
        (e e' : SqlError) (w₁ w₂ w₃ : W)
        → ensure_connected api fuel timeout w ≡ some (none, w₁)
        → execute_query api fuel detail w₁ ≡ some (unexpected e, w₂)
        → is_bad_connection e.err ≡ true
        → attempt_reconnect api fuel timeout w₂ ≡ some (some e', w₃)
        → Ended fuel detail timeout w (unexpected e') w₃
    lost_again :
        (e e' : SqlError) (w₁ w₂ w₃ w₄ : W)
        → ensure_connected api fuel timeout w ≡ some (none, w₁)
        → execute_query api fuel detail w₁ ≡ some (unexpected e, w₂)
        → is_bad_connection e.err ≡ true
        → attempt_reconnect api fuel timeout w₂ ≡ some (none, w₃)
        → ensure_connected api fuel timeout w₃ ≡ some (some e', w₄)
        → Ended fuel detail timeout w (unexpected e') w₄
    retried :
        (e : SqlError) (r : Expected Res SqlError) (w₁ w₂ w₃ w₄ w₅ : W)
        → ensure_connected api fuel timeout w ≡ some (none, w₁)
        → execute_query api fuel detail w₁ ≡ some (unexpected e, w₂)
        → is_bad_connection e.err ≡ true
        → attempt_reconnect api fuel timeout w₂ ≡ some (none, w₃)
        → ensure_connected api fuel timeout w₃ ≡ some (none, w₄)
        → execute_query api fuel detail w₄ ≡ some (r, w₅)
        → Ended fuel detail timeout w r w₅

  module _ (fuel timeout : ℕ) (detail : PgParamDetail) where
    -- One attempt, once its parts are known.
    attempt_refused :
        (n : ℕ) (w w₁ : W) (e : SqlError)
        → ensure_connected api fuel timeout w ≡ some (some e, w₁)
        → attempts_left api (suc n) fuel timeout detail w ≡ some (unexpected e, w₁)
    unfolding attempts_left
    attempt_refused n w w₁ e c =
        ap
          (λ o. or_reconnect api {A = Res} o (λ x.
            retry_on api (n == 1) (attempt_reconnect api fuel timeout)
              (execute_query api fuel detail x) (attempts_left api n fuel timeout detail)))
          c

    attempt_made :
        (n : ℕ) (w w₁ w₂ : W) (r : Expected Res SqlError)
        → ensure_connected api fuel timeout w ≡ some (none, w₁)
        → execute_query api fuel detail w₁ ≡ some (r, w₂)
        → attempts_left api (suc n) fuel timeout detail w
          ≡ retry_on api
              (n == 1)
              (attempt_reconnect api fuel timeout)
              (some (r, w₂))
              (attempts_left api n fuel timeout detail)
    unfolding attempts_left
    attempt_made n w w₁ w₂ r c q =
        ap
          (λ o. or_reconnect api {A = Res} o (λ x.
            retry_on api (n == 1) (attempt_reconnect api fuel timeout)
              (execute_query api fuel detail x) (attempts_left api n fuel timeout detail)))
          c
        ∙ ap
            (λ o.
              retry_on api (n == 1) (attempt_reconnect api fuel timeout) o
                (attempts_left api n fuel timeout detail))
            q

    last_settles :
        (r : Expected Res SqlError) (w : W) (reset : W → Option (Option SqlError × W))
        (k : W → Outcome W Res)
        → retry_on api false reset (some (r, w)) k ≡ some (r, w)
    last_settles (value r) w reset k = refl
    last_settles (unexpected e) w reset k = ground arith

    -- After a query that found the connection bad.
    once_more :
        (e : SqlError) (w w₁ w₂ : W) (o : Option SqlError × W)
        → ensure_connected api fuel timeout w ≡ some (none, w₁)
        → execute_query api fuel detail w₁ ≡ some (unexpected e, w₂)
        → is_bad_connection e.err ≡ true
        → attempt_reconnect api fuel timeout w₂ ≡ some o
        → execute_with_retry api fuel detail timeout w
          ≡ or_reconnect api (some o) (attempts_left api 1 fuel timeout detail)
    unfolding execute_with_retry
    once_more e w w₁ w₂ o c q bad a =
        attempt_made 1 w w₁ w₂ (unexpected e) c q
        ∙ rw bad (ap (λ x. or_reconnect api x (attempts_left api 1 fuel timeout detail)) a)

    -- Each of the ways is what `ExecuteWithRetry` does.
    pub execute_with_retry-of_Ended :
        {w w' : W} {r : Expected Res SqlError}
        → Ended fuel detail timeout w r w'
        → execute_with_retry api fuel detail timeout w ≡ some (r, w')
    unfolding execute_with_retry
    execute_with_retry-of_Ended {w} (no_connection e w₁ c) = attempt_refused 1 w w₁ e c
    execute_with_retry-of_Ended {w} (answered r w₁ w₂ c q) = attempt_made 1 w w₁ w₂ (value r) c q
    execute_with_retry-of_Ended {w} (failed e w₁ w₂ c q good) =
        attempt_made 1 w w₁ w₂ (unexpected e) c q ∙ rw good refl
    execute_with_retry-of_Ended {w} (lost e e' w₁ w₂ w₃ c q bad a) =
        once_more e w w₁ w₂ (some e', w₃) c q bad a
    execute_with_retry-of_Ended {w} (lost_again e e' w₁ w₂ w₃ w₄ c q bad a c₃) =
        once_more e w w₁ w₂ (none, w₃) c q bad a ∙ attempt_refused 0 w₃ w₄ e' c₃
    execute_with_retry-of_Ended {w} (retried e r w₁ w₂ w₃ w₄ w₅ c q bad a c₃ q₄) =
        once_more e w w₁ w₂ (none, w₃) c q bad a
        ∙ attempt_made 0 w₃ w₄ w₅ r c₃ q₄
        ∙ last_settles r w₅ (attempt_reconnect api fuel timeout)
            (attempts_left api 0 fuel timeout detail)
