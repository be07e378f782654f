-- ===== src/Connection/Ways.antt =====
-- The ways in which `ExecuteWithRetry` ends, put together from how its parts end.
use postgres_cpp_lib.Base.{ℕ, ◌+◌, ◌≡◌, inl, inr, true, Bool-cases, Option, none, some}
use postgres_cpp_lib.Base.Texts.{Expected, value, unexpected}
use postgres_cpp_lib.Param.{PgParamDetail}
use postgres_cpp_lib.SqlError.{SqlError}
use postgres_cpp_lib.Connection.Libpq.{LibpqApi}
use postgres_cpp_lib.Connection.Attempts.{
  Ended, no_connection, answered, failed, lost, lost_again, retried, execute_with_retry-of_Ended,
}
use postgres_cpp_lib.Connection.{
  is_bad_connection, attempt_reconnect, ensure_connected, execute_query, execute_with_retry,
}

-- How fuel is measured: `Fits n m` says that the fuel `m` does where `n` is asked for, and the fuel that
-- does for a sum does for both.
module _ (Fits : ℕ → ℕ → Type 0) (both : (n k m : ℕ) → Fits (n + k) m → Fits n m × Fits k m) where
  -- A result, and the fuel that is asked for it.
  abbrev pub Got {ℓ} : {A : Type ℓ} → (ℕ → Option A) → Type ℓ
  Got {A} f = (n : ℕ) × (a : A) × ((m : ℕ) → Fits n m → f m ≡ some a)

  module _ {W : Type 0} {Res : Type 0} (api : LibpqApi W Res) (detail : PgParamDetail) (timeout : ℕ)
      (ensure : (w : W) → Got (λ m. ensure_connected api m timeout w))
      (query : (w : W) → Got (λ m. execute_query api m detail w))
      (reset : (w : W) → Got (λ m. attempt_reconnect api m timeout w)) where
    abbrev pub Way : W → Type 0
    Way w =
        (n : ℕ) × (r : Expected Res SqlError) × (w' : W) × ((m : ℕ)
          → Fits n m
          → (execute_with_retry api m detail timeout w ≡ some (r, w'))
            × Ended api m detail timeout w r w')

    way :
        {w w' : W} {r : Expected Res SqlError} (n : ℕ)
        → ((m : ℕ) → Fits n m → Ended api m detail timeout w r w')
        → Way w
    way n h = (n, _, _, λ m l. (execute_with_retry-of_Ended api m timeout detail (h m l), h m l))

    -- `ExecuteQuery` was called first, and found the connection bad.
    module _ (w w₁ w₂ : W) (e : SqlError) (n : ℕ)
        (c : (m : ℕ) → Fits n m → ensure_connected api m timeout w ≡ some (none, w₁))
        (q : (m : ℕ) → Fits n m → execute_query api m detail w₁ ≡ some (unexpected e, w₂))
        (bad : is_bad_connection e.err ≡ true) where
      after_ensured :
          (w₃ : W) (k : ℕ)
          → ((m : ℕ) → Fits k m → attempt_reconnect api m timeout w₂ ≡ some (none, w₃))
          → Got (λ m. ensure_connected api m timeout w₃)
          → Way w
      after_ensured w₃ k a (i, (some e', w₄), c₃) = way (n + (k + i)) λ m l.
          let (l₁, l₂) = both n (k + i) m l in
          let (l₃, l₄) = both k i m l₂ in
          lost_again e e' w₁ w₂ w₃ w₄ (c m l₁) (q m l₁) bad (a m l₃) (c₃ m l₄)
      after_ensured w₃ k a (i, (none, w₄), c₃) =
          let (j, (r, w₅), q₄) = query w₄ in
          way (n + (k + (i + j))) λ m l.
            let (l₁, l₂) = both n (k + (i + j)) m l in
            let (l₃, l₄) = both k (i + j) m l₂ in
            let (l₅, l₆) = both i j m l₄ in
            retried e r w₁ w₂ w₃ w₄ w₅ (c m l₁) (q m l₁) bad (a m l₃) (c₃ m l₅) (q₄ m l₆)

      after_reset : Got (λ m. attempt_reconnect api m timeout w₂) → Way w
      after_reset (k, (some e', w₃), a) =
          way (n + k)
            λ m l. let (l₁, l₂) = both n k m l in lost e e' w₁ w₂ w₃ (c m l₁) (q m l₁) bad (a m l₂)
      after_reset (k, (none, w₃), a) = after_ensured w₃ k a (ensure w₃)

    after_query :
        (w w₁ : W) (n : ℕ)
        → ((m : ℕ) → Fits n m → ensure_connected api m timeout w ≡ some (none, w₁))
        → Got (λ m. execute_query api m detail w₁)
        → Way w
    after_query w w₁ n c (k, (value r, w₂), q) =
        way (n + k) λ m l. let (l₁, l₂) = both n k m l in answered r w₁ w₂ (c m l₁) (q m l₂)
    after_query w w₁ n c (k, (unexpected e, w₂), q) = elim (Bool-cases (is_bad_connection e.err)) [
      | inr good ↦
          way (n + k) λ m l. let (l₁, l₂) = both n k m l in failed e w₁ w₂ (c m l₁) (q m l₂) good
      | inl bad ↦
          after_reset w w₁ w₂ e (n + k) (λ m l. c m (both n k m l).0) (λ m l. q m (both n k m l).1)
            bad (reset w₂)
    ]

    after_ensure : (w : W) → Got (λ m. ensure_connected api m timeout w) → Way w
    after_ensure w (n, (some e, w₁), c) = way n λ m l. no_connection e w₁ (c m l)
    after_ensure w (n, (none, w₁), c) = after_query w w₁ n c (query w₁)

    -- `ExecuteWithRetry` ends in one of the ways if its parts end.
    pub execute_with_retry-Way : (w : W) → Way w
    execute_with_retry-Way w = after_ensure w (ensure w)
