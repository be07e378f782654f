-- ===== src/Connection/Stable.antt =====
-- The loops of src/postgres_priv.cpp with more fuel.
use postgres_cpp_lib.Base.{
  ℕ, zero, suc, ◌-◌, ◌≡◌, refl, ap, ◌∙◌, Bool, true, false, not, ◌||◌, leb, Option, none, some,
  if◌then◌else◌,
}
use postgres_cpp_lib.Base.Int.{ℤ}
use postgres_cpp_lib.Base.Texts.{Text}
use postgres_cpp_lib.Connection.Libpq.{LibpqApi, poll_in, poll_out}
use postgres_cpp_lib.Connection.{
  is_negative, is_zero, is_polling_ok, is_polling_failed, is_ok, or_first, events_of,
  check_for_poll_out, check_for_poll_in, drain, drained, consume_from, reconnect_until,
}

-- What the first gives, the second gives.
abbrev pub Refines {ℓ} : {A : Type ℓ} → Option A → Option A → Type ℓ
Refines {A} o o' = (a : A) → o ≡ some a → o' ≡ some a

pub in_else {ℓ} :
    {A : Type ℓ} (b : Bool) (x y y' : Option A)
    → Refines y y'
    → Refines (if b then x else y) (if b then x else y')
in_else true x y y' h a e = e
in_else false x y y' h a e = h a e

in_then {ℓ} :
    {A : Type ℓ} (b : Bool) (x x' y : Option A)
    → Refines x x'
    → Refines (if b then x else y) (if b then x' else y)
in_then true x x' y h a e = h a e
in_then false x x' y h a e = e

in_both {ℓ} :
    {A : Type ℓ} (b : Bool) (x x' y y' : Option A)
    → Refines x x'
    → Refines y y'
    → Refines (if b then x else y) (if b then x' else y')
in_both true x x' y y' h k a e = h a e
in_both false x x' y y' h k a e = k a e

module _ {W : Type 0} {Res : Type 0} (api : LibpqApi W Res) where
  pub check_for_poll_out-Refines :
      (fuel : ℕ) (socket : ℤ) (w : W)
      → Refines (check_for_poll_out api fuel socket w) (check_for_poll_out api (suc fuel) socket w)
  unfolding check_for_poll_out
  check_for_poll_out-Refines zero socket w = λ a e. cc
  check_for_poll_out-Refines (suc fuel) socket w =
      let w₁ = (api.pq_flush w).1 in
      let (answer, w₂) = api.poll socket poll_out 5000 w₁ in
      in_else (is_negative (api.pq_flush w).0) _ _ _ (
        in_else (is_zero (api.pq_flush w).0) _ _ _ (
          in_else (is_negative answer.result) _ _ _ (
            in_else (is_zero answer.result) _ _ _
              (in_else answer.has_error _ _ _ (check_for_poll_out-Refines fuel socket w₂)))))

  pub check_for_poll_in-Refines :
      (fuel : ℕ) (socket : ℤ) (w : W)
      → Refines (check_for_poll_in api fuel socket w) (check_for_poll_in api (suc fuel) socket w)
  unfolding check_for_poll_in
  check_for_poll_in-Refines zero socket w = λ a e. cc
  check_for_poll_in-Refines (suc fuel) socket w =
      let (answer, w₁) = api.poll socket poll_in 5000 w in
      let w₂ = (api.pq_consume_input w₁).1 in
      in_else (is_negative answer.result) _ _ _ (
        in_else (is_zero answer.result) _ _ _ (
          in_else (not (api.pq_consume_input w₁).0) _ _ _
            (in_then (api.pq_is_busy w₂) _ _ _ (check_for_poll_in-Refines fuel socket w₂))))

  next_result :
      {A : Type 0} (r : Option Res) (x : Option A) (k k' : Res → Option A)
      → ((t : Res) → Refines (k t) (k' t))
      → Refines (elim r [ none ↦ x | some t ↦ k t ]) (elim r [ none ↦ x | some t ↦ k' t ])
  next_result none x k k' h a e = e
  next_result (some t) x k k' h a e = h t a e

  drain-Refines : (fuel : ℕ) (w : W) → Refines (drain api fuel w) (drain api (suc fuel) w)
  unfolding drain
  drain-Refines zero w = λ a e. cc
  drain-Refines (suc fuel) w =
      next_result (api.pq_get_result w).0 _ _ _ (λ _. drain-Refines fuel (api.pq_get_result w).1)

  drained-Refines :
      (msg : Text) (o o' : Option W)
      → Refines o o'
      → Refines (drained api msg o) (drained api msg o')
  drained-Refines msg none o' h a e = cc
  drained-Refines msg (some w) o' h a e = ap (drained api msg) (h w refl) ∙ e

  pub consume_from-Refines :
      (fuel : ℕ) (kept : Option Res) (w : W)
      → Refines (consume_from api fuel kept w) (consume_from api (suc fuel) kept w)
  unfolding consume_from
  consume_from-Refines zero kept w = λ a e. cc
  consume_from-Refines (suc fuel) kept w =
      let w₁ = (api.pq_get_result w).1 in
      next_result (api.pq_get_result w).0 _ _ _ λ t.
        in_both (is_ok (api.pq_result_status t)) _ _ _ _
          (consume_from-Refines fuel (or_first kept t) w₁)
          (drained-Refines (api.pq_result_error_message t) (drain api fuel w₁)
            (drain api (suc fuel) w₁) (drain-Refines fuel w₁))

  pub reconnect_until-Refines :
      (fuel deadline : ℕ) (w : W)
      → Refines (reconnect_until api fuel deadline w) (reconnect_until api (suc fuel) deadline w)
  unfolding reconnect_until
  reconnect_until-Refines zero deadline w = λ a e. cc
  reconnect_until-Refines (suc fuel) deadline w =
      let (time, w₁) = api.now w in
      let (st, w₂) = api.pq_reset_poll w₁ in
      let socket = api.pq_socket w₂ in
      let (answer, w₄) = api.poll socket (events_of st) (deadline - time) w₂ in
      in_else (leb deadline time) _ _ _ (
        in_else (is_polling_ok st) _ _ _ (
          in_else (is_polling_failed st) _ _ _ (
            in_else (is_negative socket) _ _ _ (
              in_else (is_negative answer.result || is_zero answer.result) _ _ _
                (in_else answer.has_error _ _ _ (reconnect_until-Refines fuel deadline w₄))))))
