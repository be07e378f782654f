-- ===== src/Connection/Progress.antt =====
-- What the client relies on to get out of its loops: the socket, the server and the clock make
-- progress. These are facts about libpq, `poll` and the machine.
use postgres_cpp_lib.Base.{
  ℕ, ◌+◌, ◌*◌, ◌≤◌, ◌<◌, ◌≡◌, true, false, Option, none, some, List, [], ◌∷◌,
}
use postgres_cpp_lib.Base.Int.{ℤ}
use postgres_cpp_lib.Connection.Libpq.{LibpqApi, PollEvents, poll_in, poll_out}
use postgres_cpp_lib.Connection.{is_negative, is_zero}

abbrev pub first {ℓ} : {A : Type ℓ} → List A → Option A
first [] = none
first (a ∷ as') = some a

abbrev pub rest {ℓ} : {A : Type ℓ} → List A → List A
rest [] = []
rest (a ∷ as') = as'

pub record Progress {W : Type 0} {Res : Type 0} (api : LibpqApi W Res) : Type 0 where
  -- The output that is not on the wire yet; less is left each time the socket takes some.
  pub unsent : W → ℕ
  pub flush_falls :
      (socket : ℤ) (w : W)
      → let (flushed, w₁) = api.pq_flush w in
        let (answer, w₂) = api.poll socket poll_out 5000 w₁ in
        is_negative flushed ≡ false
        → is_zero flushed ≡ false
        → is_negative answer.result ≡ false
        → is_zero answer.result ≡ false
        → unsent w₂ < unsent w
  -- The answer that is still to be read; each successful read brings some of it.
  pub unread : W → ℕ
  pub read_falls :
      (socket : ℤ) (w : W)
      → let (answer, w₁) = api.poll socket poll_in 5000 w in
        let (consumed, w₂) = api.pq_consume_input w₁ in
        is_negative answer.result ≡ false
        → is_zero answer.result ≡ false
        → consumed ≡ true
        → unread w₂ < unread w
  -- The results of the query in order; `PQgetResult` hands out the first, and null behind the last.
  pub results : W → List Res
  pub get_first : (w : W) → (api.pq_get_result w).0 ≡ first (results w)
  pub get_rest : (w : W) → results (api.pq_get_result w).1 ≡ rest (results w)
  -- The steady clock shows `clock`, and can be read only so often before it shows a given time: in
  -- a millisecond, at most `rate` times. No call makes it more.
  pub clock : W → ℕ
  pub now_reads : (w : W) → (api.now w).0 ≡ clock w
  pub readings_before : ℕ → W → ℕ
  pub rate : ℕ
  pub readings_bound :
      (timeout : ℕ) (w : W) → readings_before (clock w + timeout) w ≤ rate * timeout
  pub now_falls :
      (t : ℕ) (w : W) → clock w < t → readings_before t (api.now w).1 < readings_before t w
  pub now_keeps : (t : ℕ) (w : W) → readings_before t (api.now w).1 ≤ readings_before t w
  pub reset_poll_keeps :
      (t : ℕ) (w : W) → readings_before t (api.pq_reset_poll w).1 ≤ readings_before t w
  pub poll_keeps :
      (t : ℕ) (socket : ℤ) (events : PollEvents) (timeout : ℕ) (w : W)
      → readings_before t (api.poll socket events timeout w).1 ≤ readings_before t w
