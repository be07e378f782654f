-- ===== src/Connection/Consume.antt =====
-- `ConsumeResult` against the list of results that the server sent.
use postgres_cpp_lib.Base.{
  ℕ, zero, suc, ◌<◌, ◌≡◌, refl, ap, ◌∙◌, arith, Option, none, some, List, [], ◌∷◌, length,
  if◌then◌else◌, Bool-cases, inl, inr,
}
use postgres_cpp_lib.Base.Texts.{Expected, unexpected}
use postgres_cpp_lib.SqlError.{SqlError, query_failed}
use postgres_cpp_lib.Connection.Libpq.{LibpqApi}
use postgres_cpp_lib.Connection.Progress.{Progress, first, rest}
use postgres_cpp_lib.Connection.{
  is_ok, or_first, or_no_results, drain, consume_from, consume_result,
}

module _ {W : Type 0} {Res : Type 0} (api : LibpqApi W Res) where
  -- The first failure, or else the first result, or else that there was none.
  unfoldable pub summary : Option Res → List Res → Expected Res SqlError
  summary kept [] = or_no_results kept
  summary kept (r ∷ rs) =
      if is_ok (api.pq_result_status r)
      then summary (or_first kept r) rs
      else unexpected (query_failed (api.pq_result_error_message r))

  module _ (p : Progress api) where
    drain_lem :
        (rs : List Res) (fuel : ℕ) (w : W)
        → p.results w ≡ rs
        → length rs < fuel
        → (w' : W) × (drain api fuel w ≡ some w') × (p.results w' ≡ [])
    unfolding drain
    drain_lem rs zero w e h = absurd (omega arith)
    drain_lem [] (suc fuel) w e h = (
      (api.pq_get_result w).1,
      rw (p.get_first w ∙ ap first e, drain) refl,
      p.get_rest w ∙ ap rest e,
    )
    drain_lem (r ∷ rs) (suc fuel) w e h =
        let (w', d, z) =
          drain_lem rs fuel (api.pq_get_result w).1 (p.get_rest w ∙ ap rest e) (omega arith) in
        (w', rw (p.get_first w ∙ ap first e, drain) d, z)

    consume_from_lem :
        (rs : List Res) (fuel : ℕ) (kept : Option Res) (w : W)
        → p.results w ≡ rs
        → length rs < fuel
        → (w' : W) × (consume_from api fuel kept w ≡ some (summary kept rs, w'))
          × (p.results w' ≡ [])
    unfolding consume_from summary
    consume_from_lem rs zero kept w e h = absurd (omega arith)
    consume_from_lem [] (suc fuel) kept w e h = (
      (api.pq_get_result w).1,
      rw (p.get_first w ∙ ap first e, consume_from) refl,
      p.get_rest w ∙ ap rest e,
    )
    consume_from_lem (r ∷ rs) (suc fuel) kept w e h =
        let w₁ = (api.pq_get_result w).1 in
        let e₁ = p.get_rest w ∙ ap rest e in
        let onward = consume_from_lem rs fuel (or_first kept r) w₁ e₁ (omega arith) in
        let (w₂, d, z) = drain_lem rs fuel w₁ e₁ (omega arith) in
        elim (Bool-cases (is_ok (api.pq_result_status r))) [
          | inl ok ↦
              (onward.0, rw (p.get_first w ∙ ap first e, consume_from, ok) onward.1, onward.2)
          | inr bad ↦ (w₂, rw (p.get_first w ∙ ap first e, consume_from, bad, d) refl, z)
        ]

    -- Given that PQgetResult returns finitely many results and then null, and with more fuel than there
    -- are results: `ConsumeResult` ends, leaves no result unread on the connection, and returns the
    -- first failure if a result is one, else the first result, else that no results were received.
    pub consume_result_lem :
        (fuel : ℕ) (w : W)
        → length (p.results w) < fuel
        → (w' : W) × (consume_result api fuel w ≡ some (summary none (p.results w), w'))
          × (p.results w' ≡ [])
    unfolding consume_result
    consume_result_lem fuel w h = consume_from_lem (p.results w) fuel none w refl h
