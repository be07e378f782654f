-- ===== src/Session/Asked.antt =====
-- What a caller's `execute` and `execute_async` put into the queue.
use postgres_cpp_lib.Base.{
  ℕ, suc, ◌<◌, ◌^◌, ◌≡◌, refl, ap, ◌∙◌, arith, Bool, true, false, List, [], ◌∷◌, ◌++◌, length,
  length-map, map, All,
}
use postgres_cpp_lib.Base.Texts.{Text}
use postgres_cpp_lib.Param.{Argument, create_single_data, make_pg_param_buffer}
use postgres_cpp_lib.Param.Buffer.{make_pg_param_buffer_lem}
use postgres_cpp_lib.Param.Sent.{IsShort, meant, received, received-make_pg_param_buffer}
use postgres_cpp_lib.Client.{QueryRequest, send_to_worker, enqueue_async}
use postgres_cpp_lib.Session.{Session, submit, submit_async, execute, execute_async}

-- A request of this kind stands behind the others, with the next number, and libpq reads the arguments
-- in it.
abbrev pub Asks :
    {W Table : Type 0}
    → Bool
    → ℕ
    → Text
    → List Argument
    → Session W Table
    → Session W Table
    → Type 0
Asks direct per_us query params s u =
    (item : QueryRequest) × (u.client.requests ≡ s.client.requests ++ item ∷ [])
    × (item.id ≡ s.next_id)
    × (u.next_id ≡ suc s.next_id)
    × (item.direct_callback ≡ direct)
    × (item.detail.query ≡ query)
    × (received item.detail ≡ map (λ a. meant per_us (create_single_data a)) params)

map-map :
    {A B C : Type 0} (f : A → B) (g : B → C) (xs : List A)
    → map g (map f xs) ≡ map (λ x. g (f x)) xs
map-map f g [] = refl
map-map f g (x ∷ xs) = ap (λ l. g (f x) ∷ l) (map-map f g xs)

module _ (per_us : ℕ) (query : Text) (params : List Argument) where
  arguments_received :
      All (IsShort per_us) (map create_single_data params)
      → length params < 2 ^ 31
      → received (make_pg_param_buffer per_us query (map create_single_data params))
        ≡ map (λ a. meant per_us (create_single_data a)) params
  arguments_received h n =
      (received-make_pg_param_buffer per_us query (map create_single_data params) h
        (omega (arith, n, length-map params create_single_data))).0
      ∙ map-map create_single_data (meant per_us) params

  query_kept : (make_pg_param_buffer per_us query (map create_single_data params)).query ≡ query
  query_kept =
      ap (λ d. d.query) (make_pg_param_buffer_lem per_us query (map create_single_data params))

  -- For fewer than 2^31 arguments, each of less than 2^31 bytes, `execute` and `execute_async` queue one
  -- request behind the others, with the caller's query, and with each argument as it was meant, NULL or
  -- its bytes in binary format, where libpq reads it; `direct_callback` is set for `execute`, and not
  -- for `execute_async`.
  pub execute-Asks :
      {W Table : Type 0} (s : Session W Table)
      → All (IsShort per_us) (map create_single_data params)
      → length params < 2 ^ 31
      → Asks true per_us query params s (execute per_us query params s)
        × Asks false per_us query params s (execute_async per_us query params s)
  unfolding execute execute_async submit submit_async send_to_worker enqueue_async
  execute-Asks s h n = (
    (_, refl, refl, refl, refl, query_kept, arguments_received h n),
    (_, refl, refl, refl, refl, query_kept, arguments_received h n),
  )
