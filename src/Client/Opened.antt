-- ===== src/Client/Opened.antt =====
-- What `connect` leaves behind, and the connections that are open.
use postgres_cpp_lib.Base.{
  ℕ, ◌+◌, ◌-◌, ◌≤◌, ◌≡◌, refl, ap, ◌∙◌, ◌⊎◌, inl, inr, arith, Bool, not, if_elim, Option, none,
  some,
}
use postgres_cpp_lib.Base.Texts.{Text, Expected, value, unexpected}
use postgres_cpp_lib.SqlError.{SqlError}
use postgres_cpp_lib.Connection.{is_zero}
use postgres_cpp_lib.Client.{connected}
use postgres_cpp_lib.Client.Connect.{
  ConnectApi, Handle, idle_client, start_threads, postgres_client, release, Attempt,
  with_connection, connect, destroy_handle,
}

abbrev pub held {ℓ} : {A : Type ℓ} → Option A → ℕ
held none = 0
held (some a) = 1

-- The number of connections that are open: `PQconnectdb` opens one unless it returns null, even one
-- that failed, and `PQfinish` closes one.
pub record Opens {W Conn ConnectionError : Type 0} (api : ConnectApi W Conn ConnectionError)
    : Type 0 where
  pub opened : W → ℕ
  pub connectdb_opens :
      (uri : Text) (w : W)
      → opened (api.pq_connectdb uri w).1 ≡ opened w + held (api.pq_connectdb uri w).0
  pub set_nonblocking_keeps :
      (conn : Conn) (w : W) → opened (api.pq_set_nonblocking conn w).1 ≡ opened w
  pub finish_closes : (conn : Conn) (w : W) → opened (api.pq_finish conn w) ≡ opened w - 1

module _ {W Conn ConnectionError : Type 0} {api : ConnectApi W Conn ConnectionError}
    (o : Opens api) where
  release-opened : (c : Option Conn) (w : W) → o.opened (release api c w) ≡ o.opened w - held c
  unfolding release
  release-opened none w = omega arith
  release-opened (some conn) w = o.finish_closes conn w

module _ {W Conn ConnectionError Table : Type 0} (api : ConnectApi W Conn ConnectionError)
    (o : Opens api) where
  -- An attempt that succeeds has a connection and runs the threads; one that fails changes nothing. All
  -- connections that it opened and the client does not hold are closed again.
  abbrev pub Accounted : Handle Conn Table → W → Attempt W Conn ConnectionError Table → Type 0
  Accounted h w a =
      (o.opened a.world + held h.connection ≡ o.opened w + held a.handle.connection)
      × (((a.result ≡ value tt)
            × (held a.handle.connection ≡ 1)
            × (a.handle.client ≡ start_threads h.num_cb_threads h.client))
          ⊎ ((e : ConnectionError) × (a.result ≡ unexpected e) × (a.handle ≡ h)))

  with_connection-Accounted :
      (h : Handle Conn Table) (conn : Option Conn) (w w₀ : W)
      → held h.connection ≤ o.opened w₀
      → o.opened w ≡ o.opened w₀ + held conn
      → Accounted h w₀ (with_connection api h conn w)
  unfolding with_connection
  with_connection-Accounted h none w w₀ l e = (omega (arith, e), inr (_, refl, refl))
  with_connection-Accounted h (some conn) w w₀ l e =
      if_elim (Accounted h w₀) (not (api.pq_status_ok conn w))
        (λ _. (omega (arith, l, e, release-opened o (some conn) w), inr (_, refl, refl)))
        λ _.
          let w₁ = (api.pq_set_nonblocking conn w).1 in
          let k = o.set_nonblocking_keeps conn w in
          if_elim (Accounted h w₀) (not (is_zero (api.pq_set_nonblocking conn w).0))
            (λ _. (omega (arith, l, e, k, release-opened o (some conn) w₁), inr (_, refl, refl)))
            λ _. (omega (arith, l, e, k, release-opened o h.connection w₁), inl (refl, refl, refl))

  connect-Accounted :
      (h : Handle Conn Table) (w : W)
      → held h.connection ≤ o.opened w
      → Accounted h w (connect api h w)
  unfolding connect
  connect-Accounted h w l =
      let (conn, w₁) = api.pq_connectdb h.uri w in
      with_connection-Accounted h conn w₁ w l (o.connectdb_opens h.uri w)

  -- A new client that connects either has an open connection and its threads at the head of their loops,
  -- or gets an error and is as it was; and when it is destroyed then, all connections that it opened are
  -- closed.
  pub connect_lem :
      (uri : Text) (heartbeat_enabled : Bool) (num_cb_threads : ℕ)
      (result : Expected Table SqlError) (w : W)
      → let h : Handle Conn Table = postgres_client uri heartbeat_enabled num_cb_threads in
        let a = connect api h w in
        (((a.result ≡ value tt)
            × (o.opened a.world ≡ o.opened w + 1)
            × (a.handle.client ≡ connected heartbeat_enabled num_cb_threads))
          ⊎ ((e : ConnectionError) × (a.result ≡ unexpected e)
              × (o.opened a.world ≡ o.opened w)
              × (a.handle ≡ h)))
        × (o.opened (destroy_handle api result a.handle a.world).1 ≡ o.opened w)
  unfolding postgres_client destroy_handle connected idle_client start_threads
  connect_lem uri heartbeat_enabled num_cb_threads result w =
      let h : Handle Conn Table = postgres_client uri heartbeat_enabled num_cb_threads in
      let a = connect api h w in
      let (counts, how) = connect-Accounted h w (omega arith) in
      (
        elim how [
          | inl (r, one, c) ↦ inl (
            r,
            omega (arith, counts, one),
            c ∙ ap (λ n. record (connected heartbeat_enabled 0) { ready = n }) (omega arith),
          )
          | inr (e, r, same) ↦ inr (
            e,
            r,
            omega (arith, counts, ap (λ (d : Handle Conn Table). held d.connection) same),
            same,
          )
        ],
        omega (arith, counts, release-opened o a.handle.connection a.world),
      )
