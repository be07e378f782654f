-- ===== src/Migrations/Sent.antt =====
-- Which statements a migration sends.
use postgres_cpp_lib.Base.{
  ℕ, ◌≡◌, refl, sym, ap, ◌∙◌, none, some, List, [], ◌∷◌, ◌++◌, append-nil, append_assoc,
}
use postgres_cpp_lib.Base.Texts.{Text, Expected, value, unexpected}
use postgres_cpp_lib.Param.{make_pg_param_buffer, pg_param_detail}
use postgres_cpp_lib.SqlError.{SqlError}
use postgres_cpp_lib.SqlParser.{parse_statements}
use postgres_cpp_lib.SqlParser.Steps.{parse_statements-total}
use postgres_cpp_lib.Transaction.{Executor}
use postgres_cpp_lib.Transaction.Script.{Logs}
use postgres_cpp_lib.Migrations.{
  of_sql, MigrationError, execute_statement, after_statement, execute_statements, with_client,
  migrate,
}

module _ {W : Type 0} {Table : Type 0} (x : Executor W Table) (per_us : ℕ) (log : W → List Text)
    (l : Logs x log) where
  one_sent : (stmt : Text) (w : W) → log (execute_statement x per_us stmt w).1 ≡ log w ++ stmt ∷ []
  unfolding execute_statement make_pg_param_buffer pg_param_detail
  one_sent stmt w = l.sends (make_pg_param_buffer per_us stmt []) w

  sent_to :
      (stmt : Text) (w w' : W) (r : Expected Table SqlError)
      → execute_statement x per_us stmt w ≡ (r, w')
      → log w' ≡ log w ++ stmt ∷ []
  sent_to stmt w w' r e = ap (λ p. log p.1) (sym e) ∙ one_sent stmt w

module _ {W : Type 0} {Table : Type 0} (ConnectionError : Type 0) (x : Executor W Table)
    (per_us : ℕ) (log : W → List Text) where
  -- Each of the statements was executed, in order, and none failed.
  pub data AllSucceed : List Text → W → W → Type 0 where
    none_left : (w : W) → AllSucceed [] w w
    one_more :
        (stmt : Text) (stmts : List Text) (table : Table) (w w₁ w' : W)
        → execute_statement x per_us stmt w ≡ (value table, w₁)
        → AllSucceed stmts w₁ w'
        → AllSucceed (stmt ∷ stmts) w w'

  -- From `w` to `w'`, with the statements in order: all of them were sent, and none failed; or those
  -- up to the first one that failed, whose error is returned.
  pub data Migrated : List Text → W → MigrationError ConnectionError → W → Type 0 where
    all_sent :
        (stmts : List Text) (w w' : W)
        → AllSucceed stmts w w'
        → log w' ≡ log w ++ stmts
        → Migrated stmts w none w'
    stopped_at :
        (before : List Text) (stmt : Text) (behind : List Text) (err : SqlError) (w w₁ w' : W)
        → AllSucceed before w w₁
        → execute_statement x per_us stmt w₁ ≡ (unexpected err, w')
        → log w' ≡ log w ++ (before ++ stmt ∷ [])
        → Migrated (before ++ stmt ∷ behind) w (some (of_sql err)) w'

  module _ (l : Logs x log) where
    behind_first :
        (stmt : Text) (stmts : List Text) (table : Table) (w w₁ w' : W)
        (e : MigrationError ConnectionError)
        → execute_statement x per_us stmt w ≡ (value table, w₁)
        → Migrated stmts w₁ e w'
        → Migrated (stmt ∷ stmts) w e w'
    behind_first stmt stmts table w w₁ w' e h (all_sent _ _ _ a k) =
        all_sent (stmt ∷ stmts) w w' (one_more stmt stmts table w w₁ w' h a) (
          k
          ∙ ap (λ a. a ++ stmts) (sent_to x per_us log l stmt w w₁ (value table) h)
          ∙ append_assoc (log w) (stmt ∷ []) stmts)
    behind_first stmt stmts table w w₁ w' e h (stopped_at before s behind err _ w₂ _ a f m) =
        stopped_at (stmt ∷ before) s behind err w w₂ w' (one_more stmt before table w w₁ w₂ h a) f (
          m
          ∙ ap (λ a. a ++ (before ++ s ∷ [])) (sent_to x per_us log l stmt w w₁ (value table) h)
          ∙ append_assoc (log w) (stmt ∷ []) (before ++ s ∷ []))

    abbrev Ran : List Text → W → MigrationError ConnectionError × W → Type 0
    Ran stmts w r = Migrated stmts w r.0 r.1

    execute_statements-Ran :
        (stmts : List Text) (w : W) → Ran stmts w (execute_statements x per_us stmts w)
    unfolding execute_statements
    execute_statements-Ran [] w = all_sent [] w w (none_left w) (sym (append-nil (log w)))
    execute_statements-Ran (stmt ∷ stmts) w =
        answered (λ v. execute_statements-Ran stmts v) (execute_statement x per_us stmt w) refl
      where
        answered :
            ((v : W) → Ran stmts v (execute_statements x per_us stmts v))
            → (r : Expected Table SqlError × W) → execute_statement x per_us stmt w ≡ r
            → Ran (stmt ∷ stmts) w (after_statement r (execute_statements x per_us stmts))
        answered go (value table, w₁) e =
            behind_first stmt stmts table w w₁ (execute_statements x per_us stmts w₁).1
              (execute_statements x per_us stmts w₁).0 e (go w₁)
        answered go (unexpected err, w₁) e =
            stopped_at [] stmt stmts err w w w₁ (none_left w) e
              (sent_to x per_us log l stmt w w₁ (unexpected err) e)

    -- With the file open and a client acquired, and over an executor that sends each query that it is
    -- handed: `Migrate` ends, and sends the statements of the file in
    -- order up to the first one that fails, whose error it returns; if none fails all of them are sent,
    -- and it returns no error.
    pub migrate-Migrated :
        (sql : Text) (acquire : W → Expected (Unit {0}) ConnectionError × W) (w w₁ : W)
        → acquire w ≡ (value tt, w₁)
        → (stmts : List Text) × (e : MigrationError ConnectionError) × (w' : W) × (parse_statements
              sql
            ≡ some stmts)
          × (migrate x per_us (some sql) acquire w ≡ some (e, w'))
          × Migrated stmts w₁ e w'
    unfolding migrate with_client
    migrate-Migrated sql acquire w w₁ a =
        let (stmts, p) = parse_statements-total sql in
        let r = execute_statements x per_us stmts w₁ in
        (stmts, r.0, r.1, p, rw (p, a) refl, execute_statements-Ran stmts w₁)
