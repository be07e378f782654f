-- ===== src/Client/Count.antt =====
-- How often a callback stands at each place of the client.
use mathlib.Core.Option
use postgres_cpp_lib.Base.{
  ℕ, ◌+◌, zero, suc, ◌≡◌, refl, ap, arith, if_elim, false, Option, none, some, List, [], ◌∷◌, ◌++◌,
  map, ◌==◌, if◌then◌else◌,
}
use postgres_cpp_lib.Client.{
  QueryRequest, Worker, at_head, at_wait, finished, executing, Task, OverflowCallbackThread,
  PostgresClient, reap_overflow_threads, take_out, finish,
}

abbrev pub self : ℕ → ℕ
self id = id

unfoldable pub times {ℓ} : {A : Type ℓ} → (A → ℕ) → ℕ → List A → ℕ
times key i [] = 0
times key i (x ∷ xs) = (if key x == i then 1 else 0) + times key i xs

pub times-append {ℓ} :
    {A : Type ℓ} (key : A → ℕ) (i : ℕ) (xs ys : List A)
    → times key i (xs ++ ys) ≡ times key i xs + times key i ys
unfolding times
times-append key i [] ys = omega arith
times-append key i (x ∷ xs) ys = omega (arith, times-append key i xs ys)

pub times-map {ℓ} :
    {A : Type ℓ} (key : A → ℕ) (i : ℕ) (xs : List A) → times self i (map key xs) ≡ times key i xs
unfolding times
times-map key i [] = refl
times-map key i (x ∷ xs) = omega (arith, times-map key i xs)

abbrev pub one : ℕ → ℕ → ℕ
one id i = if id == i then 1 else 0

pub times-snoc {ℓ} :
    {A : Type ℓ} (key : A → ℕ) (i : ℕ) (xs : List A) (x : A)
    → times key i (xs ++ x ∷ []) ≡ times key i xs + one (key x) i
unfolding times
times-snoc key i xs x = omega (arith, times-append key i xs (x ∷ []))

abbrev pub of_worker : Worker → ℕ → ℕ
of_worker (executing item) i = one item.id i
of_worker at_head i = 0
of_worker at_wait i = 0
of_worker finished i = 0

abbrev pub of_requests : List QueryRequest → ℕ → ℕ
of_requests rs i = times (λ r. r.id) i rs

module _ {Table : Type 0} where
  abbrev pub of_tasks : List (Task Table) → ℕ → ℕ
  of_tasks ts i = times (λ t. t.id) i ts

  -- The tasks of the overflow threads that are not done.
  unfoldable pub waiting : List (OverflowCallbackThread Table) → List (Task Table)
  waiting [] = []
  waiting (t ∷ ts) = if t.done then waiting ts else t.task ∷ waiting ts

  pub waiting-append :
      (i : ℕ) (xs ys : List (OverflowCallbackThread Table))
      → of_tasks (waiting (xs ++ ys)) i ≡ of_tasks (waiting xs) i + of_tasks (waiting ys) i
  unfolding waiting times
  waiting-append i [] ys = omega arith
  waiting-append i (x ∷ xs) ys = ground (arith, waiting-append i xs ys)

  pub waiting-reap_overflow_threads :
      (ts : List (OverflowCallbackThread Table)) → waiting (reap_overflow_threads ts) ≡ waiting ts
  unfolding waiting reap_overflow_threads
  waiting-reap_overflow_threads [] = refl
  waiting-reap_overflow_threads (t ∷ ts) = ground (arith, waiting-reap_overflow_threads ts)

  -- A new overflow thread, behind those that are left after reaping.
  pub waiting-posted :
      (i : ℕ) (ts : List (OverflowCallbackThread Table)) (t : Task Table)
      → of_tasks (waiting (reap_overflow_threads ts ++ record { done = false; task = t } ∷ [])) i
        ≡ of_tasks (waiting ts) i + one t.id i
  unfolding times waiting
  waiting-posted i ts t = omega (
    arith,
    waiting-append i (reap_overflow_threads ts) (record { done = false; task = t } ∷ []),
    ap (λ xs. of_tasks xs i) (waiting-reap_overflow_threads ts),
  )

  -- A task that is taken out is counted once, and the others are left.
  abbrev pub Taken : ℕ → List (Task Table) → Option (Task Table × List (Task Table)) → Type 0
  Taken i ts none = Unit
  Taken i ts (some (t, others)) = of_tasks ts i ≡ one t.id i + of_tasks others i

  behind_head :
      (i : ℕ) (x : Task Table) (ts : List (Task Table))
      (o : Option (Task Table × List (Task Table)))
      → Taken i ts o
      → Taken i (x ∷ ts) (Option.map (λ r. (r.0, x ∷ r.1)) o)
  unfolding times
  behind_head i x ts none h = tt
  behind_head i x ts (some (t, others)) h = omega (arith, h)

  pub take_out-Taken : (n i : ℕ) (ts : List (Task Table)) → Taken i ts (take_out n ts)
  unfolding take_out times
  take_out-Taken n i [] = tt
  take_out-Taken zero i (x ∷ ts) = refl
  take_out-Taken (suc n) i (x ∷ ts) = behind_head i x ts (take_out n ts) (take_out-Taken n i ts)

  -- The same for an overflow thread that becomes done.
  abbrev pub Finished :
      ℕ
      → List (OverflowCallbackThread Table)
      → Option (Task Table × List (OverflowCallbackThread Table))
      → Type 0
  Finished i ts none = Unit
  Finished i ts (some (t, others)) =
      of_tasks (waiting ts) i ≡ one t.id i + of_tasks (waiting others) i

  behind_thread :
      (i : ℕ) (x : OverflowCallbackThread Table) (ts : List (OverflowCallbackThread Table))
      (o : Option (Task Table × List (OverflowCallbackThread Table)))
      → Finished i ts o
      → Finished i (x ∷ ts) (Option.map (λ r. (r.0, x ∷ r.1)) o)
  unfolding times waiting
  behind_thread i x ts none h = tt
  behind_thread i x ts (some (t, others)) h = ground (arith, h)

  pub finish-Finished :
      (n i : ℕ) (ts : List (OverflowCallbackThread Table)) → Finished i ts (finish n ts)
  unfolding finish times waiting
  finish-Finished n i [] = tt
  finish-Finished zero i (x ∷ ts) = if_elim (Finished i (x ∷ ts)) x.done (λ _. tt) (λ d. rw d refl)
  finish-Finished (suc n) i (x ∷ ts) = behind_thread i x ts (finish n ts) (finish-Finished n i ts)

  -- At all places together: the requests, the worker, the queue of callbacks, the callback workers,
  -- the overflow threads, and what was called.
  unfoldable pub places : PostgresClient Table → ℕ → ℕ
  unfolding waiting
  places c i =
      of_requests c.requests i
      + of_worker c.worker i
      + of_tasks c.cb_queue i
      + of_tasks c.running i
      + of_tasks (waiting c.overflow_cb_threads) i
      + of_tasks c.called i
