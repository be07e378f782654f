-- ===== src/Transaction/Threads.antt =====
-- A transaction that several threads call, src/transaction.cpp: `commit` and `rollback` release the
-- mutex between the change of the state and the send, and other calls can come in there.
use postgres_cpp_lib.Base.{
  ◌≡◌, refl, sym, ap, ◌∙◌, ◌⊎◌, inl, inr, true, false, List, [], ◌∷◌, ◌++◌, All, All-append,
  if◌then◌else◌,
}
use postgres_cpp_lib.Base.Texts.{Text}
use postgres_cpp_lib.Transaction.State.{TransactionState}
use postgres_cpp_lib.Transaction.{Transaction, transaction, is_active}

-- What the worker is sent: a caller's query, or the command that ends the transaction.
pub data Command : Type 0 where
  query : Text → Command
  ends : TransactionState → Command

-- `leaving` are the threads between the unlock and the send, by the command that each will send.
pub record Shared : Type 0 where
  pub txn : Transaction
  pub leaving : List Command
  pub sent : List Command

unfoldable pub fresh : Shared
unfolding transaction
fresh = record { txn = transaction; leaving = []; sent = [] }

-- `execute` and `execute_async` hold the mutex to the end.
unfoldable pub execute_locked : Text → Shared → Shared
execute_locked text s =
    if is_active s.txn.state then record s { sent = s.sent ++ query text ∷ [] } else s

-- `commit` and `rollback` from the lock to the unlock.
unfoldable pub finish_locked : TransactionState → Shared → Shared
finish_locked state s =
    if is_active s.txn.state
    then record s { txn = record s.txn { state = state }; leaving = s.leaving ++ ends state ∷ [] }
    else s

pub data Step (s : Shared) : Shared → Type 0 where
  executes : (text : Text) → Step s (execute_locked text s)
  commits : Step s (finish_locked TransactionState.commit s)
  rolls_back : Step s (finish_locked TransactionState.rollback s)
  -- One of the threads behind the unlock sends its command.
  sends :
      (before behind : List Command) (c : Command)
      → s.leaving ≡ before ++ c ∷ behind
      → Step s (record s { leaving = before ++ behind; sent = s.sent ++ c ∷ [] })

pub data Reach : Shared → Type 0 where
  here : Reach fresh
  later : {s t : Shared} → Reach s → Step s t → Reach t

abbrev pub IsQuery : Command → Type 0
IsQuery (query text) = Unit
IsQuery (ends state) = ⊥

-- Queries only, while it is active; then, at some time, the one command that ends it, and no more.
abbrev pub EndsOnce : Shared → Type 0
EndsOnce s =
    ((is_active s.txn.state ≡ true) × (s.leaving ≡ []) × All IsQuery s.sent)
    ⊎ ((is_active s.txn.state ≡ false) × (s.leaving ≡ ends s.txn.state ∷ []) × All IsQuery s.sent)
    ⊎ ((is_active s.txn.state ≡ false)
        × (s.leaving ≡ [])
        × ((queries : List Command) × (s.sent ≡ queries ++ ends s.txn.state ∷ [])
            × All IsQuery queries))

fresh-EndsOnce : EndsOnce fresh
unfolding fresh
fresh-EndsOnce = inl (refl, refl, tt)

execute_locked-EndsOnce : (text : Text) (s : Shared) → EndsOnce s → EndsOnce (execute_locked text s)
unfolding execute_locked
execute_locked-EndsOnce text s (inl (a, l, q)) =
    rw a (inl (a, l, All-append IsQuery s.sent (query text ∷ []) q (tt, tt)))
execute_locked-EndsOnce text s (inr (inl (a, l, q))) = rw a (inr (inl (a, l, q)))
execute_locked-EndsOnce text s (inr (inr (a, l, q))) = rw a (inr (inr (a, l, q)))

finish_locked-EndsOnce :
    (state : TransactionState) (s : Shared)
    → is_active state ≡ false
    → EndsOnce s
    → EndsOnce (finish_locked state s)
unfolding finish_locked
finish_locked-EndsOnce state s f (inl (a, l, q)) =
    rw a (inr (inl (f, ap (λ p. p ++ ends state ∷ []) l, q)))
finish_locked-EndsOnce state s f (inr (inl (a, l, q))) = rw a (inr (inl (a, l, q)))
finish_locked-EndsOnce state s f (inr (inr (a, l, q))) = rw a (inr (inr (a, l, q)))

-- The only thread behind the unlock.
only :
    (before behind : List Command) (c d : Command)
    → d ∷ [] ≡ before ++ c ∷ behind
    → (before ++ behind ≡ []) × (c ≡ d)
only [] behind c d e = (cc, cc)
only (b ∷ []) behind c d e = (cc, cc)
only (b ∷ b' ∷ before) behind c d e = (cc, cc)

none_left : (before behind : List Command) (c : Command) → [] ≡ before ++ c ∷ behind → ⊥
none_left [] behind c e = cc
none_left (b ∷ before) behind c e = cc

sends-EndsOnce :
    (s : Shared) (before behind : List Command) (c : Command)
    → s.leaving ≡ before ++ c ∷ behind
    → EndsOnce s
    → EndsOnce (record s { leaving = before ++ behind; sent = s.sent ++ c ∷ [] })
sends-EndsOnce s before behind c e (inl (a, l, q)) = absurd (none_left before behind c (sym l ∙ e))
sends-EndsOnce s before behind c e (inr (inl (a, l, q))) =
    let (left, same) = only before behind c (ends s.txn.state) (sym l ∙ e) in
    inr (inr (a, left, (s.sent, ap (λ d. s.sent ++ d ∷ []) same, q)))
sends-EndsOnce s before behind c e (inr (inr (a, l, q))) =
    absurd (none_left before behind c (sym l ∙ e))

Step-EndsOnce : {s t : Shared} → Step s t → EndsOnce s → EndsOnce t
Step-EndsOnce {s} (executes text) h = execute_locked-EndsOnce text s h
Step-EndsOnce {s} commits h = finish_locked-EndsOnce TransactionState.commit s refl h
Step-EndsOnce {s} rolls_back h = finish_locked-EndsOnce TransactionState.rollback s refl h
Step-EndsOnce {s} (sends before behind c e) h = sends-EndsOnce s before behind c e h

-- Whatever threads call a transaction, and in whatever order they come in: while it is active only
-- queries were sent; after that at most one command that ends it is sent, COMMIT if `commit` won and
-- ROLLBACK if `rollback` did, and nothing is sent behind it.
pub Reach-EndsOnce : {s : Shared} → Reach s → EndsOnce s
Reach-EndsOnce here = fresh-EndsOnce
Reach-EndsOnce (later r st) = Step-EndsOnce st (Reach-EndsOnce r)
