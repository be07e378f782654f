-- ===== src/Client/Service.antt =====
-- What the client promises, with its threads and queues forgotten: requests are outstanding in no
-- particular order, and each is answered once.
use mathlib.Core.Quot
use mathlib.Core.Quot.{Quot, Quot-set}
use postgres_cpp_lib.Base.{
  ℕ, ◌+◌, ◌≡◌, refl, sym, subst, arith, List, [], ◌∷◌, ◌++◌, append-nil, append_assoc,
}
use postgres_cpp_lib.Client.Count.{self, times, times-append}

-- The same requests, as often.
abbrev pub SameIds : List ℕ → List ℕ → Type 0
SameIds xs ys = (i : ℕ) → times self i xs ≡ times self i ys

abbrev pub Bag : Type 0
Bag = Quot SameIds

SameIds-cons : (x : ℕ) (xs ys : List ℕ) → SameIds xs ys → SameIds (x ∷ xs) (x ∷ ys)
unfolding times
SameIds-cons x xs ys h i = omega (arith, h i)

unfoldable pub put : ℕ → Bag → Bag
unfolding SameIds-cons
put x = Quot.lift Quot-set (λ xs. Quot.mk (x ∷ xs)) (λ xs ys h. Quot.sound (SameIds-cons x xs ys h))

pub record Service : Type 0 where
  pub outstanding : Bag
  pub called : List ℕ

abbrev pub idle_service : Service
idle_service = record { outstanding = Quot.mk []; called = [] }

-- These requests come in, in order, and in between callbacks of outstanding ones are called.
pub data Serves (s : Service) : List ℕ → Service → Type 0 where
  idle : Serves s [] s
  submits :
      {new : List ℕ} {t : Service} (i : ℕ)
      → Serves s new t
      → Serves s (new ++ i ∷ []) (record t { outstanding = put i t.outstanding })
  answers :
      {new : List ℕ} {t : Service} (i : ℕ) (left : Bag)
      → t.outstanding ≡ put i left
      → Serves s new t
      → Serves s new (record { outstanding = left; called = t.called ++ i ∷ [] })

pub Serves-trans :
    {s t u : Service} {xs ys : List ℕ} → Serves s xs t → Serves t ys u → Serves s (xs ++ ys) u
Serves-trans {s} {t} {u} {xs} h idle = subst (λ l. Serves s l t) (sym (append-nil xs)) h
Serves-trans {s} {t} {u} {xs} h (submits {new = new} {t = v} i k) =
    subst (λ l. Serves s l (record v { outstanding = put i v.outstanding }))
      (append_assoc xs new (i ∷ [])) (submits i (Serves-trans h k))
Serves-trans h (answers i left e k) = answers i left e (Serves-trans h k)

-- A service that is known by a list of what is outstanding.
abbrev pub at : List ℕ → List ℕ → Service
at outstanding called = record { outstanding = Quot.mk outstanding; called = called }

-- The numbers of a list, put one by one on another.
abbrev onto : List ℕ → List ℕ → List ℕ
onto [] xs = xs
onto (i ∷ new) xs = onto new (i ∷ xs)

times-onto :
    (i : ℕ) (new xs : List ℕ) → times self i (onto new xs) ≡ times self i new + times self i xs
unfolding times
times-onto i [] xs = omega arith
times-onto i (n ∷ new) xs = omega (arith, times-onto i new (n ∷ xs))

submits_all :
    (before new xs called : List ℕ) {s : Service}
    → Serves s before (at xs called)
    → Serves s (before ++ new) (at (onto new xs) called)
unfolding put
submits_all before [] xs called {s} h =
    subst (λ l. Serves s l (at xs called)) (sym (append-nil before)) h
submits_all before (i ∷ new) xs called {s} h =
    subst (λ l. Serves s l (at (onto new (i ∷ xs)) called)) (append_assoc before (i ∷ []) new)
      (submits_all (before ++ i ∷ []) new (i ∷ xs) called (submits i h))

answers_all :
    (ys left called new : List ℕ) {s : Service}
    → Serves s new (at (ys ++ left) called)
    → Serves s new (at left (called ++ ys))
unfolding put
answers_all [] left called new {s} h =
    subst (λ l. Serves s new (at left l)) (sym (append-nil called)) h
answers_all (y ∷ ys) left called new {s} h =
    subst (λ l. Serves s new (at left l)) (append_assoc called (y ∷ []) ys)
      (answers_all ys left (called ++ y ∷ []) new (answers y (Quot.mk (ys ++ left)) refl h))

-- Where the numbers are right, these requests come in and some are answered.
pub Serves-of_counts :
    (xs new ys left called : List ℕ)
    → ((i : ℕ) → times self i xs + times self i new ≡ times self i ys + times self i left)
    → Serves (at xs called) new (at left (called ++ ys))
Serves-of_counts xs new ys left called h = answers_all ys left called new (
    subst (λ b. Serves (at xs called) new (record { outstanding = b; called = called }))
      (Quot.sound (λ i. omega (arith, h i, times-onto i new xs, times-append self i ys left)))
      (submits_all [] new xs called idle))
