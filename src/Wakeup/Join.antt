-- ===== src/Wakeup/Join.antt =====
-- The join of the worker in the destructor: src/postgres_pub.cpp.
use postgres_cpp_lib.Base.{
  ap, ℕ, zero, suc, ◌+◌, ◌≤◌, ◌<◌, ◌≡◌, refl, ◌⊎◌, inl, inr, arith, Bool, true, false,
}
use postgres_cpp_lib.Wakeup.{
  Waiter, elsewhere, locked, committed, asleep, notified, expired, left, absent, requested, joining,
  Monitor, monitor, notify, looks, Step, submits, notifies_one, requests_stop, notifies_all, leaves,
  locks, beats, commits, blocks, wakes, expires, wakes_alone, goes_on, takes, drains, Reach, here,
  later,
}

-- A stop that was requested is seen, and the settings stay.
pub record Stops (heartbeat_enabled spurious_wakeups : Bool) (s : Monitor) : Type 0 where
  pub stop_seen : s.stopper ≡ joining → s.stop_requested ≡ true
  pub stop_sent : s.stopper ≡ requested → s.stop_requested ≡ true
  pub same : s.heartbeat_enabled ≡ heartbeat_enabled
  pub same_wakeups : s.spurious_wakeups ≡ spurious_wakeups

Step-Stops : {b c : Bool} {s t : Monitor} → Step s t → Stops b c s → Stops b c t
Step-Stops {s = s} (submits a b) h = ground arith
Step-Stops {s = s} (notifies_one n e) h = ground arith
Step-Stops {s = s} (requests_stop a) h = ground arith
Step-Stops {s = s} (notifies_all a) h = ground arith
Step-Stops {s = s} (leaves a b) h = ground arith
Step-Stops {s = s} (locks a b) h = ground arith
Step-Stops {s = s} (beats a b c) h = ground arith
Step-Stops {s = s} (commits a b c) h = ground arith
Step-Stops {s = s} (blocks a) h = ground arith
Step-Stops {s = s} (wakes a) h = ground arith
Step-Stops {s = s} (expires a b) h = ground arith
Step-Stops {s = s} (wakes_alone a b) h = ground arith
Step-Stops {s = s} (goes_on a b c) h = ground arith
Step-Stops {s = s} (takes n a b c) h = ground arith
Step-Stops {s = s} (drains a b) h = ground arith

Reach-Stops : {b c : Bool} {s : Monitor} → Reach b c s → Stops b c s
unfolding monitor
Reach-Stops here = record {
  stop_seen = λ e. cc;
  stop_sent = λ e. cc;
  same = refl;
  same_wakeups = refl;
}
Reach-Stops (later r step) = Step-Stops step (Reach-Stops r)

-- How far the worker is from the end once the destructor joins it.
abbrev pub distance : Waiter → ℕ
distance elsewhere = 1
distance locked = 2
distance committed = 5
distance asleep = 4
distance notified = 3
distance expired = 2
distance left = 0

abbrev pub rank : Monitor → ℕ
rank s = distance s.waiter + s.to_notify

Step-rank :
    {s t : Monitor}
    → Step s t
    → s.stopper ≡ joining
    → s.stop_requested ≡ true
    → (rank t < rank s) × (t.stopper ≡ joining) × (t.stop_requested ≡ true)
Step-rank {s} (submits a b) j q = ground arith
Step-rank {s} (notifies_one n e) j q = ground arith
Step-rank {s} (requests_stop a) j q = ground arith
Step-rank {s} (notifies_all a) j q = ground arith
Step-rank {s} (leaves a b) j q = ground arith
Step-rank {s} (locks a b) j q = ground arith
Step-rank {s} (beats a b c) j q = ground arith
Step-rank {s} (commits a b c) j q = ground arith
Step-rank {s} (blocks a) j q = ground arith
Step-rank {s} (wakes a) j q = ground arith
Step-rank {s} (expires a b) j q = ground arith
Step-rank {s} (wakes_alone a b) j q = ground arith
Step-rank {s} (goes_on a b c) j q = ground arith
Step-rank {s} (takes n a b c) j q = ground arith
Step-rank {s} (drains a b) j q = ground arith

-- Some number of steps.
pub data Steps (s : Monitor) : ℕ → Monitor → Type 0 where
  stay : Steps s 0 s
  go : {n : ℕ} {t u : Monitor} → Steps s n t → Step t u → Steps s (suc n) u

-- Nothing is left to be done: the worker has left its loop, or sleeps for good.
pub IsOver : Bool → Bool → Monitor → Type 0
IsOver heartbeat_enabled spurious_wakeups s =
    (s.to_notify ≡ 0)
    × ((s.waiter ≡ left)
        ⊎ ((s.waiter ≡ asleep) × (heartbeat_enabled ≡ false) × (spurious_wakeups ≡ false)))

Steps-rank :
    {s t : Monitor} {n : ℕ}
    → Steps s n t
    → s.stopper ≡ joining
    → s.stop_requested ≡ true
    → (n + rank t ≤ rank s) × (t.stopper ≡ joining) × (t.stop_requested ≡ true)
Steps-rank stay j q = (omega arith, j, q)
Steps-rank (go run step) j q =
    let (below, j1, q1) = Steps-rank run j q in
    let (less, j2, q2) = Step-rank step j1 q1 in (omega arith, j2, q2)

Steps-Reach : {b c : Bool} {s t : Monitor} {n : ℕ} → Reach b c s → Steps s n t → Reach b c t
Steps-Reach reach stay = reach
Steps-Reach reach (go run step) = later (Steps-Reach reach run) step

-- In each place of the worker there is a step, or nothing is left to be done.
next_at :
    (b c : Bool) (s : Monitor) (w : Waiter) (n : ℕ)
    → s.waiter ≡ w
    → s.to_notify ≡ n
    → Stops b c s
    → s.stop_requested ≡ true
    → ((t : Monitor) × Step s t) ⊎ IsOver b c s
unfolding IsOver
next_at b c s elsewhere n at left_to h seen = inl (_, leaves at seen)
next_at b c s locked n at left_to h seen = inl (_, drains (ap looks at) seen)
next_at b c s committed n at left_to h seen = inl (_, blocks at)
next_at b c s notified n at left_to h seen = inl (_, wakes at)
next_at b c s expired n at left_to h seen = inl (_, drains (ap looks at) seen)
next_at b c s asleep (suc n) at left_to h seen = inl (_, notifies_one n left_to)
next_at b c s left (suc n) at left_to h seen = inl (_, notifies_one n left_to)
next_at b c s left zero at left_to h seen = inr (left_to, inl at)
next_at true c s asleep zero at left_to h seen = inl (_, expires at h.same)
next_at false true s asleep zero at left_to h seen = inl (_, wakes_alone at h.same_wakeups)
next_at false false s asleep zero at left_to h seen = inr (left_to, inr (at, refl, refl))

-- Once the destructor joins the worker, in any state that the threads reach: every run from there has
-- at most as many steps as the rank of the state, and in each state of it a thread can step, unless
-- nobody is left to notify and the worker has left its loop or, if heartbeats are disabled and no
-- thread wakes without a cause, sleeps.
pub join_ends :
    {heartbeat_enabled spurious_wakeups : Bool} {s t : Monitor} (n : ℕ)
    → Reach heartbeat_enabled spurious_wakeups s
    → s.stopper ≡ joining
    → Steps s n t
    → (n ≤ rank s) × (((u : Monitor) × Step t u) ⊎ IsOver heartbeat_enabled spurious_wakeups t)
join_ends {heartbeat_enabled} {spurious_wakeups} {t = t} n reach j run =
    let (below, _, seen) = Steps-rank run j ((Reach-Stops reach).stop_seen j) in
    (
      omega arith,
      next_at heartbeat_enabled spurious_wakeups t t.waiter t.to_notify refl refl
          (Reach-Stops (Steps-Reach reach run)) seen,
    )

-- Nobody can step where the destructor joins a worker that sleeps, and no thread is to notify it.
asleep-stuck :
    {s u : Monitor}
    → s.heartbeat_enabled ≡ false
    → s.spurious_wakeups ≡ false
    → s.stopper ≡ joining
    → s.waiter ≡ asleep
    → s.to_notify ≡ 0
    → ¬ Step s u
asleep-stuck {s} e f j a z (submits b c) = ground arith
asleep-stuck {s} e f j a z (notifies_one n b) = ground arith
asleep-stuck {s} e f j a z (requests_stop b) = ground arith
asleep-stuck {s} e f j a z (notifies_all b) = ground arith
asleep-stuck {s} e f j a z (leaves b c) = ground arith
asleep-stuck {s} e f j a z (locks b c) = ground arith
asleep-stuck {s} e f j a z (beats b c d) = ground arith
asleep-stuck {s} e f j a z (commits b c d) = ground arith
asleep-stuck {s} e f j a z (blocks b) = ground arith
asleep-stuck {s} e f j a z (wakes b) = ground arith
asleep-stuck {s} e f j a z (expires b c) = ground arith
asleep-stuck {s} e f j a z (wakes_alone b c) = ground arith
asleep-stuck {s} e f j a z (goes_on b c d) = ground arith
asleep-stuck {s} e f j a z (takes n b c d) = ground arith
asleep-stuck {s} e f j a z (drains b c) = ground arith

-- A lost notification. Without heartbeats and wake-ups that have no cause, if the worker has found nothing to do and is about to
-- block when the destructor begins, and no thread is to notify it: the destructor can request the
-- stop and notify before the worker blocks, so that three steps on it joins a worker that sleeps,
-- the stop is requested, and no thread can step any more.
pub join_hangs :
    {s : Monitor}
    → Reach false false s
    → s.waiter ≡ committed
    → s.stopper ≡ absent
    → s.to_notify ≡ 0
    → (t : Monitor) × Steps s 3 t
      × (t.stopper ≡ joining)
      × (t.stop_requested ≡ true)
      × (t.waiter ≡ asleep)
      × ((u : Monitor) → ¬ Step t u)
join_hangs {s} reach at none left_to =
    let run = go (go (go stay (requests_stop none)) (notifies_all refl)) (blocks (ap notify at)) in
    let h = Reach-Stops reach in
    (_, run, refl, refl, refl, λ u. asleep-stuck h.same h.same_wakeups refl refl left_to)
