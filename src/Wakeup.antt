-- ===== src/Wakeup.antt =====
-- The condition variable `m_cv` of `postgres_client`: src/postgres_priv.cpp, `SendToWorker`,
-- `EnqueueAsync` and the wait in `QueryWorker`, and src/postgres_pub.cpp, the destructor. A thread
-- that notifies does not hold the mutex, and the destructor requests the stop without it.
-- Whether a thread that is blocked may wake with no cause is a setting.
pub mod Heard
pub mod Join
mod Tests
use postgres_cpp_lib.Base.{ℕ, zero, suc, ◌≡◌, Bool, true, false}

-- Where the worker is: out of the mutex; holding it; holding it with the condition found false;
-- blocked; notified; behind the timeout of `wait_for`; behind its loop.
pub data Waiter : Type 0 where
  elsewhere locked committed asleep notified expired left : Waiter

-- The destructor: not begun, behind `request_stop`, and behind `notify_all`, at the join.
pub data Stopper : Type 0 where
  absent requested joining : Stopper

-- `requests` is the size of `m_requests`, and `to_notify` the number of threads that have queued a
-- request and are still to call `notify_one`.
pub record Monitor : Type 0 where
  pub heartbeat_enabled : Bool
  pub spurious_wakeups : Bool
  pub requests : ℕ
  pub stop_requested : Bool
  pub waiter : Waiter
  pub to_notify : ℕ
  pub stopper : Stopper

unfoldable pub monitor : Bool → Bool → Monitor
monitor heartbeat_enabled spurious_wakeups = record {
  heartbeat_enabled = heartbeat_enabled;
  spurious_wakeups = spurious_wakeups;
  requests = 0;
  stop_requested = false;
  waiter = elsewhere;
  to_notify = 0;
  stopper = absent;
}

-- Whether the worker holds the mutex.
abbrev pub holds : Waiter → Bool
holds locked = true
holds committed = true
holds _ = false

-- A notification reaches a thread that is blocked, and no other.
abbrev pub notify : Waiter → Waiter
notify asleep = notified
notify w = w

-- Whether the worker is behind the wait with the mutex, or gets it now.
abbrev pub looks : Waiter → Bool
looks locked = true
looks expired = true
looks _ = false

pub data Step (s : Monitor) : Monitor → Type 0 where
  -- A caller queues a request, and notifies later. Nobody may once the destructor runs.
  submits :
      holds s.waiter ≡ false
      → s.stopper ≡ absent
      → Step s (record s { requests = suc s.requests; to_notify = suc s.to_notify })
  notifies_one :
      (n : ℕ) → s.to_notify ≡ suc n → Step s (record s { to_notify = n; waiter = notify s.waiter })
  requests_stop :
      s.stopper ≡ absent → Step s (record s { stop_requested = true; stopper = requested })
  notifies_all :
      s.stopper ≡ requested → Step s (record s { stopper = joining; waiter = notify s.waiter })
  -- The worker.
  leaves : s.waiter ≡ elsewhere → s.stop_requested ≡ true → Step s (record s { waiter = left })
  locks : s.waiter ≡ elsewhere → s.stop_requested ≡ false → Step s (record s { waiter = locked })
  -- The heartbeat is due: the mutex is taken and let go, and the query sent without it.
  beats :
      s.waiter ≡ elsewhere
      → s.stop_requested ≡ false
      → s.heartbeat_enabled ≡ true
      → Step s (record s { waiter = elsewhere })
  commits :
      s.waiter ≡ locked
      → s.stop_requested ≡ false
      → s.requests ≡ 0
      → Step s (record s { waiter = committed })
  blocks : s.waiter ≡ committed → Step s (record s { waiter = asleep })
  wakes : s.waiter ≡ notified → Step s (record s { waiter = locked })
  -- The standard allows a thread that is blocked to wake with no cause.
  wakes_alone :
      s.waiter ≡ asleep → s.spurious_wakeups ≡ true → Step s (record s { waiter = notified })
  expires : s.waiter ≡ asleep → s.heartbeat_enabled ≡ true → Step s (record s { waiter = expired })
  goes_on :
      s.waiter ≡ expired
      → s.stop_requested ≡ false
      → s.requests ≡ 0
      → Step s (record s { waiter = elsewhere })
  takes :
      (n : ℕ)
      → looks s.waiter ≡ true
      → s.stop_requested ≡ false
      → s.requests ≡ suc n
      → Step s (record s { waiter = elsewhere; requests = n })
  drains :
      looks s.waiter ≡ true
      → s.stop_requested ≡ true
      → Step s (record s { waiter = left; requests = 0 })

pub data Reach (heartbeat_enabled spurious_wakeups : Bool) : Monitor → Type 0 where
  here : Reach heartbeat_enabled spurious_wakeups (monitor heartbeat_enabled spurious_wakeups)
  later :
      {s t : Monitor}
      → Reach heartbeat_enabled spurious_wakeups s
      → Step s t
      → Reach heartbeat_enabled spurious_wakeups t
