-- ===== src/Wakeup/Heard.antt =====
-- The requests, and the sleep of the worker in `QueryWorker`: src/postgres_priv.cpp.
use postgres_cpp_lib.Base.{◌<◌, ◌≡◌, refl, arith, Bool, false}
use postgres_cpp_lib.Wakeup.{
  committed, asleep, absent, Monitor, monitor, Step, submits, notifies_one, requests_stop,
  notifies_all, leaves, locks, beats, commits, blocks, wakes, expires, wakes_alone, goes_on, takes,
  drains, Reach, here, later,
}

-- Between the test of the condition and the sleep nothing is queued, and while the worker sleeps and
-- something is queued, a thread is still to notify it.
pub record Heard (s : Monitor) : Type 0 where
  pub before_sleep : s.waiter ≡ committed → s.requests ≡ 0
  pub in_sleep : s.waiter ≡ asleep → 0 < s.requests → 0 < s.to_notify
  pub stop_seen : s.stopper ≡ absent → s.stop_requested ≡ false

-- Each step keeps it.
Step-Heard : {s t : Monitor} → Step s t → Heard s → Heard t
Step-Heard {s} (submits a b) h = ground arith
Step-Heard {s} (notifies_one n e) h = ground arith
Step-Heard {s} (requests_stop a) h = ground arith
Step-Heard {s} (notifies_all a) h = ground arith
Step-Heard {s} (leaves a b) h = ground arith
Step-Heard {s} (locks a b) h = ground arith
Step-Heard {s} (beats a b c) h = ground arith
Step-Heard {s} (commits a b c) h = ground arith
Step-Heard {s} (blocks a) h = ground arith
Step-Heard {s} (wakes a) h = ground arith
Step-Heard {s} (expires a b) h = ground arith
Step-Heard {s} (wakes_alone a b) h = ground arith
Step-Heard {s} (goes_on a b c) h = ground arith
Step-Heard {s} (takes n a b c) h = ground arith
Step-Heard {s} (drains a b) h = ground arith

monitor-Heard :
    (heartbeat_enabled spurious_wakeups : Bool) → Heard (monitor heartbeat_enabled spurious_wakeups)
unfolding monitor
monitor-Heard heartbeat_enabled spurious_wakeups = record {
  before_sleep = λ e. refl;
  in_sleep = λ e. ground arith;
  stop_seen = λ e. refl;
}

-- In every state that the threads reach by any order of their steps: the worker goes to sleep only
-- with no request queued, while it sleeps and one is queued there is a thread that has still to
-- notify it, and no stop is seen before the destructor begins.
pub Reach-Heard :
    {heartbeat_enabled spurious_wakeups : Bool} {s : Monitor}
    → Reach heartbeat_enabled spurious_wakeups s
    → Heard s
Reach-Heard {heartbeat_enabled} {spurious_wakeups} here =
    monitor-Heard heartbeat_enabled spurious_wakeups
Reach-Heard (later r step) = Step-Heard step (Reach-Heard r)
