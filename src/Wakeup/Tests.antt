-- ===== src/Wakeup/Tests.antt =====
-- A worker that has found nothing to do when the destructor begins: src/postgres_priv.cpp and
-- src/postgres_pub.cpp.
use postgres_cpp_lib.Base.{◌≤◌, ◌≡◌, refl, ◌⊎◌, Bool, true, false}
use postgres_cpp_lib.Wakeup.{
  committed, asleep, absent, joining, Monitor, monitor, Step, submits, requests_stop, notifies_all,
  locks, commits, blocks, Reach, here, later,
}
use postgres_cpp_lib.Wakeup.Heard.{Heard, Reach-Heard}
use postgres_cpp_lib.Wakeup.Join.{Steps, stay, go, IsOver, rank, join_ends, join_hangs}

abbrev behind_test : Bool → Bool → Monitor
behind_test heartbeat_enabled spurious_wakeups = record {
  spurious_wakeups = spurious_wakeups;
  heartbeat_enabled = heartbeat_enabled;
  requests = 0;
  stop_requested = false;
  waiter = committed;
  to_notify = 0;
  stopper = absent;
}

behind_test-Reach : (b c : Bool) → Reach b c (behind_test b c)
unfolding monitor
behind_test-Reach b c = later (later here (locks refl refl)) (commits refl refl refl)

-- Asleep, with a request queued by a thread that is still to notify.
abbrev queued : Monitor
queued = record {
  heartbeat_enabled = false;
  spurious_wakeups = true;
  requests = 1;
  stop_requested = false;
  waiter = asleep;
  to_notify = 1;
  stopper = absent;
}

queued-Reach : Reach false true queued
queued-Reach = later (later (behind_test-Reach false true) (blocks refl)) (submits refl refl)

Reach-Heard_example : Heard queued
Reach-Heard_example = Reach-Heard queued-Reach

abbrev joined : Bool → Bool → Monitor
joined heartbeat_enabled spurious_wakeups = record {
  spurious_wakeups = spurious_wakeups;
  heartbeat_enabled = heartbeat_enabled;
  requests = 0;
  stop_requested = true;
  waiter = committed;
  to_notify = 0;
  stopper = joining;
}

joined-Reach : (b c : Bool) → Reach b c (joined b c)
joined-Reach b c = later (later (behind_test-Reach b c) (requests_stop refl)) (notifies_all refl)

join_ends_example :
    (1 ≤ rank (joined true false))
    × (((u : Monitor) × Step (record (joined true false) { waiter = asleep }) u)
        ⊎ IsOver true false (record (joined true false) { waiter = asleep }))
join_ends_example = join_ends 1 (joined-Reach true false) refl (go stay (blocks refl))

join_hangs_example :
    (t : Monitor) × Steps (behind_test false false) 3 t
    × (t.stopper ≡ joining)
    × (t.stop_requested ≡ true)
    × (t.waiter ≡ asleep)
    × ((u : Monitor) → ¬ Step t u)
join_hangs_example = join_hangs (behind_test-Reach false false) refl refl refl
