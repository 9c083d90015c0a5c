-- ===== src/Sched/Tests.antt =====
-- kernel/sched.c: one CPU with a few threads.
use project_lariat.Prelude.{[], arith, none, refl, some, ◌∷◌, ◌≡◌}
use project_lariat.ThreadQueue.{empty_queue, update}
use project_lariat.ThreadQueue.Chain.{Holds}
use project_lariat.Sched.{
  Sched, blocked, preempt, running, sched_wait_locked, sched_wq_wake_n, thread_sleep, wake_sleepers,
}
use project_lariat.Sched.Invariant.{IsLinked, IsLoose, Lists, update_related}
use project_lariat.Sched.Wake.{sched_wq_wake_n_lem}
use project_lariat.Sched.Block.{sched_wait_locked_lem}
use project_lariat.Sched.Tick.{wake_sleepers_lem}
use project_lariat.Sched.Sleep.{IsAsleep, thread_sleep_lem}
use project_lariat.Sched.Preempt.{Preempted, preempt_lem}

-- The thread 1 runs and none other is ready.
abbrev alone : Sched
alone = record {
  next = λ t. none;
  state = λ t. running;
  wait_q = λ t. none;
  wakeup_tick = λ t. 0;
  ready_queue = empty_queue;
  queues = λ wq. empty_queue;
  sleep_list = none;
  current = 1;
  idle = 0;
}

abbrev nobody : Lists
nobody = record { ready = []; waiting = λ wq. [] }

empty-Holds : Holds (λ t. none) empty_queue []
empty-Holds = record { chain = refl; end = refl; distinct = tt }

alone-IsLinked : IsLinked alone nobody
alone-IsLinked = record {
  ready_holds = empty-Holds;
  wait_holds = λ wq. empty-Holds;
  apart = λ wq t m. refl;
  separate = λ p q ne t m. refl;
}

one-IsLoose : IsLoose 1 nobody
one-IsLoose = record { not_ready = refl; not_waiting = λ wq. refl }

-- The thread 1 runs, and 2 is ready.
abbrev pair : Sched
pair = record alone { ready_queue = record { head = some 2; tail = some 2 } }

abbrev two_ready : Lists
two_ready = record { ready = 2 ∷ []; waiting = λ wq. [] }

pair-IsLinked : IsLinked pair two_ready
pair-IsLinked = record {
  ready_holds = record { chain = (refl, refl); end = refl; distinct = (refl, tt) };
  wait_holds = λ wq. empty-Holds;
  apart = λ wq t m. refl;
  separate = λ p q ne t m. refl;
}

one-IsLoose_pair : IsLoose 1 two_ready
one-IsLoose_pair = record { not_ready = refl; not_waiting = λ wq. refl }

-- The threads 2 and 3 wait at the queue 7.
abbrev waiters : Sched
waiters = record alone {
  next = update (λ t. none) 2 (some 3);
  queues = update (λ wq. empty_queue) 7 (record { head = some 2; tail = some 3 });
}

abbrev two_waiting : Lists
two_waiting = record { ready = []; waiting = update (λ wq. []) 7 (2 ∷ 3 ∷ []) }

waiters-IsLinked : IsLinked waiters two_waiting
waiters-IsLinked = record {
  ready_holds = record { chain = refl; end = refl; distinct = tt };
  wait_holds =
      update_related (Holds (update (λ t. none) 2 (some 3))) (λ wq. empty_queue) (λ wq. []) 7 _ _
        (record { chain = (refl, (refl, refl)); end = refl; distinct = (refl, (refl, tt)) })
        (λ p ne. record { chain = refl; end = refl; distinct = tt });
  apart = λ wq t m. ground arith;
  separate = λ p q ne t m. ground arith;
}

sched_wq_wake_n_lem_example :
    let (count, s') = sched_wq_wake_n 7 1 waiters in
    (count ≡ 1)
    × IsLinked s' (record { ready = 2 ∷ []; waiting = update two_waiting.waiting 7 (3 ∷ []) })
sched_wq_wake_n_lem_example = sched_wq_wake_n_lem 7 1 waiters two_waiting waiters-IsLinked

sched_wait_locked_lem_example :
    (after : Sched) × (sched_wait_locked 1 7 pair ≡ some after)
    × IsLinked after (record { ready = []; waiting = update (λ wq. []) 7 (1 ∷ []) })
    × (after.current ≡ 2)
    × (after.state 1 ≡ blocked)
    × (after.state after.current ≡ running)
    × (after.wait_q 1 ≡ some 7)
sched_wait_locked_lem_example =
    sched_wait_locked_lem 1 7 pair two_ready pair-IsLinked one-IsLoose_pair (λ e. omega arith)

none-IsAsleep : IsAsleep pair two_ready []
none-IsAsleep = record { chain = refl; distinct = tt; off = λ t m. absurd (ground (arith, m)) }

thread_sleep_lem_example :
    let after = thread_sleep 100 5 pair in
    let left = record two_ready { ready = [] } in
    (after.current ≡ 2)
    × IsLinked after left
    × IsAsleep after left (1 ∷ [])
    × (after.state 1 ≡ blocked)
    × (after.wakeup_tick 1 ≡ 105)
thread_sleep_lem_example =
    thread_sleep_lem 100 5 pair two_ready [] pair-IsLinked one-IsLoose_pair none-IsAsleep refl
      (λ e. omega arith)

preempt_lem_example :
    let after = preempt pair in
    (after.current ≡ 2)
    × IsLinked after (record two_ready { ready = 1 ∷ [] })
    × (after.state after.current ≡ running)
    × Preempted pair after
preempt_lem_example =
    preempt_lem pair two_ready pair-IsLinked one-IsLoose_pair refl (λ e. omega arith)

-- The threads 3 and 4 sleep, to the ticks 50 and 150.
abbrev sleepers : Sched
sleepers = record pair {
  next = update (λ t. none) 3 (some 4);
  wakeup_tick = update (λ t. 150) 3 50;
  sleep_list = some 3;
}

sleepers-IsLinked : IsLinked sleepers two_ready
sleepers-IsLinked = record {
  ready_holds = record { chain = (refl, refl); end = refl; distinct = (refl, tt) };
  wait_holds = λ wq. record { chain = refl; end = refl; distinct = tt };
  apart = λ wq t m. refl;
  separate = λ p q ne t m. refl;
}

sleepers-IsAsleep : IsAsleep sleepers two_ready (3 ∷ 4 ∷ [])
sleepers-IsAsleep = record {
  chain = (refl, (refl, refl));
  distinct = (refl, (refl, tt));
  off = λ t m. record { not_ready = ground (arith, m); not_waiting = λ wq. refl };
}

wake_sleepers_lem_example :
    (s' : Sched) × (wake_sleepers 3 100 none sleepers ≡ some s')
    × IsLinked s' (record two_ready { ready = 2 ∷ 3 ∷ [] })
    × IsAsleep s' (record two_ready { ready = 2 ∷ 3 ∷ [] }) (4 ∷ [])
wake_sleepers_lem_example =
    wake_sleepers_lem 3 100 sleepers two_ready (3 ∷ 4 ∷ []) sleepers-IsLinked sleepers-IsAsleep
      (omega arith)
