-- ===== src/Sched.antt =====
-- kernel/sched.c: the ready queue, the wait queues and the sleep list, as one CPU works on them.
-- A thread and a wait queue are their addresses, numbers; the fields of the threads are one heap
-- for each field. Every function runs under `sched_lock`, so it is one step; a switch of context
-- ends the step with `current` set to the thread that runs next.
pub mod Invariant
pub mod Wake
pub mod Block
pub mod Yield
pub mod Sleep
pub mod Preempt
pub mod Due
pub mod Sleepers
pub mod Tick
mod Tests
use project_lariat.Prelude.{
  Bool, Option, false, if◌then◌else◌, leb, none, not, some, suc, true, zero, ℕ, ◌%◌, ◌&&◌, ◌+◌,
  ◌==◌, ◌^◌,
}
use project_lariat.ThreadQueue.{Heap, Queue, queue_pop, queue_push, queue_remove, update}

pub data ThreadState : Type 0 where
  running ready blocked zombie : ThreadState

pub record Sched : Type 0 where
  pub next : Heap
  pub state : ℕ → ThreadState
  pub wait_q : ℕ → Option ℕ
  pub wakeup_tick : ℕ → ℕ
  pub ready_queue : Queue
  pub queues : ℕ → Queue
  pub sleep_list : Option ℕ
  pub current : ℕ
  pub idle : ℕ

abbrev pub is_running : ThreadState → Bool
is_running running = true
is_running ready = false
is_running blocked = false
is_running zombie = false

-- `queue_push(&ready_queue_head, &ready_queue_tail, t)` after the state was set.
unfoldable pub make_ready : Sched → ℕ → Sched
make_ready s t =
    let (next, q) = queue_push s.next s.ready_queue t in
    record s { next = next; ready_queue = q; state = update s.state t ready }

-- A thread that came off a wait queue.
unfoldable pub wake : Sched → ℕ → Sched
unfolding make_ready
wake s t = make_ready (record s { wait_q = update s.wait_q t none }) t

unfoldable pub pop_waiter : Sched → ℕ → Option ℕ × Sched
pop_waiter s wq =
    let (t, next, q) = queue_pop s.next (s.queues wq) in
    (t, record s { next = next; queues = update s.queues wq q })

unfoldable pub wq_wake_one : ℕ → Sched → Sched
unfolding pop_waiter wake
wq_wake_one wq s = let (t, s') = pop_waiter s wq in elim t [ none ↦ s' | some w ↦ wake s' w ]

-- The loop of `sched_wq_wake_n` with the wake-ups left and those done.
unfoldable pub wake_n_from : ℕ → ℕ → ℕ → Sched → ℕ × Sched
unfolding pop_waiter wake
wake_n_from wq zero woke s = (woke, s)
wake_n_from wq (suc n) woke s =
    let (t, s') = pop_waiter s wq in
    elim t [ none ↦ (woke, s') | some w ↦ wake_n_from wq n (woke + 1) (wake s' w) ]

unfoldable pub sched_wq_wake_n : ℕ → ℕ → Sched → ℕ × Sched
unfolding wake_n_from
sched_wq_wake_n wq n s = wake_n_from wq n 0 s

-- `wq_wake_all` with fuel for the waiters; `none` means that the fuel ran out.
unfoldable pub wq_wake_all : ℕ → ℕ → Sched → Option Sched
unfolding pop_waiter wake
wq_wake_all zero wq s = none
wq_wake_all (suc fuel) wq s =
    let (t, s') = pop_waiter s wq in
    elim t [ none ↦ some s' | some w ↦ wq_wake_all fuel wq (wake s' w) ]

-- `sched_wake_thread`, with fuel for the waiters of the thread's queue.
unfoldable pub sched_wake_thread : ℕ → ℕ → Sched → Option Sched
unfolding wake
sched_wake_thread fuel t s = elim (s.state t) [
  | blocked ↦ elim (s.wait_q t) [
    | none ↦ some s
    | some wq ↦ elim (queue_remove fuel s.next (s.queues wq) t) [
      | none ↦ none
      | some (next, q) ↦ some (wake (record s { next = next; queues = update s.queues wq q }) t)
    ]
  ]
  | _ ↦ some s
]

-- The thread that runs next: the oldest ready one, or else the idle thread.
unfoldable pub pick_next : Sched → ℕ × Sched
pick_next s =
    let (t, next, q) = queue_pop s.next s.ready_queue in
    (elim t [ none ↦ s.idle | some r ↦ r ], record s { next = next; ready_queue = q })

unfoldable pub switch_to : ℕ → Sched → Sched
switch_to next s = record s { state = update s.state next running; current = next }

-- `sched_wait_locked` up to the switch. The branch on `next == cur` takes the thread off the queue
-- again, with fuel.
unfoldable pub sched_wait_locked : ℕ → ℕ → Sched → Option Sched
unfolding pick_next switch_to
sched_wait_locked fuel wq s =
    let cur = s.current in
    if cur == s.idle
    then some s
    else (let (next, q) = queue_push s.next (s.queues wq) cur in
        let parked = record s {
          next = next;
          queues = update s.queues wq q;
          state = update s.state cur blocked;
          wait_q = update s.wait_q cur (some wq);
        } in
        let (t, s') = pick_next parked in
        if t == cur
        then elim (queue_remove fuel s'.next (s'.queues wq) cur) [
          | none ↦ none
          | some (next', q') ↦ some (record s' {
            next = next';
            queues = update s'.queues wq q';
            wait_q = update s'.wait_q cur none;
            state = update s'.state cur running;
          })
        ]
        else some (switch_to t s'))

-- `thread_yield` up to the switch.
unfoldable pub thread_yield : Sched → Sched
thread_yield s =
    let cur = s.current in
    let queued = if is_running (s.state cur) && not (cur == s.idle) then make_ready s cur else s in
    let (t, s') = pick_next queued in if t == cur then s' else switch_to t s'

-- `thread_sleep` up to the switch; `now` is `timer_get_ticks()`.
abbrev pub sleeping : ℕ → ℕ → Sched → Sched
sleeping now ticks s = record s {
  state = update s.state s.current blocked;
  wakeup_tick = update s.wakeup_tick s.current ((now + ticks) % 2 ^ 64);
  next = update s.next s.current s.sleep_list;
  sleep_list = some s.current;
}

unfoldable pub thread_sleep : ℕ → ℕ → Sched → Sched
thread_sleep now ticks s =
    let cur = s.current in
    let slept = if cur == s.idle then s else sleeping now ticks s in
    let (t, s') = pick_next slept in if t == cur then s' else switch_to t s'

-- `*pp` of the loop over the sleep list, where `pp` is `sleep_list` or the field `next` of the
-- thread before.
abbrev pub sleeper : Sched → Option ℕ → Option ℕ
sleeper s none = s.sleep_list
sleeper s (some before) = s.next before

-- `*pp = t->next`
abbrev pub skip_sleeper : Sched → Option ℕ → ℕ → Sched
skip_sleeper s none t = record s { sleep_list = s.next t }
skip_sleeper s (some before) t = record s { next = update s.next before (s.next t) }

-- The loop of `scheduler_tick` with fuel for the sleeping threads; `none` means that it ran out.
unfoldable pub wake_sleepers : ℕ → ℕ → Option ℕ → Sched → Option Sched
wake_sleepers zero now before s = none
wake_sleepers (suc fuel) now before s = elim (sleeper s before) [
  | none ↦ some s
  | some t ↦
      let woken = wake_sleepers fuel now before (make_ready (skip_sleeper s before t) t) in
      let passed = wake_sleepers fuel now (some t) s in
      if leb (s.wakeup_tick t) now then woken else passed
]

-- The rest of `scheduler_tick` up to the switch: the oldest ready thread takes over.
unfoldable pub preempt : Sched → Sched
preempt s =
    let cur = s.current in
    let (t, next, q) = queue_pop s.next s.ready_queue in
    let popped = record s { next = next; ready_queue = q } in
    let queued =
      if is_running (s.state cur) && not (cur == s.idle) then make_ready popped cur else popped in
    elim t [ none ↦ popped | some n ↦ switch_to n queued ]

unfoldable pub scheduler_tick : ℕ → Bool → ℕ → Sched → Option Sched
unfolding wake_sleepers preempt
scheduler_tick fuel is_bsp now s = elim (if is_bsp then wake_sleepers fuel now none s else some s) [
  | none ↦ none
  | some s' ↦ some (preempt s')
]
