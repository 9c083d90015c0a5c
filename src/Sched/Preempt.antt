-- ===== src/Sched/Preempt.antt =====
-- kernel/sched.c: the timer hands the CPU to the oldest ready thread.
use project_lariat.Prelude.{
  List, Option, [], ap, arith, none, refl, some, subst, ℕ, ◌++◌, ◌∙◌, ◌∷◌, ◌≡◌, ◌≢◌,
}
use project_lariat.ThreadQueue.{Heap, Queue, queue_pop}
use project_lariat.ThreadQueue.Chain.{Holds}
use project_lariat.ThreadQueue.Laws.{pop_empty, pop_lem}
use project_lariat.Sched.{Sched, make_ready, pick_next, preempt, ready, running, switch_to}
use project_lariat.Sched.Invariant.{IsLinked, IsLoose, Lists, make_ready-IsLinked}
use project_lariat.Sched.Block.{next_of, pick_next_some}

-- The ready threads after the running one was put behind those that wait.
abbrev pub rotated : ℕ → List ℕ → List ℕ
rotated cur [] = []
rotated cur (t ∷ ts) = ts ++ cur ∷ []

preempt_stays :
    (s : Sched) → (queue_pop s.next s.ready_queue).0 ≡ none → preempt s ≡ (pick_next s).1
unfolding preempt pick_next
preempt_stays s e = rw (e, preempt) refl

popped_nothing :
    (s : Sched)
    → queue_pop s.next s.ready_queue ≡ (none, s.next, s.ready_queue)
    → (pick_next s).1 ≡ s
unfolding pick_next
popped_nothing s e =
    ap (λ (r : Option ℕ × Heap × Queue). record s { next = r.1; ready_queue = r.2 }) e

preempt-none :
    (s : Sched) → queue_pop s.next s.ready_queue ≡ (none, s.next, s.ready_queue) → preempt s ≡ s
preempt-none s e =
    preempt_stays s (ap (λ (r : Option ℕ × Heap × Queue). r.0) e) ∙ popped_nothing s e

preempt-some :
    (s : Sched) (t : ℕ)
    → (queue_pop s.next s.ready_queue).0 ≡ some t
    → s.state s.current ≡ running
    → s.current ≢ s.idle
    → preempt s ≡ switch_to t (make_ready (pick_next s).1 s.current)
unfolding preempt pick_next
preempt-some s t e runs ne = ground (arith, e, runs)

switched-IsLinked : (s : Sched) (v : Lists) (t : ℕ) → IsLinked s v → IsLinked (switch_to t s) v
unfolding switch_to
switched-IsLinked s v t l = record {
  ready_holds = l.ready_holds;
  wait_holds = l.wait_holds;
  apart = l.apart;
  separate = l.separate;
}

-- A thread that is preempted by another one is ready; the sleepers and the stamps are as before.
abbrev pub Preempted : Sched → Sched → Type 0
Preempted s after =
    (after.state s.current ≡ ready)
    × (after.sleep_list ≡ s.sleep_list)
    × (after.wakeup_tick ≡ s.wakeup_tick)
    × (after.wait_q ≡ s.wait_q)

-- With no other thread ready the preemption changes nothing at all.
abbrev pub PreemptResult : Sched → List ℕ → Sched → Type 0
PreemptResult s [] after = after ≡ s
PreemptResult s (t ∷ ts) after = Preempted s after

preempt_ready :
    (s : Sched) (v : Lists) (queue : List ℕ)
    → IsLinked s v
    → IsLoose s.current v
    → s.state s.current ≡ running
    → s.current ≢ s.idle
    → v.ready ≡ queue
    → let after = preempt s in
      (after.current ≡ next_of s.current queue)
      × IsLinked after (record v { ready = rotated s.current queue })
      × (after.state after.current ≡ running)
      × PreemptResult s queue after
unfolding switch_to make_ready pick_next
preempt_ready s v [] l loose runs ne e =
    let none_ready =
      pop_empty s.next s.ready_queue (subst (Holds s.next s.ready_queue) e l.ready_holds) in
    rw (preempt-none s none_ready)
      (refl, subst (λ r. IsLinked s (record v { ready = r })) e l, runs, refl)
preempt_ready s v (t ∷ ts) l loose runs ne e =
    let (popped, _, _) =
      pop_lem s.next s.ready_queue t ts (subst (Holds s.next s.ready_queue) e l.ready_holds) in
    let (_, linked, _) = pick_next_some s v t ts l e in
    let out : IsLoose s.current (record v { ready = ts }) = record {
      not_ready = ground (arith, loose.not_ready, e);
      not_waiting = loose.not_waiting;
    } in
    let queued =
      make_ready-IsLinked (pick_next s).1 s.current (record v { ready = ts }) linked out in
    let differ : s.current ≢ t = λ same. ground (arith, loose.not_ready, e, same) in
    rw (preempt-some s t popped runs ne) (
      refl,
      switched-IsLinked _ _ t queued,
      ground arith,
      (ground (arith, differ), refl, refl, refl),
    )

-- When the timer preempts a running thread, not the idle one, the oldest ready thread runs and the
-- preempted thread is ready behind the others, in its place in the queue and by its state; the sleep
-- list, the wake-up ticks and the queues that threads wait on are as before. With no thread ready it
-- goes on running and nothing at all has changed.
pub preempt_lem :
    (s : Sched) (v : Lists)
    → IsLinked s v
    → IsLoose s.current v
    → s.state s.current ≡ running
    → s.current ≢ s.idle
    → let after = preempt s in
      (after.current ≡ next_of s.current v.ready)
      × IsLinked after (record v { ready = rotated s.current v.ready })
      × (after.state after.current ≡ running)
      × PreemptResult s v.ready after
preempt_lem s v l loose runs ne = preempt_ready s v v.ready l loose runs ne refl
