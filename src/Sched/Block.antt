-- ===== src/Sched/Block.antt =====
-- kernel/sched.c: a thread that waits or yields, and the thread that runs instead.
use project_lariat.Prelude.{
  List, [], arith, false, none, refl, some, subst, true, ℕ, ◌++◌, ◌==◌, ◌||◌, ◌∷◌, ◌≡◌, ◌≢◌,
}
use project_lariat.ThreadQueue.Chain.{Holds, Holds-update, mem, mem-append}
use project_lariat.ThreadQueue.Laws.{Apart, pop_empty, pop_lem, push_frame, push_lem}
use project_lariat.Sched.{Sched, blocked, pick_next, running, sched_wait_locked, switch_to}
use project_lariat.Sched.Invariant.{
  Apart-sym, IsLinked, IsLoose, Lists, update_all, update_related, with_waiters,
}
use project_lariat.ThreadQueue.{queue_push, update}

pub pick_next_some :
    (s : Sched) (v : Lists) (t : ℕ) (ts : List ℕ)
    → IsLinked s v
    → v.ready ≡ t ∷ ts
    → ((pick_next s).0 ≡ t)
      × IsLinked (pick_next s).1 (record v { ready = ts })
      × IsLoose t (record v { ready = ts })
unfolding pick_next
pick_next_some s v t ts l e =
    let h : Holds s.next s.ready_queue (t ∷ ts) =
      subst (Holds s.next s.ready_queue) e l.ready_holds in
    let (popped, heap, rest) = pop_lem s.next s.ready_queue t ts h in
    let out : (wq : ℕ) → mem t (v.waiting wq) ≡ false = λ wq. l.apart wq t (rw e (ground arith)) in
    (
      ground (arith, popped),
      record {
        ready_holds = rest;
        wait_holds = λ wq.
            rw heap
              (Holds-update s.next (s.queues wq) none t (v.waiting wq) (out wq) (l.wait_holds wq));
        apart = λ wq x m. l.apart wq x (rw e (ground arith));
        separate = l.separate;
      },
      record { not_ready = h.distinct.0; not_waiting = out },
    )

pub pick_next_none :
    (s : Sched) (v : Lists)
    → IsLinked s v
    → v.ready ≡ []
    → ((pick_next s).0 ≡ s.idle) × IsLinked (pick_next s).1 v
unfolding pick_next
pick_next_none s v l e =
    let e' = pop_empty s.next s.ready_queue (subst (Holds s.next s.ready_queue) e l.ready_holds) in
    (
      ground (arith, e'),
      rw e' (record {
        ready_holds = l.ready_holds;
        wait_holds = l.wait_holds;
        apart = l.apart;
        separate = l.separate;
      }),
    )

-- The running thread joins the wait queue at its end.
abbrev pub parked : Lists → ℕ → ℕ → Lists
parked v wq t = with_waiters v wq (v.waiting wq ++ t ∷ [])

abbrev pub next_of : ℕ → List ℕ → ℕ
next_of idle [] = idle
next_of idle (t ∷ ts) = t

abbrev pub rest_of : List ℕ → List ℕ
rest_of [] = []
rest_of (t ∷ ts) = ts

-- `sched_wait_locked` before it picks the next thread.
abbrev park : Sched → ℕ → Sched
park s wq =
    let pushed = queue_push s.next (s.queues wq) s.current in
    record s {
      next = pushed.0;
      queues = update s.queues wq pushed.1;
      state = update s.state s.current blocked;
      wait_q = update s.wait_q s.current (some wq);
    }

park-IsLinked :
    (s : Sched) (v : Lists) (wq : ℕ)
    → IsLinked s v
    → IsLoose s.current v
    → IsLinked (park s wq) (parked v wq s.current)
park-IsLinked s v wq l loose =
    let cur = s.current in
    let q = s.queues wq in
    let ws = v.waiting wq in
    let frame = push_frame s.next q cur ws (l.wait_holds wq) in
    let in_new : (x : ℕ) → mem x (ws ++ cur ∷ []) ≡ (mem x ws || (cur == x || false)) =
      λ x. mem-append x ws (cur ∷ []) in
    record {
      ready_holds =
          frame s.ready_queue v.ready l.ready_holds loose.not_ready
            (Apart-sym v.ready ws (l.apart wq));
      wait_holds =
          update_related (Holds (queue_push s.next q cur).0) s.queues v.waiting wq
            (queue_push s.next q cur).1 (ws ++ cur ∷ [])
            (push_lem s.next q cur ws (l.wait_holds wq) (loose.not_waiting wq))
            (λ p ne.
              frame (s.queues p) (v.waiting p) (l.wait_holds p) (loose.not_waiting p)
                (l.separate wq p ne));
      apart =
          update_all (Apart v.ready) v.waiting wq (ws ++ cur ∷ [])
            (λ x m. ground (arith, in_new x, l.apart wq x, loose.not_ready)) (λ p ne. l.apart p);
      separate = λ p r ne x m.
          let between : (a b y : ℕ)
              → a ≢ b
              → mem y (v.waiting a) ≡ true
              → mem y (v.waiting b) ≡ false =
            λ a b y ne. l.separate a b ne y in
          ground (
            arith,
            in_new x,
            between p r x,
            between wq r x,
            between p wq x,
            loose.not_waiting p,
            loose.not_waiting r,
          );
    }

-- The thread that `pick_next` takes, and the lists that are left.
pub pick_next_lem :
    (s : Sched) (v : Lists) (ready : List ℕ)
    → IsLinked s v
    → v.ready ≡ ready
    → ((pick_next s).0 ≡ next_of s.idle ready)
      × IsLinked (pick_next s).1 (record v { ready = rest_of ready })
pick_next_lem s v [] l e =
    let (a, b) = pick_next_none s v l e in
    (a, subst (λ r. IsLinked (pick_next s).1 (record v { ready = r })) e b)
pick_next_lem s v (t ∷ ts) l e = let (a, b, _) = pick_next_some s v t ts l e in (a, b)

pub next_of-ne :
    (idle cur : ℕ) (xs : List ℕ) → cur ≢ idle → mem cur xs ≡ false → next_of idle xs ≢ cur
next_of-ne idle cur [] ne m = ground arith
next_of-ne idle cur (x ∷ xs) ne m = ground arith

-- A thread that is in no queue and is not the idle thread, and calls `sched_wait_locked`, is then
-- blocked at the end of the wait queue; the oldest ready thread, or else the idle thread, runs, and
-- no other queue has changed.
pub sched_wait_locked_lem :
    (fuel wq : ℕ) (s : Sched) (v : Lists)
    → IsLinked s v
    → IsLoose s.current v
    → s.current ≢ s.idle
    → (after : Sched) × (sched_wait_locked fuel wq s ≡ some after)
      × IsLinked after (record (parked v wq s.current) { ready = rest_of v.ready })
      × (after.current ≡ next_of s.idle v.ready)
      × (after.state s.current ≡ blocked)
      × (after.state after.current ≡ running)
      × (after.wait_q s.current ≡ some wq)
unfolding sched_wait_locked switch_to
sched_wait_locked_lem fuel wq s v l loose ne =
    let s1 = park s wq in
    let (picked, linked) =
      pick_next_lem s1 (parked v wq s.current) v.ready (park-IsLinked s v wq l loose) refl in
    let other = next_of-ne s.idle s.current v.ready ne loose.not_ready in
    (
      switch_to (pick_next s1).0 (pick_next s1).1,
      ground (arith, picked, other),
      record {
        ready_holds = linked.ready_holds;
        wait_holds = linked.wait_holds;
        apart = linked.apart;
        separate = linked.separate;
      },
      picked,
      ground (arith, picked, other),
      ground arith,
      ground arith,
    )
