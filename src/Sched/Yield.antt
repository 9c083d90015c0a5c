-- ===== src/Sched/Yield.antt =====
-- kernel/sched.c: `thread_yield` with and without another ready thread.
use project_lariat.Prelude.{List, [], ap, arith, refl, subst, sym, ℕ, ◌++◌, ◌∙◌, ◌∷◌, ◌≡◌, ◌≢◌}
use project_lariat.Sched.{Sched, make_ready, pick_next, ready, running, switch_to, thread_yield}
use project_lariat.Sched.Invariant.{IsLinked, IsLoose, Lists, make_ready-IsLinked, with_ready}
use project_lariat.ThreadQueue.{update}
use project_lariat.Sched.Block.{pick_next_none, pick_next_some}

-- The thread that runs next, as the functions that call `pick_next` see it.
yield_switches :
    (s : Sched)
    → s.state s.current ≡ running
    → s.current ≢ s.idle
    → (pick_next (make_ready s s.current)).0 ≢ s.current
    → let (t, s') = pick_next (make_ready s s.current) in thread_yield s ≡ switch_to t s'
unfolding thread_yield
yield_switches s runs ne other = ground arith

yield_stays :
    (s : Sched)
    → s.state s.current ≡ running
    → s.current ≢ s.idle
    → (pick_next (make_ready s s.current)).0 ≡ s.current
    → thread_yield s ≡ (pick_next (make_ready s s.current)).1
unfolding thread_yield
yield_stays s runs ne same = ground arith

yield_drops :
    (s : Sched)
    → s.state s.current ≡ ready
    → (pick_next s).0 ≢ s.current
    → let (t, s') = pick_next s in thread_yield s ≡ switch_to t s'
unfolding thread_yield
yield_drops s waits other = ground arith

pick_next_keeps :
    (s : Sched)
    → ((pick_next s).1.state ≡ s.state)
      × ((pick_next s).1.current ≡ s.current)
      × ((pick_next s).1.idle ≡ s.idle)
unfolding pick_next
pick_next_keeps s = (refl, refl, refl)

make_ready_keeps :
    (s : Sched) (t : ℕ)
    → ((make_ready s t).state ≡ update s.state t ready)
      × ((make_ready s t).current ≡ s.current)
      × ((make_ready s t).idle ≡ s.idle)
unfolding make_ready
make_ready_keeps s t = (refl, refl, refl)

switch_to-IsLinked : (t : ℕ) (s : Sched) (v : Lists) → IsLinked s v → IsLinked (switch_to t s) v
unfolding switch_to
switch_to-IsLinked t s v l = record {
  ready_holds = l.ready_holds;
  wait_holds = l.wait_holds;
  apart = l.apart;
  separate = l.separate;
}

module _ (s : Sched) (v : Lists) (l : IsLinked s v) (loose : IsLoose s.current v) where
  module _ (runs : s.state s.current ≡ running) (ne : s.current ≢ s.idle) where
    -- The lists with the yielding thread at the end of the ready queue.
    queued : IsLinked (make_ready s s.current) (with_ready v s.current)
    queued = make_ready-IsLinked s s.current v l loose

    -- With a thread ready, `thread_yield` runs the oldest ready thread, and the yielding thread is
    -- ready at the end of the queue.
    pub thread_yield_rotates :
        (t : ℕ) (ts : List ℕ)
        → v.ready ≡ t ∷ ts
        → let after = thread_yield s in
          (after.current ≡ t)
          × IsLinked after (record v { ready = ts ++ s.current ∷ [] })
          × (after.state t ≡ running)
          × (after.state s.current ≡ ready)
    unfolding switch_to
    thread_yield_rotates t ts e =
        let q = make_ready s s.current in
        let (picked, linked, _) =
          pick_next_some q (with_ready v s.current) t (ts ++ s.current ∷ []) queued
            (ap (λ r. r ++ s.current ∷ []) e) in
        let other : t ≢ s.current = ground (arith, loose.not_ready, e) in
        let step = yield_switches s runs ne (λ same. other (sym picked ∙ same)) in
        let kept = (pick_next_keeps q).0 ∙ (make_ready_keeps s s.current).0 in
        rw (step, picked)
          (
            refl,
            switch_to-IsLinked t (pick_next q).1 _ linked,
            ground arith,
            rw kept (ground arith),
          )

    -- With no thread ready, `thread_yield` returns to the caller with its state left at ready; the
    -- next `thread_yield` then switches to the idle thread, and the thread is in no queue.
    pub thread_yield_alone :
        v.ready ≡ []
        → let once = thread_yield s in
          let twice = thread_yield once in
          (once.current ≡ s.current)
          × (once.state s.current ≡ ready)
          × (twice.current ≡ s.idle)
          × IsLinked twice v
          × IsLoose s.current v
    unfolding switch_to pick_next
    thread_yield_alone e =
        let q = make_ready s s.current in
        let (picked, linked, free) =
          pick_next_some q (with_ready v s.current) s.current [] queued
            (ap (λ r. r ++ s.current ∷ []) e) in
        let once = (pick_next q).1 in
        let first = yield_stays s runs ne picked in
        let keeps = pick_next_keeps q in
        let made = make_ready_keeps s s.current in
        let here : once.current ≡ s.current = keeps.1 ∙ made.1 in
        let state_kept : once.state s.current ≡ ready = rw (keeps.0, made.0) (ground arith) in
        let linked_v : IsLinked once v =
          subst (λ r. IsLinked once (record v { ready = r })) (sym e) linked in
        let (idle_picked, linked2) = pick_next_none once v linked_v e in
        let idle_kept : once.idle ≡ s.idle = keeps.2 ∙ made.2 in
        let second =
          yield_drops once (rw here state_kept)
            (λ same. ne (sym here ∙ (sym same ∙ (idle_picked ∙ idle_kept)))) in
        rw (first, second)
          (
            here,
            state_kept,
            idle_picked ∙ idle_kept,
            switch_to-IsLinked (pick_next once).0 (pick_next once).1 v linked2,
            loose,
          )
