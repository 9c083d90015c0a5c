-- ===== src/Sched/Sleep.antt =====
-- kernel/sched.c: a thread that goes to sleep.
use project_lariat.Prelude.{
  Bool-cases, List, [], arith, false, inl, inr, none, refl, subst, sym, true, ℕ, ℕ_discrete, ◌%◌,
  ◌+◌, ◌^◌, ◌∙◌, ◌∷◌, ◌≡◌, ◌≢◌,
}
use project_lariat.ThreadQueue.{update}
use project_lariat.ThreadQueue.Chain.{Chain, Chain-update, Distinct, Holds, Holds-update, mem}
use project_lariat.ThreadQueue.Laws.{pop_empty, pop_lem}
use project_lariat.Sched.{Sched, blocked, pick_next, sleeping, switch_to, thread_sleep}
use project_lariat.Sched.Invariant.{IsLinked, IsLoose, Lists}
use project_lariat.Sched.Block.{next_of, next_of-ne, pick_next_lem, rest_of}

-- The sleep list holds `zs`, the thread that slept last first, and none of them is in a queue.
pub record IsAsleep (s : Sched) (v : Lists) (zs : List ℕ) : Type 0 where
  pub chain : Chain s.next s.sleep_list zs
  pub distinct : Distinct zs
  pub off : (t : ℕ) → mem t zs ≡ true → IsLoose t v

IsLoose-rest : (t : ℕ) (v : Lists) → IsLoose t v → IsLoose t (record v { ready = rest_of v.ready })
IsLoose-rest t v l = record { not_ready = fewer v.ready l.not_ready; not_waiting = l.not_waiting }
  where
    fewer : (xs : List ℕ) → mem t xs ≡ false → mem t (rest_of xs) ≡ false
    fewer [] m = refl
    fewer (x ∷ xs) m = ground (arith, m)

not_asleep :
    (t : ℕ) (s : Sched) (v : Lists) (zs : List ℕ)
    → IsAsleep s v zs
    → mem t v.ready ≡ true
    → mem t zs ≡ false
not_asleep t s v zs a m = elim (Bool-cases (mem t zs)) [
  | inl e ↦ cc ((a.off t e).not_ready, m)
  | inr e ↦ e
]

pick_next-Chain :
    (s : Sched) (v : Lists) (zs ready : List ℕ)
    → IsLinked s v
    → IsAsleep s v zs
    → v.ready ≡ ready
    → Chain (pick_next s).1.next s.sleep_list zs
unfolding pick_next
pick_next-Chain s v zs [] l a e =
    rw (pop_empty s.next s.ready_queue (subst (Holds s.next s.ready_queue) e l.ready_holds)) a.chain
pick_next-Chain s v zs (t ∷ ts) l a e =
    let (_, heap, _) =
      pop_lem s.next s.ready_queue t ts (subst (Holds s.next s.ready_queue) e l.ready_holds) in
    let out : mem t zs ≡ false = not_asleep t s v zs a (rw e (ground arith)) in
    rw heap (Chain-update s.next s.sleep_list none t zs out a.chain)

-- The thread goes to the front of the sleep list.
sleeping-IsLinked :
    (now ticks : ℕ) (s : Sched) (v : Lists)
    → IsLinked s v
    → IsLoose s.current v
    → IsLinked (sleeping now ticks s) v
sleeping-IsLinked now ticks s v l loose = record {
  ready_holds =
      Holds-update s.next s.ready_queue s.sleep_list s.current v.ready loose.not_ready
        l.ready_holds;
  wait_holds = λ wq.
      Holds-update s.next (s.queues wq) s.sleep_list s.current (v.waiting wq) (loose.not_waiting wq)
        (l.wait_holds wq);
  apart = l.apart;
  separate = l.separate;
}

sleeping-IsAsleep :
    (now ticks : ℕ) (s : Sched) (v : Lists) (zs : List ℕ)
    → IsLoose s.current v
    → IsAsleep s v zs
    → mem s.current zs ≡ false
    → IsAsleep (sleeping now ticks s) v (s.current ∷ zs)
sleeping-IsAsleep now ticks s v zs loose a m = record {
  chain = (
    refl,
    subst (λ p. Chain (update s.next s.current s.sleep_list) p zs) (ground arith)
        (Chain-update s.next s.sleep_list s.sleep_list s.current zs m a.chain),
  );
  distinct = (m, a.distinct);
  off = λ t h. elim (ℕ_discrete s.current t) [
    | yes e ↦ subst (λ k. IsLoose k v) e loose
    | no ne ↦ a.off t (ground (arith, h))
  ];
}

sleep_switches :
    (now ticks : ℕ) (s : Sched)
    → s.current ≢ s.idle
    → (pick_next (sleeping now ticks s)).0 ≢ s.current
    → let (t, s') = pick_next (sleeping now ticks s) in thread_sleep now ticks s ≡ switch_to t s'
unfolding thread_sleep
sleep_switches now ticks s ne other = ground arith

-- A thread that is in no queue and not the idle thread, and calls `thread_sleep`, is then blocked
-- at the front of the sleep list with the tick to wake at; the oldest ready thread, or else the
-- idle thread, runs, and no wait queue has changed.
pub thread_sleep_lem :
    (now ticks : ℕ) (s : Sched) (v : Lists) (zs : List ℕ)
    → IsLinked s v
    → IsLoose s.current v
    → IsAsleep s v zs
    → mem s.current zs ≡ false
    → s.current ≢ s.idle
    → let after = thread_sleep now ticks s in
      let left = record v { ready = rest_of v.ready } in
      (after.current ≡ next_of s.idle v.ready)
      × IsLinked after left
      × IsAsleep after left (s.current ∷ zs)
      × (after.state s.current ≡ blocked)
      × (after.wakeup_tick s.current ≡ (now + ticks) % 2 ^ 64)
unfolding switch_to pick_next
thread_sleep_lem now ticks s v zs l loose a m ne =
    let s1 = sleeping now ticks s in
    let l1 = sleeping-IsLinked now ticks s v l loose in
    let a1 = sleeping-IsAsleep now ticks s v zs loose a m in
    let (picked, linked) = pick_next_lem s1 v v.ready l1 refl in
    let other = next_of-ne s.idle s.current v.ready ne loose.not_ready in
    let other' : (pick_next s1).0 ≢ s.current = λ e. other (sym picked ∙ e) in
    rw (sleep_switches now ticks s ne other') (
      picked,
      record {
        ready_holds = linked.ready_holds;
        wait_holds = linked.wait_holds;
        apart = linked.apart;
        separate = linked.separate;
      },
      record {
        chain = pick_next-Chain s1 v (s.current ∷ zs) v.ready l1 a1 refl;
        distinct = a1.distinct;
        off = λ t h. IsLoose-rest t v (a1.off t h);
      },
      ground (arith, other'),
      ground arith,
    )
