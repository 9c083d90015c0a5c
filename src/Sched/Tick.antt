-- ===== src/Sched/Tick.antt =====
-- kernel/sched.c: the timer tick wakes the threads whose tick has come.
use project_lariat.Prelude.{
  Bool-cases, List, Option, [], ap, append-nil, append_assoc, arith, false, inl, inr, leb, length,
  none, refl, some, subst, suc, sym, true, zero, ℕ, ◌++◌, ◌<◌, ◌∙◌, ◌∷◌, ◌≡◌, ◌≢◌,
}
use project_lariat.ThreadQueue.Chain.{Chain, mem, mem-append}
use project_lariat.Sched.{Sched, skip_sleeper, sleeper, wake_sleepers}
use project_lariat.Sched.Invariant.{IsLinked, IsLoose, Lists, with_ready}
use project_lariat.Sched.Sleepers.{
  Loop, Woken, make_ready-next, make_ready_rest, skip-IsLinked, woken-Loop, woken_at,
}
use project_lariat.Sched.Due.{Distinct-staying, due, due_later, due_now, staying, staying-off}
use project_lariat.Sched.Sleep.{IsAsleep}

module _ (fuel now : ℕ) (before : Option ℕ) (s : Sched) where
  step_end : sleeper s before ≡ none → wake_sleepers (suc fuel) now before s ≡ some s
  unfolding wake_sleepers
  step_end e = rw (e, wake_sleepers) refl

  step_due :
      (y : ℕ)
      → sleeper s before ≡ some y
      → leb (s.wakeup_tick y) now ≡ true
      → wake_sleepers (suc fuel) now before s ≡ wake_sleepers fuel now before (woken_at s before y)
  unfolding wake_sleepers
  step_due y e d = rw (e, wake_sleepers) (ground (arith, d))

  step_pass :
      (y : ℕ)
      → sleeper s before ≡ some y
      → leb (s.wakeup_tick y) now ≡ false
      → wake_sleepers (suc fuel) now before s ≡ wake_sleepers fuel now (some y) s
  unfolding wake_sleepers
  step_pass y e d = rw (e, wake_sleepers) (ground (arith, d))

skip_keeps :
    (s : Sched) (before : Option ℕ) (y : ℕ)
    → ((skip_sleeper s before y).wakeup_tick ≡ s.wakeup_tick)
      × ((b : ℕ) → before ≡ some b → (skip_sleeper s before y).sleep_list ≡ s.sleep_list)
      × ((z : ℕ) → before ≢ some z → (skip_sleeper s before y).next z ≡ s.next z)
skip_keeps s none y = (refl, (λ b e. cc), (λ z ne. refl))
skip_keeps s (some b) y = (refl, (λ c e. refl), (λ z ne. ground arith))

Woken-due :
    (now : ℕ) (s s' : Sched) (v : Lists) (before : Option ℕ) (y : ℕ) (ys : List ℕ)
    → Loop s v before (y ∷ ys)
    → leb (s.wakeup_tick y) now ≡ true
    → Woken now (woken_at s before y) (with_ready v y) before ys s'
    → Woken now s v before (y ∷ ys) s'
Woken-due now s s' v before y ys w d r =
    let skip = skip_sleeper s before y in
    let (same_tick, same_head, same_next) = skip_keeps s before y in
    let made = make_ready_rest skip y in
    let tick : (woken_at s before y).wakeup_tick ≡ s.wakeup_tick = made.1 ∙ same_tick in
    let (stay, wakes) = due_now now s.wakeup_tick y ys d in
    record {
      chain =
          subst (Chain s'.next (sleeper s' before)) (ap (λ t. staying now t ys) tick ∙ sym stay)
            r.chain;
      head = λ b e. r.head b e ∙ (made.0 ∙ same_head b e);
      linked =
          subst (λ q. IsLinked s' (record v { ready = q }))
            (append_assoc v.ready (y ∷ []) (due now (woken_at s before y).wakeup_tick ys)
              ∙ (ap (λ t. v.ready ++ y ∷ due now t ys) tick ∙ ap (λ q. v.ready ++ q) (sym wakes)))
            r.linked;
      frame = λ z out away ne.
          r.frame z (ground (arith, out)) (ground (arith, mem-append z v.ready (y ∷ []), out, away))
            ne
          ∙ (make_ready-next skip v y z (skip-IsLinked s v before y ys w) away (ground (arith, out))
              ∙ same_next z ne);
    }

Woken-pass :
    (now : ℕ) (s s' : Sched) (v : Lists) (before : Option ℕ) (y : ℕ) (ys : List ℕ)
    → Loop s v before (y ∷ ys)
    → leb (s.wakeup_tick y) now ≡ false
    → Woken now s v (some y) ys s'
    → Woken now s v before (y ∷ ys) s'
Woken-pass now s s' v before y ys w d r =
    let (stay, wakes) = due_later now s.wakeup_tick y ys d in
    record {
      chain = subst (Chain s'.next (sleeper s' before)) (sym stay) (ends before w, r.chain);
      head = λ b e. r.head y refl;
      linked = subst (λ q. IsLinked s' (record v { ready = v.ready ++ q })) (sym wakes) r.linked;
      frame = λ z out away ne. r.frame z (ground (arith, out)) away (λ e. ground (arith, out, e));
    }
  where
    ends : (p : Option ℕ) → Loop s v p (y ∷ ys) → sleeper s' p ≡ some y
    ends none k = r.head y refl ∙ k.chain.0
    ends (some b) k =
        let (loose, out) = k.fresh b refl in
        r.frame b (ground (arith, out)) loose.not_ready (λ e. ground (arith, out, e)) ∙ k.chain.0

passed-Loop :
    (s : Sched) (v : Lists) (before : Option ℕ) (y : ℕ) (ys : List ℕ)
    → Loop s v before (y ∷ ys)
    → Loop s v (some y) ys
passed-Loop s v before y ys w = record {
  linked = w.linked;
  chain = w.chain.1;
  distinct = w.distinct.1;
  off = λ t h. w.off t (ground (arith, h));
  fresh = λ b e.
      let same : y ≡ b = ground (arith, e) in
      subst (λ k. IsLoose k v × (mem k ys ≡ false)) same (w.off y (ground arith), w.distinct.0);
}

wake_sleepers-Woken :
    (fuel now : ℕ) (s : Sched) (v : Lists) (before : Option ℕ) (ys : List ℕ)
    → Loop s v before ys
    → length ys < fuel
    → (s' : Sched) × (wake_sleepers fuel now before s ≡ some s') × Woken now s v before ys s'
wake_sleepers-Woken zero now s v before ys w h = elim h [ ]
wake_sleepers-Woken (suc fuel) now s v before [] w h = (
  s,
  step_end fuel now before s w.chain,
  record {
    chain = w.chain;
    head = λ b e. refl;
    linked = subst (λ q. IsLinked s (record v { ready = q })) (sym (append-nil v.ready)) w.linked;
    frame = λ z out away ne. refl;
  },
)
wake_sleepers-Woken (suc fuel) now s v before (y ∷ ys) w h =
    elim (Bool-cases (leb (s.wakeup_tick y) now)) [
      | inl d ↦
          let (s', found, r) =
            wake_sleepers-Woken fuel now (woken_at s before y) (with_ready v y) before ys
              (woken-Loop s v before y ys w) (omega (arith, h)) in
          (
            s',
            step_due fuel now before s y w.chain.0 d ∙ found,
            Woken-due now s s' v before y ys w d r,
          )
      | inr d ↦
          let (s', found, r) =
            wake_sleepers-Woken fuel now s v (some y) ys (passed-Loop s v before y ys w)
              (omega (arith, h)) in
          (
            s',
            step_pass fuel now before s y w.chain.0 d ∙ found,
            Woken-pass now s s' v before y ys w d r,
          )
    ]

-- With fuel for the sleeping threads, the loop of the timer tick ends; it moves the threads whose
-- tick has come, in the order of the sleep list, to the end of the ready queue, and the others
-- sleep on in their order.
pub wake_sleepers_lem :
    (fuel now : ℕ) (s : Sched) (v : Lists) (zs : List ℕ)
    → IsLinked s v
    → IsAsleep s v zs
    → length zs < fuel
    → let after = record v { ready = v.ready ++ due now s.wakeup_tick zs } in
      (s' : Sched) × (wake_sleepers fuel now none s ≡ some s')
      × IsLinked s' after
      × IsAsleep s' after (staying now s.wakeup_tick zs)
wake_sleepers_lem fuel now s v zs l a enough =
    let (s', found, r) =
      wake_sleepers-Woken fuel now s v none zs
        (record {
          linked = l;
          chain = a.chain;
          distinct = a.distinct;
          off = a.off;
          fresh = λ b e. absurd (ground (arith, e));
        })
        enough in
    (
      s',
      found,
      r.linked,
      record {
        chain = r.chain;
        distinct = Distinct-staying now s.wakeup_tick zs a.distinct;
        off = λ t h. staying-off now s.wakeup_tick v zs t a.off h;
      },
    )
