-- ===== src/Sched/Sleepers.antt =====
-- kernel/sched.c: the loop of the timer tick over the sleep list, and one round that wakes a thread.
use project_lariat.Prelude.{
  List, Option, Option-cases, [], arith, false, inl, inr, none, refl, some, subst, sym, true, ℕ,
  ◌++◌, ◌∙◌, ◌∷◌, ◌≡◌, ◌≢◌,
}
use project_lariat.ThreadQueue.{Heap, Queue, queue_push}
use project_lariat.ThreadQueue.Chain.{
  Chain, Chain-update, Distinct, Holds, Holds-update, mem, mem-append,
}
use project_lariat.ThreadQueue.Laws.{mem-last}
use project_lariat.Sched.Due.{due, staying}
use project_lariat.Sched.{Sched, make_ready, skip_sleeper, sleeper}
use project_lariat.Sched.Invariant.{IsLinked, IsLoose, Lists, make_ready-IsLinked, with_ready}

-- Where the loop has come to: from the pointer after `before` lead the threads `ys`.
pub record Loop (s : Sched) (v : Lists) (before : Option ℕ) (ys : List ℕ) : Type 0 where
  pub linked : IsLinked s v
  pub chain : Chain s.next (sleeper s before) ys
  pub distinct : Distinct ys
  pub off : (t : ℕ) → mem t ys ≡ true → IsLoose t v
  pub fresh : (b : ℕ) → before ≡ some b → IsLoose b v × (mem b ys ≡ false)

-- What the rest of the loop does from there.
pub record Woken (now : ℕ) (s : Sched) (v : Lists) (before : Option ℕ) (ys : List ℕ) (s' : Sched)
    : Type 0 where
  pub chain : Chain s'.next (sleeper s' before) (staying now s.wakeup_tick ys)
  pub head : (b : ℕ) → before ≡ some b → s'.sleep_list ≡ s.sleep_list
  pub linked : IsLinked s' (record v { ready = v.ready ++ due now s.wakeup_tick ys })
  pub frame :
      (z : ℕ) → mem z ys ≡ false → mem z v.ready ≡ false → before ≢ some z → s'.next z ≡ s.next z

Chain-same :
    (m n : Heap) (p : Option ℕ) (xs : List ℕ)
    → ((z : ℕ) → mem z xs ≡ true → m z ≡ n z)
    → Chain n p xs
    → Chain m p xs
Chain-same m n p [] e c = c
Chain-same m n p (x ∷ xs) e c = (
  c.0,
  subst (λ q. Chain m q xs) (sym (e x (ground arith)))
      (Chain-same m n (n x) xs (λ z h. e z (ground (arith, h))) c.1),
)

-- A push leaves the pointers of the threads outside the queue.
push_keeps :
    (next : Heap) (q : Queue) (t z : ℕ) (xs : List ℕ)
    → Holds next q xs
    → mem z xs ≡ false
    → t ≢ z
    → (queue_push next q t).0 z ≡ next z
unfolding queue_push
push_keeps next q t z xs h m ne = elim (Option-cases q.tail) [
  | inl e ↦ rw e (ground arith)
  | inr (l, e) ↦ rw e (ground (arith, mem-last xs l (sym h.end ∙ e)))
]

pub make_ready-next :
    (s : Sched) (v : Lists) (t z : ℕ)
    → IsLinked s v
    → mem z v.ready ≡ false
    → t ≢ z
    → (make_ready s t).next z ≡ s.next z
unfolding make_ready
make_ready-next s v t z l m ne = push_keeps s.next s.ready_queue t z v.ready l.ready_holds m ne

pub make_ready_rest :
    (s : Sched) (t : ℕ)
    → ((make_ready s t).sleep_list ≡ s.sleep_list) × ((make_ready s t).wakeup_tick ≡ s.wakeup_tick)
unfolding make_ready
make_ready_rest s t = (refl, refl)

pub skip-IsLinked :
    (s : Sched) (v : Lists) (before : Option ℕ) (y : ℕ) (ys : List ℕ)
    → Loop s v before (y ∷ ys)
    → IsLinked (skip_sleeper s before y) v
skip-IsLinked s v none y ys w = record {
  ready_holds = w.linked.ready_holds;
  wait_holds = w.linked.wait_holds;
  apart = w.linked.apart;
  separate = w.linked.separate;
}
skip-IsLinked s v (some b) y ys w =
    let (loose, _) = w.fresh b refl in
    record {
      ready_holds =
          Holds-update s.next s.ready_queue (s.next y) b v.ready loose.not_ready
            w.linked.ready_holds;
      wait_holds = λ wq.
          Holds-update s.next (s.queues wq) (s.next y) b (v.waiting wq) (loose.not_waiting wq)
            (w.linked.wait_holds wq);
      apart = w.linked.apart;
      separate = w.linked.separate;
    }

skip-Chain :
    (s : Sched) (v : Lists) (before : Option ℕ) (y : ℕ) (ys : List ℕ)
    → Loop s v before (y ∷ ys)
    → Chain (skip_sleeper s before y).next (s.next y) ys
skip-Chain s v none y ys w = w.chain.1
skip-Chain s v (some b) y ys w =
    let (_, out) = w.fresh b refl in
    Chain-update s.next (s.next y) (s.next y) b ys (ground (arith, out)) w.chain.1

-- The thread after `before` is made ready.
abbrev pub woken_at : Sched → Option ℕ → ℕ → Sched
woken_at s before y = make_ready (skip_sleeper s before y) y

woken-sleeper :
    (s : Sched) (v : Lists) (before : Option ℕ) (y : ℕ) (ys : List ℕ)
    → Loop s v before (y ∷ ys)
    → sleeper (woken_at s before y) before ≡ s.next y
woken-sleeper s v none y ys w = (make_ready_rest (skip_sleeper s none y) y).0
woken-sleeper s v (some b) y ys w =
    let (loose, out) = w.fresh b refl in
    make_ready-next (skip_sleeper s (some b) y) v y b (skip-IsLinked s v (some b) y ys w)
      loose.not_ready (ground (arith, out))
    ∙ ground arith

pub woken-Loop :
    (s : Sched) (v : Lists) (before : Option ℕ) (y : ℕ) (ys : List ℕ)
    → Loop s v before (y ∷ ys)
    → Loop (woken_at s before y) (with_ready v y) before ys
woken-Loop s v before y ys w =
    let skip = skip_sleeper s before y in
    let linked = skip-IsLinked s v before y ys w in
    let grown : (t : ℕ) → IsLoose t v → y ≢ t → IsLoose t (with_ready v y) = λ t l ne. record {
      not_ready = ground (arith, mem-append t v.ready (y ∷ []), l.not_ready);
      not_waiting = l.not_waiting;
    } in
    record {
      linked = make_ready-IsLinked skip y v linked (w.off y (ground arith));
      chain =
          subst (λ p. Chain (woken_at s before y).next p ys) (sym (woken-sleeper s v before y ys w))
            (Chain-same (woken_at s before y).next skip.next (s.next y) ys
              (λ z h.
                make_ready-next skip v y z linked (w.off z (ground (arith, h))).not_ready
                  (ground (arith, h, w.distinct.0)))
              (skip-Chain s v before y ys w));
      distinct = w.distinct.1;
      off = λ t h. grown t (w.off t (ground (arith, h))) (ground (arith, h, w.distinct.0));
      fresh = λ b e.
          let (loose, out) = w.fresh b e in
          (grown b loose (ground (arith, out)), ground (arith, out));
    }
