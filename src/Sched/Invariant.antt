-- ===== src/Sched/Invariant.antt =====
-- kernel/sched.c: which threads the ready queue and the wait queues hold.
use project_lariat.Prelude.{
  Bool-cases, List, [], arith, false, inl, inr, none, refl, some, subst, true, ℕ, ◌++◌, ◌==◌, ◌∷◌,
  ◌≡◌, ◌≢◌,
}
use project_lariat.ThreadQueue.{Queue, queue_pop, update}
use project_lariat.ThreadQueue.Chain.{Holds, Holds-update, mem, mem-append}
use project_lariat.ThreadQueue.Laws.{Apart, pop_empty, pop_lem, push_frame, push_lem}
use project_lariat.Sched.{Sched, make_ready, pop_waiter, wake}

-- The queues as lists, oldest first.
pub record Lists : Type 0 where
  pub ready : List ℕ
  pub waiting : ℕ → List ℕ

-- The pointers hold these lists, and no thread is in two of them.
pub record IsLinked (s : Sched) (v : Lists) : Type 0 where
  pub ready_holds : Holds s.next s.ready_queue v.ready
  pub wait_holds : (wq : ℕ) → Holds s.next (s.queues wq) (v.waiting wq)
  pub apart : (wq : ℕ) → Apart v.ready (v.waiting wq)
  pub separate : (p q : ℕ) → p ≢ q → Apart (v.waiting p) (v.waiting q)

-- The thread is in no queue.
pub record IsLoose (t : ℕ) (v : Lists) : Type 0 where
  pub not_ready : mem t v.ready ≡ false
  pub not_waiting : (wq : ℕ) → mem t (v.waiting wq) ≡ false

pub Apart-sym : (xs ys : List ℕ) → Apart xs ys → Apart ys xs
Apart-sym xs ys a t m = elim (Bool-cases (mem t xs)) [ inl e ↦ cc (a t e) | inr e ↦ e ]

abbrev pub with_ready : Lists → ℕ → Lists
with_ready v t = record v { ready = v.ready ++ t ∷ [] }

abbrev pub with_waiters : Lists → ℕ → List ℕ → Lists
with_waiters v wq xs = record v { waiting = update v.waiting wq xs }

-- Making a loose thread ready puts it at the end of the ready queue.
pub make_ready-IsLinked :
    (s : Sched) (t : ℕ) (v : Lists)
    → IsLinked s v
    → IsLoose t v
    → IsLinked (make_ready s t) (with_ready v t)
unfolding make_ready
make_ready-IsLinked s t v l loose = record {
  ready_holds = push_lem s.next s.ready_queue t v.ready l.ready_holds loose.not_ready;
  wait_holds = λ wq.
      push_frame s.next s.ready_queue t v.ready l.ready_holds (s.queues wq) (v.waiting wq)
        (l.wait_holds wq) (loose.not_waiting wq) (l.apart wq);
  apart =
      λ wq x m. ground (arith, mem-append x v.ready (t ∷ []), l.apart wq x, loose.not_waiting wq);
  separate = l.separate;
}

pub wake-IsLinked :
    (s : Sched) (t : ℕ) (v : Lists)
    → IsLinked s v
    → IsLoose t v
    → IsLinked (wake s t) (with_ready v t)
unfolding wake
wake-IsLinked s t v l loose =
    make_ready-IsLinked _ t v
      (record {
        ready_holds = l.ready_holds;
        wait_holds = l.wait_holds;
        apart = l.apart;
        separate = l.separate;
      })
      loose

-- Two maps that are updated at one place, related at every place.
pub update_related {ℓ κ ι} :
    {A : Type ℓ} {B : Type κ} (P : A → B → Type ι) (f : ℕ → A) (g : ℕ → B) (k : ℕ) (a : A) (b : B)
    → P a b
    → ((p : ℕ) → k ≢ p → P (f p) (g p))
    → (p : ℕ) → P (update f k a p) (update g k b p)
update_related P f g k a b here there p = elim (Bool-cases (k == p)) [
  | inl e ↦ rw e here
  | inr e ↦ rw e (there p (ground arith))
]

pub update_all {ℓ κ} :
    {A : Type ℓ} (P : A → Type κ) (f : ℕ → A) (k : ℕ) (a : A)
    → P a
    → ((p : ℕ) → k ≢ p → P (f p))
    → (p : ℕ) → P (update f k a p)
update_all P f k a here there p = elim (Bool-cases (k == p)) [
  | inl e ↦ rw e here
  | inr e ↦ rw e (there p (ground arith))
]

module _ (s : Sched) (v : Lists) (l : IsLinked s v) (wq : ℕ) where
  -- Popping from an empty wait queue changes nothing that is linked.
  pub pop_waiter-none :
      v.waiting wq ≡ [] → ((pop_waiter s wq).0 ≡ none) × IsLinked (pop_waiter s wq).1 v
  unfolding pop_waiter
  pop_waiter-none e =
      rw (pop_empty s.next (s.queues wq) (subst (Holds s.next (s.queues wq)) e (l.wait_holds wq))) (
        refl,
        record {
          ready_holds = l.ready_holds;
          wait_holds = λ p. elim (Bool-cases (wq == p)) [
            | inl same ↦ rw same (
                subst (λ k. Holds s.next (s.queues wq) (v.waiting k)) (ground arith)
                  (l.wait_holds wq))
            | inr other ↦ rw other (l.wait_holds p)
          ];
          apart = l.apart;
          separate = l.separate;
        },
      )

  -- The oldest waiter is then in no queue.
  pub pop_waiter-some :
      (t : ℕ) (xs : List ℕ)
      → v.waiting wq ≡ t ∷ xs
      → ((pop_waiter s wq).0 ≡ some t)
        × IsLinked (pop_waiter s wq).1 (with_waiters v wq xs)
        × IsLoose t (with_waiters v wq xs)
  unfolding pop_waiter
  pop_waiter-some t xs e =
      let h : Holds s.next (s.queues wq) (t ∷ xs) =
        subst (Holds s.next (s.queues wq)) e (l.wait_holds wq) in
      let between : (p r x : ℕ) → p ≢ r → mem x (v.waiting p) ≡ true → mem x (v.waiting r) ≡ false =
        λ p r x ne. l.separate p r ne x in
      let (popped, heap, rest) = pop_lem s.next (s.queues wq) t xs h in
      let first : mem t (v.waiting wq) ≡ true = rw e (ground arith) in
      let fewer : (x : ℕ) → mem x xs ≡ true → mem x (v.waiting wq) ≡ true =
        λ x m. rw e (ground arith) in
      let away : (r : Queue) (ys : List ℕ)
          → Holds s.next r ys
          → mem t ys ≡ false
          → Holds (queue_pop s.next (s.queues wq)).1 r ys =
        λ r ys k m. rw heap (Holds-update s.next r none t ys m k) in
      (
        popped,
        record {
          ready_holds =
              away s.ready_queue v.ready l.ready_holds
                (Apart-sym v.ready (v.waiting wq) (l.apart wq) t first);
          wait_holds =
              update_related (Holds (queue_pop s.next (s.queues wq)).1) s.queues v.waiting wq
                (queue_pop s.next (s.queues wq)).2 xs rest
                (λ p ne.
                  away (s.queues p) (v.waiting p) (l.wait_holds p) (l.separate wq p ne t first));
          apart =
              update_all (Apart v.ready) v.waiting wq xs
                (λ x m. ground (arith, fewer x, l.apart wq x)) (λ p ne. l.apart p);
          separate =
              λ p r ne x m. ground (arith, fewer x, between p r x, between wq r x, between p wq x);
        },
        record {
          not_ready = Apart-sym v.ready (v.waiting wq) (l.apart wq) t first;
          not_waiting =
              update_all (λ ys. mem t ys ≡ false) v.waiting wq xs h.distinct.0
                (λ p ne. l.separate wq p ne t first);
        },
      )
