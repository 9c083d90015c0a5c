-- ===== src/Sched/Wake.antt =====
-- kernel/sched.c: the wake-ups move the oldest waiters, in order, to the end of the ready queue.
use project_lariat.Prelude.{
  List, [], append-nil, append_assoc, arith, drop, fun_ext, length, min, refl, subst, suc, sym,
  take, zero, ℕ, ℕ_discrete, ◌++◌, ◌+◌, ◌∷◌, ◌≡◌,
}
use project_lariat.ThreadQueue.{update}
use project_lariat.Sched.{Sched, pop_waiter, sched_wq_wake_n, wake, wake_n_from}
use project_lariat.Sched.Invariant.{
  IsLinked, Lists, pop_waiter-none, pop_waiter-some, wake-IsLinked, with_ready, with_waiters,
}

-- The lists after `n` of the waiters `ws` of the queue were woken.
abbrev pub woken : ℕ → ℕ → List ℕ → Lists → Lists
woken wq n ws v = record { ready = v.ready ++ take n ws; waiting = update v.waiting wq (drop n ws) }

IsLinked-ext :
    (s : Sched) (v w : Lists)
    → v.ready ≡ w.ready
    → ((p : ℕ) → v.waiting p ≡ w.waiting p)
    → IsLinked s v
    → IsLinked s w
IsLinked-ext s v w e f l =
    let g : v.waiting ≡ w.waiting = fun_ext f in
    subst (IsLinked s) (λ i. record { ready = e i; waiting = g i }) l

update_self : (f : ℕ → List ℕ) (k : ℕ) (xs : List ℕ) → f k ≡ xs → (p : ℕ) → f p ≡ update f k xs p
update_self f k xs e p = elim (ℕ_discrete k p) [
  | yes same ↦ rw (← same) (ground (arith, e))
  | no other ↦ ground arith
]

update_twice :
    (f : ℕ → List ℕ) (k : ℕ) (xs ys : List ℕ) (p : ℕ)
    → update (update f k xs) k ys p ≡ update f k ys p
update_twice f k xs ys p = ground arith

wake_n_from-lem :
    (wq n woke : ℕ) (s : Sched) (v : Lists) (ws : List ℕ)
    → IsLinked s v
    → v.waiting wq ≡ ws
    → let (count, s') = wake_n_from wq n woke s in
      (count ≡ woke + min n (length ws)) × IsLinked s' (woken wq n ws v)
unfolding wake_n_from
wake_n_from-lem wq zero woke s v ws l e =
    (omega arith, IsLinked-ext s v _ (sym (append-nil v.ready)) (update_self v.waiting wq ws e) l)
wake_n_from-lem wq (suc n) woke s v [] l e =
    let (popped, linked) = pop_waiter-none s v l wq e in
    rw (popped, wake_n_from)
      (
        omega arith,
        IsLinked-ext _ v _ (sym (append-nil v.ready)) (update_self v.waiting wq [] e) linked,
      )
wake_n_from-lem wq (suc n) woke s v (t ∷ ts) l e =
    let (popped, linked, loose) = pop_waiter-some s v l wq t ts e in
    let s1 = wake (pop_waiter s wq).1 t in
    let v1 = with_ready (with_waiters v wq ts) t in
    let (count, rest) =
      wake_n_from-lem wq n (woke + 1) s1 v1 ts (wake-IsLinked _ t _ linked loose) (ground arith) in
    rw (popped, wake_n_from)
      (
        omega (arith, count),
        IsLinked-ext _ (woken wq n ts v1) _ (append_assoc v.ready (t ∷ []) (take n ts))
            (update_twice v.waiting wq ts (drop n ts)) rest,
      )

-- `sched_wq_wake_n` wakes as many of the waiters as there are, at most `n`, oldest first: they go
-- in order to the end of the ready queue, and the other waiters keep their order.
pub sched_wq_wake_n_lem :
    (wq n : ℕ) (s : Sched) (v : Lists)
    → IsLinked s v
    → let (count, s') = sched_wq_wake_n wq n s in
      (count ≡ min n (length (v.waiting wq))) × IsLinked s' (woken wq n (v.waiting wq) v)
unfolding sched_wq_wake_n
sched_wq_wake_n_lem wq n s v l =
    let (count, linked) = wake_n_from-lem wq n 0 s v (v.waiting wq) l refl in
    (omega (arith, count), linked)
