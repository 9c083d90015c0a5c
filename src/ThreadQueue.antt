-- ===== src/ThreadQueue.antt =====
-- kernel/sched.c, the queue helpers: singly linked queues of threads through the one field
-- `next` of a thread. A thread is its address, a number; `next` is the heap of that field.
pub mod Chain
pub mod Laws
pub mod Remove
mod Tests
use project_lariat.Prelude.{Option, if◌then◌else◌, none, some, suc, zero, ℕ, ◌==◌}

abbrev pub Heap : Type 0
Heap = ℕ → Option ℕ

abbrev pub update {ℓ} : {A : Type ℓ} → (ℕ → A) → ℕ → A → ℕ → A
update f p v q = if p == q then v else f q

-- The two ends of a queue, `wait_queue_t` among them.
pub record Queue : Type 0 where
  pub head : Option ℕ
  pub tail : Option ℕ

abbrev pub empty_queue : Queue
empty_queue = record { head = none; tail = none }

unfoldable pub queue_push : Heap → Queue → ℕ → Heap × Queue
queue_push next q t = elim q.tail [
  | none ↦ (update next t none, record { head = some t; tail = some t })
  | some last ↦ (update (update next t none) last (some t), record q { tail = some t })
]

-- A queue whose head is null has its tail reset.
abbrev pub tail_after : Option ℕ → Option ℕ → Option ℕ
tail_after none tail = none
tail_after (some t) tail = tail

unfoldable pub queue_pop : Heap → Queue → Option ℕ × Heap × Queue
queue_pop next q = elim q.head [
  | none ↦ (none, next, q)
  | some t ↦
      (some t, update next t none, record { head = next t; tail = tail_after (next t) q.tail })
]

-- `*pp`, where `pp` is `head` (no thread before) or the field `next` of the thread before.
abbrev pub pointee : Heap → Queue → Option ℕ → Option ℕ
pointee next q none = q.head
pointee next q (some before) = next before

-- The body of the loop of `queue_remove` at the thread.
unfoldable pub unlink : Heap → Queue → Option ℕ → ℕ → Heap × Queue
unlink next q none t =
    (update next t none, record { head = next t; tail = tail_after (next t) q.tail })
unlink next q (some before) t =
    (update (update next before (next t)) t none, record q { tail = tail_after (next t) q.tail })

-- The loop of `queue_remove` with fuel for the threads of the queue; `none` means that the fuel
-- ran out.
unfoldable pub remove_from : ℕ → Heap → Queue → Option ℕ → ℕ → Option (Heap × Queue)
unfolding unlink
remove_from zero next q before t = none
remove_from (suc fuel) next q before t = elim (pointee next q before) [
  | none ↦ some (next, q)
  | some x ↦
      let rest = remove_from fuel next q (some x) t in
      if x == t then some (unlink next q before t) else rest
]

unfoldable pub queue_remove : ℕ → Heap → Queue → ℕ → Option (Heap × Queue)
unfolding remove_from
queue_remove fuel next q t = remove_from fuel next q none t
