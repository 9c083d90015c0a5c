-- ===== src/ThreadQueue/Tests.antt =====
-- kernel/sched.c: a queue of three threads.
use project_lariat.Prelude.{[], arith, none, refl, some, ◌∷◌, ◌≡◌}
use project_lariat.ThreadQueue.{
  Heap, Queue, queue_pop, queue_push, queue_remove, remove_from, unlink, update,
}
use project_lariat.ThreadQueue.Chain.{Chain, Holds}
use project_lariat.ThreadQueue.Remove.{queue_remove_lem}

-- The threads 1, 2 and 3.
abbrev links : Heap
links = update (update (update (λ t. none) 2 (some 3)) 1 (some 2)) 3 none

abbrev three : Queue
three = record { head = some 1; tail = some 3 }

three-Holds : Holds links three (1 ∷ 2 ∷ 3 ∷ [])
three-Holds = record {
  chain = (refl, (refl, (refl, refl)));
  end = refl;
  distinct = (refl, (refl, (refl, tt)));
}

two_left : queue_remove 4 links three 2 ≡ some (unlink links three (some 1) 2)
unfolding queue_remove remove_from unlink
two_left = refl

popped : (queue_pop links three).0 ≡ some 1
unfolding queue_pop
popped = refl

pushed : (queue_push links three 4).1 ≡ record { head = some 1; tail = some 4 }
unfolding queue_push
pushed = refl

queue_remove_lem_example :
    (r : Heap × Queue) × (queue_remove 4 links three 2 ≡ some r)
    × Chain r.0 r.1.head (1 ∷ 3 ∷ [])
    × (r.0 9 ≡ none)
    × (r.1.tail ≡ some 3)
queue_remove_lem_example =
    queue_remove_lem 4 links three 2 (1 ∷ 2 ∷ 3 ∷ []) three-Holds refl (omega arith) 9 refl
