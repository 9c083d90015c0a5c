-- ===== src/ThreadQueue/Remove.antt =====
-- kernel/sched.c: `queue_remove` takes a thread out of the middle of a queue. Its reset of the tail
-- is right only where the thread is not the last of several.
use project_lariat.Prelude.{
  Bool, List, Option, Option-cases, [], ap, arith, false, if◌then◌else◌, inl, inr, length, none,
  refl, some, subst, suc, sym, true, zero, ℕ, ℕ_discrete, ◌<◌, ◌==◌, ◌∙◌, ◌∷◌, ◌≡◌, ◌≢◌,
}
use project_lariat.ThreadQueue.{
  Heap, Queue, pointee, queue_push, queue_remove, remove_from, tail_after, unlink, update,
}
use project_lariat.ThreadQueue.Chain.{Chain, Chain-update, Distinct, Holds, last?, mem}
use project_lariat.ThreadQueue.Laws.{mem-last}

abbrev pub erase : ℕ → List ℕ → List ℕ
erase t [] = []
erase t (x ∷ xs) = if x == t then xs else x ∷ erase t xs

abbrev pub is_some_of : ℕ → Option ℕ → Bool
is_some_of t none = false
is_some_of t (some l) = l == t

abbrev pub ends_with : ℕ → List ℕ → Bool
ends_with t xs = is_some_of t (last? xs)

-- The thread that `before` points at is none of the list.
abbrev Fresh : Option ℕ → List ℕ → Type 0
Fresh none ys = Unit {0}
Fresh (some b) ys = mem b ys ≡ false

-- After the loop went on from `before`, where the rest of the queue was `ys`.
record Removed (next : Heap) (q : Queue) (before : Option ℕ) (t : ℕ) (ys : List ℕ)
    (r : Heap × Queue) : Type 0 where
  chain : Chain r.0 (pointee r.0 r.1 before) (erase t ys)
  head : (b : ℕ) → before ≡ some b → r.1.head ≡ q.head
  frame : (z : ℕ) → mem z ys ≡ false → before ≢ some z → r.0 z ≡ next z
  tail : r.1.tail ≡ (if ends_with t ys then none else q.tail)

erase_head : (t : ℕ) (zs : List ℕ) → erase t (t ∷ zs) ≡ zs
erase_head t zs = ground arith

erase_other : (t x : ℕ) (xs : List ℕ) → x ≢ t → erase t (x ∷ xs) ≡ x ∷ erase t xs
erase_other t x xs h = ground arith

tail_of_unlink :
    (next : Heap) (tail : Option ℕ) (t : ℕ) (zs : List ℕ)
    → Chain next (next t) zs
    → mem t zs ≡ false
    → tail_after (next t) tail ≡ (if ends_with t (t ∷ zs) then none else tail)
tail_of_unlink next tail t [] c m = ground arith
tail_of_unlink next tail t (z ∷ zs) c m = elim (Option-cases (last? (z ∷ zs))) [
  | inl e ↦ ground (arith, c.0)
  | inr (l, e) ↦ ground (arith, c.0, mem-last (z ∷ zs) l e)
]

unlink-Removed :
    (next : Heap) (q : Queue) (before : Option ℕ) (t : ℕ) (zs : List ℕ)
    → Chain next (next t) zs
    → Distinct (t ∷ zs)
    → Fresh before (t ∷ zs)
    → Removed next q before t (t ∷ zs) (unlink next q before t)
unfolding unlink
unlink-Removed next q none t zs c d f = record {
  chain = subst (Chain _ _) (sym (erase_head t zs)) (Chain-update next (next t) none t zs d.0 c);
  head = λ b e. cc;
  frame = λ z m ne. ground arith;
  tail = tail_of_unlink next q.tail t zs c d.0;
}
unlink-Removed next q (some b) t zs c d f = record {
  chain = subst (Chain _ _) (sym (erase_head t zs)) (
      subst (λ p. Chain (update (update next b (next t)) t none) p zs) (ground arith)
        (Chain-update (update next b (next t)) (next t) none t zs d.0
          (Chain-update next (next t) (next t) b zs (ground arith) c)));
  head = λ x e. refl;
  frame = λ z m ne. ground arith;
  tail = tail_of_unlink next q.tail t zs c d.0;
}

step_found :
    (fuel : ℕ) (next : Heap) (q : Queue) (before : Option ℕ) (t : ℕ)
    → pointee next q before ≡ some t
    → remove_from (suc fuel) next q before t ≡ some (unlink next q before t)
unfolding remove_from
step_found fuel next q before t e = rw (e, remove_from) (ground arith)

step_next :
    (fuel : ℕ) (next : Heap) (q : Queue) (before : Option ℕ) (t x : ℕ)
    → pointee next q before ≡ some x
    → x ≢ t
    → remove_from (suc fuel) next q before t ≡ remove_from fuel next q (some x) t
unfolding remove_from
step_next fuel next q before t x e ne = rw (e, remove_from) (ground arith)

ends_other : (t x : ℕ) (xs : List ℕ) → mem t xs ≡ true → ends_with t (x ∷ xs) ≡ ends_with t xs
ends_other t x [] m = ground arith
ends_other t x (y ∷ ys) m = refl

-- What the loop did after `x`, seen from before `x`.
Removed-back :
    (next : Heap) (q : Queue) (before : Option ℕ) (t x : ℕ) (xs : List ℕ) (r : Heap × Queue)
    → pointee next q before ≡ some x
    → x ≢ t
    → mem t xs ≡ true
    → mem x xs ≡ false
    → Fresh before (x ∷ xs)
    → Removed next q (some x) t xs r
    → Removed next q before t (x ∷ xs) r
Removed-back next q none t x xs r e ne m d f w = record {
  chain = subst (Chain _ _) (sym (erase_other t x xs ne)) (w.head x refl ∙ e, w.chain);
  head = λ b h. cc;
  frame = λ z mz h. ground (arith, w.frame z);
  tail = rw (ends_other t x xs m) w.tail;
}
Removed-back next q (some b) t x xs r e ne m d f w = record {
  chain = subst (Chain _ _) (sym (erase_other t x xs ne)) (ground (arith, w.frame b), w.chain);
  head = λ z h. w.head x refl;
  frame = λ z mz h. ground (arith, w.frame z);
  tail = rw (ends_other t x xs m) w.tail;
}

remove_from-Removed :
    (fuel : ℕ) (next : Heap) (q : Queue) (before : Option ℕ) (t : ℕ) (ys : List ℕ)
    → Chain next (pointee next q before) ys
    → Distinct ys
    → Fresh before ys
    → mem t ys ≡ true
    → length ys < fuel
    → (r : Heap × Queue) × (remove_from fuel next q before t ≡ some r)
      × Removed next q before t ys r
remove_from-Removed zero next q before t ys c d f m h = elim h [ ]
remove_from-Removed (suc fuel) next q before t [] c d f m h = absurd (ground arith)
remove_from-Removed (suc fuel) next q before t (x ∷ xs) c d f m h = elim (ℕ_discrete x t) [
  | yes e ↦ (
    unlink next q before t,
    step_found fuel next q before t (c.0 ∙ ap some e),
    subst (λ y. Removed next q before t (y ∷ xs) (unlink next q before t)) (sym e)
        (unlink-Removed next q before t xs (subst (λ y. Chain next (next y) xs) e c.1)
          (subst (λ y. Distinct (y ∷ xs)) e d) (subst (λ y. Fresh before (y ∷ xs)) e f)),
  )
  | no ne ↦
      let (r, found, w) =
        remove_from-Removed fuel next q (some x) t xs c.1 d.1 d.0 (ground arith) (omega arith) in
      (
        r,
        step_next fuel next q before t x c.0 ne ∙ found,
        Removed-back next q before t x xs r c.0 ne (ground arith) d.0 f w,
      )
]

push_on_null :
    (next : Heap) (q : Queue) (c : ℕ)
    → q.tail ≡ none
    → Holds (queue_push next q c).0 (queue_push next q c).1 (c ∷ [])
unfolding queue_push
push_on_null next q c e =
    rw e (record { chain = (refl, ground arith); end = refl; distinct = (refl, tt) })

module _ (fuel : ℕ) (next : Heap) (q : Queue) (t : ℕ) (xs : List ℕ) (h : Holds next q xs) where
  module _ (m : mem t xs ≡ true) (enough : length xs < fuel) where
    removed :
        (r : Heap × Queue) × (queue_remove fuel next q t ≡ some r) × Removed next q none t xs r
    unfolding queue_remove
    removed = remove_from-Removed fuel next q none t xs h.chain h.distinct tt m enough

    -- With fuel for the threads of the queue, `queue_remove` ends; the pointers from the head then
    -- lead through the other threads in order, a thread outside the queue is not touched, and the
    -- tail is kept, unless the thread was the last: then it is reset.
    pub queue_remove_lem :
        (z : ℕ)
        → mem z xs ≡ false
        → (r : Heap × Queue) × (queue_remove fuel next q t ≡ some r)
          × Chain r.0 r.1.head (erase t xs)
          × (r.0 z ≡ next z)
          × (r.1.tail ≡ (if ends_with t xs then none else q.tail))
    queue_remove_lem z mz =
        let (r, found, w) = removed in (r, found, w.chain, w.frame z mz (λ e. cc), w.tail)

    -- With fuel for the threads of the queue, where `queue_remove` took the last of them, the next
    -- `queue_push` makes a queue of the new thread alone, and all that the queue still held are
    -- lost.
    pub queue_remove_loses :
        (c : ℕ)
        → ends_with t xs ≡ true
        → (r : Heap × Queue) × (queue_remove fuel next q t ≡ some r)
          × Chain r.0 r.1.head (erase t xs)
          × Holds (queue_push r.0 r.1 c).0 (queue_push r.0 r.1 c).1 (c ∷ [])
    queue_remove_loses c last =
        let (r, found, w) = removed in
        let reset : r.1.tail ≡ none = w.tail ∙ ground arith in
        (r, found, w.chain, push_on_null r.0 r.1 c reset)
