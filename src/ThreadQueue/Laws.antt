-- ===== src/ThreadQueue/Laws.antt =====
-- kernel/sched.c: `queue_push` and `queue_pop` are the operations of a FIFO of threads, and leave
-- the queues of other threads alone.
use project_lariat.Prelude.{
  List, Option, Option-cases, [], arith, false, inl, inr, none, refl, some, subst, sym, true, ℕ,
  ◌++◌, ◌∙◌, ◌∷◌, ◌≡◌,
}
use project_lariat.ThreadQueue.{Heap, Queue, queue_pop, queue_push, tail_after, update}
use project_lariat.ThreadQueue.Chain.{
  Chain, Chain-update, Distinct, Distinct-append_one, Holds, Holds-update, last-append_one, last?,
  mem,
}

-- No thread is in both lists.
abbrev pub Apart : List ℕ → List ℕ → Type 0
Apart xs ys = (t : ℕ) → mem t xs ≡ true → mem t ys ≡ false

pub mem-last : (xs : List ℕ) (l : ℕ) → last? xs ≡ some l → mem l xs ≡ true
mem-last [] l e = ground arith
mem-last (x ∷ []) l e = ground arith
mem-last (x ∷ y ∷ ys) l e = ground (arith, mem-last (y ∷ ys) l)

Chain-append_one :
    (next : Heap) (p : Option ℕ) (t l : ℕ) (xs : List ℕ)
    → Chain next p xs
    → Distinct xs
    → mem t xs ≡ false
    → last? xs ≡ some l
    → Chain (update (update next t none) l (some t)) p (xs ++ t ∷ [])
Chain-append_one next p t l [] c d m e = absurd (ground arith)
Chain-append_one next p t l (x ∷ []) c d m e = (c.0, (ground arith, ground arith))
Chain-append_one next p t l (x ∷ y ∷ ys) c d m e =
    let rest = Chain-append_one next (next x) t l (y ∷ ys) c.1 d.1 (ground arith) e in
    (
      c.0,
      subst (λ r. Chain (update (update next t none) l (some t)) r (y ∷ ys ++ t ∷ []))
          (ground (arith, mem-last (y ∷ ys) l, d.0)) rest,
    )

empty_of_tail : (xs : List ℕ) → last? xs ≡ none → xs ≡ []
empty_of_tail [] e = refl
empty_of_tail (x ∷ []) e = ground arith
empty_of_tail (x ∷ y ∷ ys) e = let r = empty_of_tail (y ∷ ys) e in ground arith

module _ (next : Heap) (q : Queue) (t : ℕ) (xs : List ℕ) (h : Holds next q xs) where
  -- `queue_push` adds at the end.
  pub push_lem :
      mem t xs ≡ false → Holds (queue_push next q t).0 (queue_push next q t).1 (xs ++ t ∷ [])
  unfolding queue_push
  push_lem m = elim (Option-cases q.tail) [
    | inl e ↦
        rw (e, empty_of_tail xs (sym h.end ∙ e))
          (record { chain = (refl, ground arith); end = refl; distinct = (refl, tt) })
    | inr (l, e) ↦ rw e (record {
      chain = Chain-append_one next q.head t l xs h.chain h.distinct m (sym h.end ∙ e);
      end = sym (last-append_one t xs);
      distinct = Distinct-append_one t xs m h.distinct;
    })
  ]

  pub push_frame :
      (r : Queue) (ys : List ℕ)
      → Holds next r ys
      → mem t ys ≡ false
      → Apart xs ys
      → Holds (queue_push next q t).0 r ys
  unfolding queue_push
  push_frame r ys k m apart = elim (Option-cases q.tail) [
    | inl e ↦ rw e (Holds-update next r none t ys m k)
    | inr (l, e) ↦ rw e (
        Holds-update (update next t none) r (some t) l ys (apart l (mem-last xs l (sym h.end ∙ e)))
          (Holds-update next r none t ys m k))
  ]

module _ (next : Heap) (q : Queue) where
  pub pop_empty : Holds next q [] → queue_pop next q ≡ (none, next, q)
  unfolding queue_pop
  pop_empty h = ground (arith, h.chain)

  -- `queue_pop` takes the oldest thread, and unlinks it.
  pub pop_lem :
      (t : ℕ) (xs : List ℕ)
      → Holds next q (t ∷ xs)
      → let (r, next', q') = queue_pop next q in
        (r ≡ some t) × (next' ≡ update next t none) × Holds next' q' xs
  unfolding queue_pop
  pop_lem t xs h = rw (h.chain.0) (
    refl,
    refl,
    record {
      chain = Chain-update next (next t) none t xs h.distinct.0 h.chain.1;
      end = end_after xs h;
      distinct = h.distinct.1;
    },
  )
    where
      end_after : (ys : List ℕ) → Holds next q (t ∷ ys) → tail_after (next t) q.tail ≡ last? ys
      end_after [] k = ground (arith, k.chain.1)
      end_after (y ∷ ys) k = ground (arith, k.chain.1.0, k.end)
