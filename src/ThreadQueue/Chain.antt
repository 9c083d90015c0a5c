-- ===== src/ThreadQueue/Chain.antt =====
-- What a linked queue holds.
use project_lariat.Prelude.{
  Bool, List, Option, [], arith, false, none, refl, some, ℕ, ◌++◌, ◌==◌, ◌||◌, ◌∷◌, ◌≡◌,
}
use project_lariat.ThreadQueue.{Heap, Queue, update}

abbrev pub mem : ℕ → List ℕ → Bool
mem t [] = false
mem t (x ∷ xs) = x == t || mem t xs

abbrev pub Distinct : List ℕ → Type 0
Distinct [] = Unit {0}
Distinct (x ∷ xs) = (mem x xs ≡ false) × Distinct xs

abbrev pub last? : List ℕ → Option ℕ
last? [] = none
last? (x ∷ []) = some x
last? (x ∷ y ∷ ys) = last? (y ∷ ys)

-- From `p`, the pointers lead through `xs` to null.
abbrev pub Chain : Heap → Option ℕ → List ℕ → Type 0
Chain next p [] = p ≡ none
Chain next p (x ∷ xs) = (p ≡ some x) × Chain next (next x) xs

-- The queue holds `xs`, oldest first.
pub record Holds (next : Heap) (q : Queue) (xs : List ℕ) : Type 0 where
  pub chain : Chain next q.head xs
  pub end : q.tail ≡ last? xs
  pub distinct : Distinct xs

-- A write to a thread outside the chain leaves it.
pub Chain-update :
    (next : Heap) (p v : Option ℕ) (t : ℕ) (xs : List ℕ)
    → mem t xs ≡ false
    → Chain next p xs
    → Chain (update next t v) p xs
Chain-update next p v t [] m c = c
Chain-update next p v t (x ∷ xs) m c = (c.0, ground (arith, Chain-update next (next x) v t xs, c.1))

pub Holds-update :
    (next : Heap) (q : Queue) (v : Option ℕ) (t : ℕ) (xs : List ℕ)
    → mem t xs ≡ false
    → Holds next q xs
    → Holds (update next t v) q xs
Holds-update next q v t xs m h = record {
  chain = Chain-update next q.head v t xs m h.chain;
  end = h.end;
  distinct = h.distinct;
}

pub mem-append : (t : ℕ) (xs ys : List ℕ) → mem t (xs ++ ys) ≡ (mem t xs || mem t ys)
mem-append t [] ys = refl
mem-append t (x ∷ xs) ys = ground (arith, mem-append t xs ys)

pub Distinct-append_one :
    (t : ℕ) (xs : List ℕ) → mem t xs ≡ false → Distinct xs → Distinct (xs ++ t ∷ [])
Distinct-append_one t [] m d = (refl, tt)
Distinct-append_one t (x ∷ xs) m d =
    (ground (arith, mem-append x xs (t ∷ []), d.0), Distinct-append_one t xs (ground arith) d.1)

pub last-append_one : (t : ℕ) (xs : List ℕ) → last? (xs ++ t ∷ []) ≡ some t
last-append_one t [] = refl
last-append_one t (x ∷ []) = refl
last-append_one t (x ∷ y ∷ ys) = last-append_one t (y ∷ ys)
