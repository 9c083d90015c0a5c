-- ===== src/Sched/Due.antt =====
-- kernel/sched.c: the sleeping threads that a timer tick wakes, and those that it leaves.
use project_lariat.Prelude.{
  Bool-cases, List, [], arith, false, if◌then◌else◌, inl, inr, leb, not, refl, subst, sym, true, ℕ,
  ℕ_discrete, ◌&&◌, ◌++◌, ◌∷◌, ◌≡◌,
}
use project_lariat.ThreadQueue.Chain.{Distinct, mem, mem-append}
use project_lariat.Sched.Invariant.{IsLoose, Lists}

-- The threads of the sleep list that sleep on, and those whose tick has come.
abbrev pub staying : ℕ → (ℕ → ℕ) → List ℕ → List ℕ
staying now tick [] = []
staying now tick (y ∷ ys) =
    if leb (tick y) now then staying now tick ys else y ∷ staying now tick ys

abbrev pub due : ℕ → (ℕ → ℕ) → List ℕ → List ℕ
due now tick [] = []
due now tick (y ∷ ys) = if leb (tick y) now then y ∷ due now tick ys else due now tick ys

module _ (now : ℕ) (tick : ℕ → ℕ) (y : ℕ) (ys : List ℕ) where
  pub due_now :
      leb (tick y) now ≡ true
      → (staying now tick (y ∷ ys) ≡ staying now tick ys)
        × (due now tick (y ∷ ys) ≡ y ∷ due now tick ys)
  due_now e = (ground (arith, e), ground (arith, e))

  pub due_later :
      leb (tick y) now ≡ false
      → (staying now tick (y ∷ ys) ≡ y ∷ staying now tick ys)
        × (due now tick (y ∷ ys) ≡ due now tick ys)
  due_later e = (ground (arith, e), ground (arith, e))

module _ (now : ℕ) (tick : ℕ → ℕ) (t : ℕ) where
  pub mem-staying :
      (ys : List ℕ) → mem t (staying now tick ys) ≡ (mem t ys && not (leb (tick t) now))
  mem-staying [] = refl
  mem-staying (y ∷ ys) = elim (ℕ_discrete y t) [
    | yes e ↦ rw e (ground (arith, mem-staying ys))
    | no ne ↦ ground (arith, mem-staying ys)
  ]

  pub mem-due : (ys : List ℕ) → mem t (due now tick ys) ≡ (mem t ys && leb (tick t) now)
  mem-due [] = refl
  mem-due (y ∷ ys) = elim (ℕ_discrete y t) [
    | yes e ↦ rw e (ground (arith, mem-due ys))
    | no ne ↦ ground (arith, mem-due ys)
  ]

pub Distinct-staying :
    (now : ℕ) (tick : ℕ → ℕ) (ys : List ℕ) → Distinct ys → Distinct (staying now tick ys)
Distinct-staying now tick [] d = tt
Distinct-staying now tick (y ∷ ys) d =
    let rest = Distinct-staying now tick ys d.1 in
    elim (Bool-cases (leb (tick y) now)) [
      | inl e ↦ subst Distinct (sym (due_now now tick y ys e).0) rest
      | inr e ↦
          subst Distinct (sym (due_later now tick y ys e).0)
            (ground (arith, mem-staying now tick y ys, d.0), rest)
    ]

pub staying-off :
    (now : ℕ) (tick : ℕ → ℕ) (v : Lists) (ys : List ℕ) (t : ℕ)
    → ((u : ℕ) → mem u ys ≡ true → IsLoose u v)
    → mem t (staying now tick ys) ≡ true
    → IsLoose t (record v { ready = v.ready ++ due now tick ys })
staying-off now tick v ys t off h =
    let was : mem t ys ≡ true = ground (arith, mem-staying now tick t ys, h) in
    record {
      not_ready = ground (
        arith,
        mem-append t v.ready (due now tick ys),
        mem-staying now tick t ys,
        mem-due now tick t ys,
        h,
        (off t was).not_ready,
      );
      not_waiting = (off t was).not_waiting;
    }
