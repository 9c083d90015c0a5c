-- ===== src/Timer/Queue.antt =====
-- cpu/timer.c: which timers `ktimer_run` fires.
use project_lariat.Prelude.{
  Bool-cases, List, [], arith, drop, false, if◌then◌else◌, inl, inr, leb, refl, suc, take, zero, ℕ,
  ◌∷◌, ◌≡◌,
}
use project_lariat.Timer.{
  Ktimer, collect, is_active, ktimer_add, ktimer_cancel, ktimer_run, max_fired,
}

-- The timers whose tick has come, and the others.
abbrev pub due : ℕ → List Ktimer → List Ktimer
due now [] = []
due now (t ∷ ts) = if leb t.expires now then t ∷ due now ts else due now ts

abbrev pub later : ℕ → List Ktimer → List Ktimer
later now [] = []
later now (t ∷ ts) = if leb t.expires now then later now ts else t ∷ later now ts

pub record Fires (room now : ℕ) (ts : List Ktimer) (r : List Ktimer × List Ktimer) : Type 0 where
  pub fired : r.0 ≡ take room (due now ts)
  pub left_due : due now r.1 ≡ drop room (due now ts)
  pub left_later : later now r.1 ≡ later now ts

collect-Fires : (room now : ℕ) (ts : List Ktimer) → Fires room now ts (collect room now ts)
unfolding collect
collect-Fires zero now ts = record { fired = refl; left_due = refl; left_later = refl }
collect-Fires (suc room) now [] = record { fired = refl; left_due = refl; left_later = refl }
collect-Fires (suc room) now (t ∷ ts) =
    let taken = collect-Fires room now ts in
    let passed = collect-Fires (suc room) now ts in
    elim (Bool-cases (leb t.expires now)) [
      | inl e ↦ record {
        fired = ground (arith, e, taken.fired);
        left_due = ground (arith, e, taken.left_due);
        left_later = ground (arith, e, taken.left_later);
      }
      | inr e ↦ record {
        fired = ground (arith, e, passed.fired);
        left_due = ground (arith, e, passed.left_due);
        left_later = ground (arith, e, passed.left_later);
      }
    ]

-- A call of `ktimer_run` fires the first 16 timers of the list whose tick has come, in the order of
-- the list; those that have come beyond them and those whose tick has not come stay in the list, each
-- kind in its order.
pub ktimer_run-Fires : (now : ℕ) (ts : List Ktimer) → Fires max_fired now ts (ktimer_run now ts)
unfolding ktimer_run
ktimer_run-Fires now ts = collect-Fires max_fired now ts

-- A timer that is added and cancelled before it fires leaves the list as it was.
pub ktimer_cancel-ktimer_add :
    (id delay_ticks now : ℕ) (ts : List Ktimer)
    → is_active id ts ≡ false
    → ktimer_cancel id (ktimer_add id delay_ticks now ts) ≡ ts
unfolding ktimer_cancel ktimer_add
ktimer_cancel-ktimer_add id delay_ticks now ts h = ground (arith, h)
