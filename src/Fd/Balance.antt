-- ===== src/Fd/Balance.antt =====
-- kernel/fd.c: the operations on descriptors keep the reference counts right.
use project_lariat.Prelude.{
  Bool-cases, List, Option, Option-cases, [], ap, arith, get_or, get_or-set, inl, inr, length,
  length-set, negsuc, none, pos, refl, set, some, subst, suc, zero, ℕ, ℤ, ◌+◌, ◌-◌, ◌<◌, ◌==◌, ◌∙◌,
  ◌∷◌, ◌≡◌, ◌≢◌, ◌⊎◌,
}
use project_lariat.Fd.{
  Store, close_entry, dup_file, fd_alloc, fd_close, fd_dup, fd_dup2, fd_max, first_unused, move_to,
  retain, slot_of,
}
use project_lariat.Fd.Count.{
  IsCounted, IsCounted-ext, close_entry-IsCounted, refers, retain-IsCounted, uses, uses-get_or,
  uses-set,
}

-- The counts are those of the table together with `others`, the references from elsewhere.
pub record IsBalanced (others : ℕ → ℕ) (t : List (Option ℕ)) (s : Store) : Type 0 where
  pub size : length t ≡ fd_max
  pub counted : IsCounted (λ f. uses t f + others f) s

first_unused-lem :
    (t : List (Option ℕ)) (i : ℕ)
    → first_unused t ≡ some i
    → (i < length t) × (get_or t i none ≡ none)
unfolding first_unused
first_unused-lem [] i e = absurd (ground arith)
first_unused-lem (none ∷ ts) zero e = (omega arith, refl)
first_unused-lem (none ∷ ts) (suc i) e = absurd (ground arith)
first_unused-lem (some f ∷ ts) i e = elim (Option-cases (first_unused ts)) [
  | inl miss ↦ absurd (ground (arith, e, miss))
  | inr (j, hit) ↦
      let (inside, unused) = first_unused-lem ts j hit in
      let same : suc j ≡ i = ground (arith, e, hit) in
      subst (λ k. (k < suc (length ts)) × (get_or (some f ∷ ts) k none ≡ none)) same
        (omega (arith, inside), unused)
]

slot-inside : (fd : ℤ) (i : ℕ) → slot_of fd ≡ some i → i < fd_max
slot-inside (pos n) i e = ground (arith, e)
slot-inside (negsuc n) i e = absurd (ground (arith, e))

dup_file_full :
    (t : List (Option ℕ)) (g : ℕ) (s : Store)
    → first_unused t ≡ none
    → dup_file t g s ≡ (none, t, s)
unfolding dup_file fd_alloc
dup_file_full t g s e = rw (e, dup_file, fd_alloc) refl

dup_file_at :
    (t : List (Option ℕ)) (g i : ℕ) (s : Store)
    → first_unused t ≡ some i
    → dup_file t g s ≡ (some i, set t i (some g), retain g s)
unfolding dup_file fd_alloc
dup_file_at t g i s e = ground (arith, e)

module _ (others : ℕ → ℕ) (t : List (Option ℕ)) (s : Store) (b : IsBalanced others t s) where
  -- An entry is replaced by a reference to a file that the table already has.
  move_to-IsBalanced :
      (i g : ℕ)
      → i < fd_max
      → 0 < uses (set t i none) g
      → IsBalanced others (set t i (some g)) (retain g (close_entry (get_or t i none) s))
  move_to-IsBalanced i g lt has =
      let e = get_or t i none in
      let inside : i < length t = omega (arith, lt, b.size) in
      let h = λ (f : ℕ). uses t f + others f in
      let closed = close_entry-IsCounted e h s b.counted (λ f. omega (arith, uses-get_or t i f)) in
      let kept =
        retain-IsCounted g (λ f. h f - refers e f) _ closed
          (omega (arith, has, uses-set t i none g inside)) in
      record {
        size = length-set t i (some g) ∙ b.size;
        counted =
            IsCounted-ext _ _ _
              (λ f. omega (arith, uses-set t i (some g) f inside, uses-get_or t i f)) kept;
      }

  close-IsBalanced :
      (i : ℕ) → i < fd_max → IsBalanced others (set t i none) (close_entry (get_or t i none) s)
  close-IsBalanced i lt =
      let e = get_or t i none in
      let inside : i < length t = omega (arith, lt, b.size) in
      record {
        size = length-set t i none ∙ b.size;
        counted =
            IsCounted-ext _ _ _ (λ f. omega (arith, uses-set t i none f inside, uses-get_or t i f))
              (close_entry-IsCounted e (λ f. uses t f + others f) s b.counted
                (λ f. omega (arith, uses-get_or t i f)));
      }

  dup_file-IsBalanced :
      (g : ℕ) → 0 < uses t g → let (fd, t', s') = dup_file t g s in IsBalanced others t' s'
  dup_file-IsBalanced g has = elim (Option-cases (first_unused t)) [
    | inl full ↦ rw (dup_file_full t g s full) b
    | inr (i, found) ↦
        let (inside, unused) = first_unused-lem t i found in
        rw (dup_file_at t g i s found) (record {
          size = length-set t i (some g) ∙ b.size;
          counted =
              IsCounted-ext _ _ _
                (λ f. omega (arith, uses-set t i (some g) f inside, ap (λ e. refers e f) unused))
                (retain-IsCounted g (λ f. uses t f + others f) s b.counted (omega (arith, has)));
        })
  ]

-- One call on the descriptors of a process.
pub data Call : Type 0 where
  dups : ℤ → Call
  dups2 : ℤ → ℤ → Call
  closes : ℤ → Call

abbrev pub call : Call → List (Option ℕ) × Store → List (Option ℕ) × Store
call (dups fd) (t, s) = let (fd', t', s') = fd_dup t fd s in (t', s')
call (dups2 old new) (t, s) = let (fd', t', s') = fd_dup2 t old new s in (t', s')
call (closes fd) (t, s) = fd_close t fd s

abbrev pub calls : List Call → List (Option ℕ) × Store → List (Option ℕ) × Store
calls [] r = r
calls (c ∷ cs) r = calls cs (call c r)

has_entry : (t : List (Option ℕ)) (i g : ℕ) → get_or t i none ≡ some g → 0 < uses t g
has_entry t i g e = ground (arith, uses-get_or t i g, e)

fd_dup_cases :
    (t : List (Option ℕ)) (fd : ℤ) (s : Store)
    → (fd_dup t fd s ≡ (none, t, s))
      ⊎ ((i : ℕ) × (g : ℕ) × (get_or t i none ≡ some g) × (fd_dup t fd s ≡ dup_file t g s))
unfolding fd_dup
fd_dup_cases t fd s = elim (Option-cases (slot_of fd)) [
  | inl e ↦ inl (rw (e, fd_dup) refl)
  | inr (i, e) ↦ elim (Option-cases (get_or t i none)) [
    | inl e2 ↦ inl (rw (e, e2, fd_dup) refl)
    | inr (g, e2) ↦ inr (i, g, e2, rw (e, e2, fd_dup) refl)
  ]
]

fd_close_cases :
    (t : List (Option ℕ)) (fd : ℤ) (s : Store)
    → (fd_close t fd s ≡ (t, s))
      ⊎ ((i : ℕ) × (i < fd_max)
          × (fd_close t fd s ≡ (set t i none, close_entry (get_or t i none) s)))
unfolding fd_close
fd_close_cases t fd s = elim (Option-cases (slot_of fd)) [
  | inl e ↦ inl (rw (e, fd_close) refl)
  | inr (i, e) ↦ inr (i, slot-inside fd i e, rw (e, fd_close) refl)
]

fd_dup2_cases :
    (t : List (Option ℕ)) (oldfd newfd : ℤ) (s : Store)
    → ((fd : Option ℕ) × (fd_dup2 t oldfd newfd s ≡ (fd, t, s)))
      ⊎ ((old : ℕ) × (i : ℕ) × (g : ℕ) × (i < fd_max)
          × (old ≢ i)
          × (get_or t old none ≡ some g)
          × (fd_dup2 t oldfd newfd s ≡ move_to t g i s))
unfolding fd_dup2
fd_dup2_cases t oldfd newfd s = elim (Option-cases (slot_of oldfd)) [
  | inl e ↦ inl (none, rw (e, fd_dup2) refl)
  | inr (old, e) ↦ elim (Option-cases (get_or t old none)) [
    | inl e2 ↦ inl (none, rw (e, e2, fd_dup2) refl)
    | inr (g, e2) ↦ elim (Option-cases (slot_of newfd)) [
      | inl e3 ↦ inl (none, rw (e, e2, e3, fd_dup2) refl)
      | inr (i, e3) ↦ elim (Bool-cases (old == i)) [
        | inl same ↦ inl (some i, rw (e, e2, e3, fd_dup2) (rw same refl))
        | inr other ↦ inr (
          old,
          i,
          g,
          slot-inside newfd i e3,
          ground (arith, other),
          e2,
          rw (e, e2, e3, other, fd_dup2) refl,
        )
      ]
    ]
  ]
]

-- The entry that is copied stays when another is emptied.
uses-set_other :
    (t : List (Option ℕ)) (old i g : ℕ)
    → i < length t
    → old ≢ i
    → get_or t old none ≡ some g
    → 0 < uses (set t i none) g
uses-set_other t old i g lt ne e =
    has_entry (set t i none) old g (ground (arith, get_or-set t i old none none lt, e))

call-IsBalanced :
    (c : Call) (others : ℕ → ℕ) (t : List (Option ℕ)) (s : Store)
    → IsBalanced others t s
    → let (t', s') = call c (t, s) in IsBalanced others t' s'
unfolding move_to
call-IsBalanced (dups fd) others t s b = elim (fd_dup_cases t fd s) [
  | inl e ↦ rw e b
  | inr (i, g, e, r) ↦ rw r (dup_file-IsBalanced others t s b g (has_entry t i g e))
]
call-IsBalanced (closes fd) others t s b = elim (fd_close_cases t fd s) [
  | inl e ↦ rw e b
  | inr (i, lt, r) ↦ rw r (close-IsBalanced others t s b i lt)
]
call-IsBalanced (dups2 old new) others t s b = elim (fd_dup2_cases t old new s) [
  | inl (fd, e) ↦ rw e b
  | inr (o, i, g, lt, ne, e, r) ↦ rw r (
      move_to-IsBalanced others t s b i g lt
        (uses-set_other t o i g (omega (arith, lt, b.size)) ne e))
]

-- After any calls of `fd_dup`, `fd_dup2` and `fd_close`, whatever their arguments, the count of
-- each open file is the number of its references in the table and elsewhere, and a file is freed
-- exactly when no reference is left.
pub calls-IsBalanced :
    (cs : List Call) (others : ℕ → ℕ) (t : List (Option ℕ)) (s : Store)
    → IsBalanced others t s
    → let (t', s') = calls cs (t, s) in IsBalanced others t' s'
calls-IsBalanced [] others t s b = b
calls-IsBalanced (c ∷ cs) others t s b =
    calls-IsBalanced cs others _ _ (call-IsBalanced c others t s b)
