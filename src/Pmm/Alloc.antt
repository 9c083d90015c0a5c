-- ===== src/Pmm/Alloc.antt =====
-- kernel/pmm.c: what a client of the allocator may rely on.
use project_lariat.Prelude.{
  All, List, [], ap, arith, if◌then◌else◌, refl, subst, suc, sym, true, zero, ℕ, ◌*◌, ◌++◌, ◌+◌,
  ◌/◌, ◌<◌, ◌^◌, ◌↔◌, ◌∷◌, ◌≡◌, ◌≢◌, ◌≤◌,
}
use project_lariat.Pmm.{
  Pmm, alloc_page, alloc_page_from, alloc_pages, alloc_pages_from, free_pages, page_size,
  page_to_phys, phys_to_page, set_run, take_run,
}
use project_lariat.Pmm.Valid.{IsValid, free_pages-IsValid, used}
use project_lariat.Pmm.Mark.{total-free_pages, used-free_pages, within}
use project_lariat.Pmm.Run.{Grants, IsFreeRun, Outcome, alloc_pages-Outcome, granted, none_free}

alloc_page_from-alloc_pages_from :
    (n i start : ℕ) (s : Pmm) → alloc_page_from n i s ≡ alloc_pages_from 1 n i 0 start s
unfolding alloc_page_from alloc_pages_from take_run set_run
alloc_page_from-alloc_pages_from zero i start s = refl
alloc_page_from-alloc_pages_from (suc n) i start s =
    ground (arith, alloc_page_from-alloc_pages_from n (i + 1) start s)

-- `pmm_alloc_page` does what `pmm_alloc_pages(1)` does.
pub alloc_page-alloc_pages : (s : Pmm) → alloc_page s ≡ alloc_pages 1 s
unfolding alloc_page alloc_pages
alloc_page-alloc_pages s = ground (arith, alloc_page_from-alloc_pages_from s.total_pages 0 0 s)

pub page_to_phys_exact : (page : ℕ) → page < 2 ^ 52 → page_to_phys page ≡ page * 4096
unfolding page_to_phys
page_to_phys_exact page h = omega arith

-- The result of an `Outcome` as an address.
Outcome-zero :
    (s : Pmm) (count : ℕ) (r : ℕ × Pmm)
    → 0 < count
    → IsValid s
    → used s 0 ≡ true
    → Outcome s count r
    → (r.0 ≡ 0) ↔ (¬ ((a : ℕ) × (a + count ≤ s.total_pages) × IsFreeRun s a count))
Outcome-zero s count r positive v low (none_free f) =
    ((λ _ (a, room, free). f a room free), (λ _. refl))
Outcome-zero s count r positive v low (granted start after g _) =
    ((λ e. absurd (impossible e)), (λ no_run. absurd (no_run (start, g.inside, g.free_before))))
  where
    impossible : page_to_phys start ≡ 0 → ⊥
    impossible e =
        let zero_page : start ≡ 0 =
          omega (arith, page_to_phys_exact start (omega (arith, g.inside, v.small)), e) in
        cc (g.free_before 0 (omega (arith, zero_page)) (omega (arith, zero_page)), low)

-- Where page 0 is in use, as after `pmm_init_e820`, the result 0 of `pmm_alloc_pages` means
-- exactly that no run of `count` pages is free.
pub alloc_pages_zero :
    (count : ℕ) (s : Pmm)
    → 0 < count
    → IsValid s
    → used s 0 ≡ true
    → ((alloc_pages count s).0 ≡ 0)
      ↔ (¬ ((a : ℕ) × (a + count ≤ s.total_pages) × IsFreeRun s a count))
alloc_pages_zero count s positive v low =
    Outcome-zero s count (alloc_pages count s) positive v low
      (alloc_pages-Outcome count s positive v)

-- A client holds runs of pages: it takes one by `pmm_alloc_pages`, and gives back a run that it
-- holds by `pmm_free_pages`.
pub record Held : Type 0 where
  pub pmm : Pmm
  pub runs : List (ℕ × ℕ)

pub data Step (h : Held) : Held → Type 0 where
  takes :
      (count phys : ℕ) (after : Pmm)
      → 0 < count
      → alloc_pages count h.pmm ≡ (phys, after)
      → phys ≢ 0
      → Step h (record { pmm = after; runs = (phys_to_page phys, count) ∷ h.runs })
  gives :
      (front back : List (ℕ × ℕ)) (start count : ℕ)
      → h.runs ≡ front ++ ((start, count) ∷ back)
      → Step h (record { pmm = free_pages (page_to_phys start) count h.pmm; runs = front ++ back })

pub data Steps (h : Held) : Held → Type 0 where
  start_of : Steps h h
  more : {g k : Held} → Steps h g → Step g k → Steps h k

-- How many of the runs hold the page.
pub owners : List (ℕ × ℕ) → ℕ → ℕ
owners [] q = 0
owners ((start, count) ∷ rest) q = (if within start count q then 1 else 0) + owners rest q

abbrev pub IsInside : ℕ → ℕ × ℕ → Type 0
IsInside total run = (0 < run.1) × (run.0 + run.1 ≤ total)

-- Every page in a run is in use, and in no other run.
pub record IsExclusive (h : Held) : Type 0 where
  pub valid : IsValid h.pmm
  pub inside : All (IsInside h.pmm.total_pages) h.runs
  pub once : (q : ℕ) → q < h.pmm.total_pages → owners h.runs q ≤ (if used h.pmm q then 1 else 0)

owners-append : (xs ys : List (ℕ × ℕ)) (q : ℕ) → owners (xs ++ ys) q ≡ owners xs q + owners ys q
unfolding owners
owners-append [] ys q = omega arith
owners-append ((a, n) ∷ xs) ys q = omega (arith, owners-append xs ys q)

module _ (total : ℕ) (run : ℕ × ℕ) where
  IsInside-middle :
      (xs ys : List (ℕ × ℕ))
      → All (IsInside total) (xs ++ (run ∷ ys))
      → IsInside total run × All (IsInside total) (xs ++ ys)
  IsInside-middle [] ys h = h
  IsInside-middle (x ∷ xs) ys h = let (a, rest) = IsInside-middle xs ys h.1 in (a, (h.0, rest))

pub takes_page :
    (s : Pmm) (count phys : ℕ) (after : Pmm)
    → 0 < count
    → phys ≢ 0
    → IsValid s
    → (r : ℕ × Pmm) → r ≡ (phys, after)
    → Outcome s count r
    → Grants s (phys_to_page phys) count after × (phys ≡ phys_to_page phys * 4096)
unfolding phys_to_page
takes_page s count phys after positive nz v r e (none_free f) = absurd (nz (ground arith))
takes_page s count phys after positive nz v r e (granted start t g _) =
    let same : after ≡ t = ground arith in
    let place : phys / page_size ≡ start = omega (
      arith,
      ap (λ (x : ℕ × Pmm). x.0) e,
      page_to_phys_exact start (omega (arith, g.inside, v.small)),
      g.inside,
    ) in
    rw (same, place)
      (
        g,
        omega (
          arith,
          ap (λ (x : ℕ × Pmm). x.0) e,
          page_to_phys_exact start (omega (arith, g.inside, v.small, positive)),
        ),
      )

Step-IsExclusive : {h k : Held} → Step h k → IsExclusive h → IsExclusive k
unfolding owners
Step-IsExclusive {h} (takes count phys after positive e nz) x =
    let s = h.pmm in
    let start = phys_to_page phys in
    let g : Grants s start count after =
      (takes_page s count phys after positive nz x.valid (alloc_pages count s) e
        (alloc_pages-Outcome count s positive x.valid)).0 in
    record {
      valid = g.valid;
      inside =
          subst (λ n. All (IsInside n) ((start, count) ∷ h.runs)) (sym g.total)
            ((positive, g.inside), x.inside);
      once = λ q lt. ground (arith, g.changed q, g.free_before q, x.once q, g.total);
    }
Step-IsExclusive {h} (gives front back start count e) x =
    let s = h.pmm in
    let phys = page_to_phys start in
    let inner : IsInside s.total_pages (start, count)
        × All (IsInside s.total_pages) (front ++ back) =
      IsInside-middle s.total_pages (start, count) front back
        (subst (All (IsInside s.total_pages)) e x.inside) in
    let small : start + count ≤ 2 ^ 52 = omega (arith, inner.0, x.valid.small) in
    let exact : phys ≡ start * 4096 = page_to_phys_exact start (omega (arith, inner.0, small)) in
    record {
      valid = free_pages-IsValid phys count s x.valid;
      inside =
          subst (λ n. All (IsInside n) (front ++ back)) (sym (total-free_pages phys count s))
            inner.1;
      once = λ q lt.
          let below : q < s.total_pages = omega (arith, lt, total-free_pages phys count s) in
          ground (
            arith,
            ap (λ r. owners r q) e,
            owners-append front ((start, count) ∷ back) q,
            owners-append front back q,
            x.once q below,
            used-free_pages phys count s q x.valid below (omega (arith, exact, small)),
            exact,
          );
    }

Steps-IsExclusive : {h k : Held} → Steps h k → IsExclusive h → IsExclusive k
Steps-IsExclusive start_of x = x
Steps-IsExclusive (more r st) x = Step-IsExclusive st (Steps-IsExclusive r x)

-- From a valid allocator with nothing held, after any sequence of allocations of at least one page
-- and releases of held runs, the allocator is valid, every held run lies below `total_pages`, and
-- no page is in two held runs or free while it is held.
pub alloc-IsExclusive :
    (s : Pmm) (k : Held) → IsValid s → Steps (record { pmm = s; runs = [] }) k → IsExclusive k
unfolding owners
alloc-IsExclusive s k v r =
    Steps-IsExclusive r (record { valid = v; inside = tt; once = λ q lt. ground arith })
