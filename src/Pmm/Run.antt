-- ===== src/Pmm/Run.antt =====
-- kernel/pmm.c: `pmm_alloc_pages` finds the first run of free pages, and takes it.
use project_lariat.Prelude.{
  Bool-cases, List, arith, dec_lt, false, if◌then◌else◌, inl, inr, leb, refl, suc, true, zero, ℕ,
  ◌+◌, ◌<◌, ◌==◌, ◌||◌, ◌≡◌, ◌≤◌, ◌⊎◌,
}
use project_lariat.Bitmap.{bitmap_set, bitmap_test}
use project_lariat.Bitmap.Laws.{Covers, bitmap_set-Covers, test-set}
use project_lariat.Bitmap.Count.{count-set, count_free, count_free-le}
use project_lariat.Pmm.{Pmm, alloc_pages, alloc_pages_from, page_to_phys, set_run, take_run}
use project_lariat.Pmm.Valid.{IsValid, used}
use project_lariat.Pmm.Mark.{within}

-- The pages `start`, …, `start + count - 1` are free.
abbrev pub IsFreeRun : Pmm → ℕ → ℕ → Type 0
IsFreeRun s start count = (q : ℕ) → start ≤ q → q < start + count → used s q ≡ false

-- `after` is `s` with the free run of `count` pages from `start` in use.
pub record Grants (s : Pmm) (start count : ℕ) (after : Pmm) : Type 0 where
  pub inside : start + count ≤ s.total_pages
  pub free_before : IsFreeRun s start count
  pub changed : (q : ℕ) → used after q ≡ (within start count q || used s q)
  pub counted : after.free_page_count + count ≡ s.free_page_count
  pub total : after.total_pages ≡ s.total_pages
  pub valid : IsValid after

-- What setting the bits of a free run does to the bitmap.
record Filled (bm : List ℕ) (n start count : ℕ) (bm' : List ℕ) : Type 0 where
  covers : Covers bm' n
  bits : (q : ℕ) → bitmap_test bm' q ≡ (within start count q || bitmap_test bm q)
  fewer : count_free bm' n + count ≡ count_free bm n

set_run-Filled :
    (k start n : ℕ) (bm : List ℕ)
    → Covers bm n
    → start + k ≤ n
    → ((q : ℕ) → start ≤ q → q < start + k → bitmap_test bm q ≡ false)
    → Filled bm n start k (set_run k start bm)
unfolding set_run
set_run-Filled zero start n bm c h free = record {
  covers = c;
  bits = λ q. ground arith;
  fewer = omega arith;
}
set_run-Filled (suc k) start n bm c h free =
    let bm1 = bitmap_set bm start in
    let rest : Filled bm1 n (start + 1) k (set_run k (start + 1) bm1) =
      set_run-Filled k (start + 1) n bm1 (bitmap_set-Covers start c (omega arith)) (omega arith)
        (λ q a b. ground (arith, test-set bm n start q c, free q)) in
    record {
      covers = rest.covers;
      bits = λ q. ground (arith, rest.bits q, test-set bm n start q c);
      fewer = ground (arith, rest.fewer, count-set {n = n} start c, free start);
    }

take_run-Grants :
    (start count : ℕ) (s : Pmm)
    → IsValid s
    → start + count ≤ s.total_pages
    → IsFreeRun s start count
    → Grants s start count (take_run start count s).1
unfolding take_run
take_run-Grants start count s v h free =
    let f : Filled s.bitmap s.total_pages start count (set_run count start s.bitmap) =
      set_run-Filled count start s.total_pages s.bitmap v.covers h free in
    let le = count_free-le s.bitmap s.total_pages in
    record {
      inside = h;
      free_before = free;
      changed = f.bits;
      counted = omega (arith, f.fewer, v.counted, le, v.small);
      total = refl;
      valid = record {
        covers = f.covers;
        small = v.small;
        counted = omega (arith, f.fewer, v.counted, le, v.small);
      };
    }

-- Either no run is free and nothing changes, or the first free run is taken.
pub data Outcome (s : Pmm) (count : ℕ) : ℕ × Pmm → Type 0 where
  none_free : ((a : ℕ) → a + count ≤ s.total_pages → ¬ IsFreeRun s a count) → Outcome s count (0, s)
  granted :
      (start : ℕ) (after : Pmm)
      → Grants s start count after
      → ((a : ℕ) → a < start → ¬ IsFreeRun s a count)
      → Outcome s count (page_to_phys start, after)

-- The loop between two rounds: `consecutive` free pages lie before `i`, and no free run begins
-- before them.
record Scan (s : Pmm) (count i consecutive start : ℕ) : Type 0 where
  short : consecutive < count
  base : ℕ
  ends : base + consecutive ≡ i
  begins : (consecutive ≡ 0) ⊎ (start ≡ base)
  free : IsFreeRun s base consecutive
  earlier : (a : ℕ) → a < base → ¬ IsFreeRun s a count

module _ {s : Pmm} {count i consecutive start : ℕ} (w : Scan s count i consecutive start) where
  Scan-used : used s i ≡ true → Scan s count (i + 1) 0 start
  Scan-used e = record {
    short = omega (arith, w.short);
    base = i + 1;
    ends = omega arith;
    begins = inl refl;
    free = λ q a b. absurd (omega arith);
    earlier = λ a h run. elim (dec_lt a w.base) [
      | yes lt ↦ w.earlier a lt run
      | no ge ↦ cc (run i (omega (arith, w.ends)) (omega (arith, w.ends, w.short)), e)
    ];
  }

  first_page : ℕ
  first_page = if consecutive == 0 then i else start

  first-base : (if consecutive == 0 then i else start) ≡ w.base
  first-base = ground (arith, w.begins, w.ends)

  free_more : used s i ≡ false → IsFreeRun s w.base (consecutive + 1)
  free_more e q a b = elim (dec_lt q i) [
    | yes lt ↦ w.free q a (omega (arith, w.ends))
    | no ge ↦ let same : q ≡ i = omega (arith, w.ends) in rw same e
  ]

  Scan-free :
      used s i ≡ false
      → consecutive + 1 < count
      → Scan s count (i + 1) (consecutive + 1) (if consecutive == 0 then i else start)
  Scan-free e lt = record {
    short = lt;
    base = w.base;
    ends = omega (arith, w.ends);
    begins = inr first-base;
    free = free_more e;
    earlier = w.earlier;
  }

alloc_pages_from-Outcome :
    (count n i consecutive start : ℕ) (s : Pmm)
    → IsValid s
    → i + n ≡ s.total_pages
    → Scan s count i consecutive start
    → Outcome s count (alloc_pages_from count n i consecutive start s)
unfolding alloc_pages_from take_run
alloc_pages_from-Outcome count zero i consecutive start s v h w = none_free λ a le run.
    elim (dec_lt a w.base) [
      | yes lt ↦ w.earlier a lt run
      | no ge ↦ absurd (omega (arith, w.ends, w.short))
    ]
alloc_pages_from-Outcome count (suc n) i consecutive start s v h w =
    let first = if consecutive == 0 then i else start in
    elim (Bool-cases (used s i)) [
      | inl e ↦
          rw (e, alloc_pages_from)
            (alloc_pages_from-Outcome count n (i + 1) 0 start s v (omega arith) (Scan-used w e))
      | inr e ↦
          rw (e, alloc_pages_from)
            (elim (Bool-cases (leb count (consecutive + 1))) [
              | inl last ↦
                  let fits : count ≡ consecutive + 1 = ground (arith, w.short) in
                  rw last (
                    granted first _
                      (take_run-Grants first count s v (omega (arith, first-base w, w.ends))
                        (λ q a b.
                          free_more w e q (omega (arith, first-base w))
                            (omega (arith, first-base w))))
                      (λ a lt. w.earlier a (omega (arith, first-base w))))
              | inr more ↦ rw more (
                  alloc_pages_from-Outcome count n (i + 1) (consecutive + 1) first s v (omega arith)
                    (Scan-free w e (ground arith)))
            ])
    ]

alloc_pages_pos :
    (count : ℕ) (s : Pmm)
    → 0 < count
    → alloc_pages count s ≡ alloc_pages_from count s.total_pages 0 0 0 s
unfolding alloc_pages
alloc_pages_pos count s positive = ground arith

-- For a count that is not 0, `pmm_alloc_pages` takes the first run of that many free pages and
-- returns its address; it returns 0 and changes nothing only if there is no such run.
pub alloc_pages-Outcome :
    (count : ℕ) (s : Pmm) → 0 < count → IsValid s → Outcome s count (alloc_pages count s)
alloc_pages-Outcome count s positive v = rw (alloc_pages_pos count s positive) (
    alloc_pages_from-Outcome count s.total_pages 0 0 0 s v (omega arith) (record {
      short = positive;
      base = 0;
      ends = omega arith;
      begins = inl refl;
      free = λ q a b. absurd (omega arith);
      earlier = λ a lt. absurd (omega arith);
    }))
