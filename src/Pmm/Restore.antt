-- ===== src/Pmm/Restore.antt =====
-- kernel/pmm.c: giving back what was taken.
use project_lariat.Prelude.{List, ap, arith, refl, suc, zero, ℕ, ◌<◌, ◌∙◌, ◌≡◌, ◌≢◌}
use project_lariat.Bitmap.{bitmap_test}
use project_lariat.Bitmap.Count.{count_free}
use project_lariat.Pmm.{Pmm, alloc_pages, free_pages, phys_to_page}
use project_lariat.Pmm.Valid.{IsValid, free_pages-IsValid, used}
use project_lariat.Pmm.Mark.{total-free_pages, used-free_pages}
use project_lariat.Pmm.Run.{alloc_pages-Outcome}
use project_lariat.Pmm.Alloc.{takes_page}

count_same :
    (a b : List ℕ) (n : ℕ)
    → ((q : ℕ) → q < n → bitmap_test a q ≡ bitmap_test b q)
    → count_free a n ≡ count_free b n
unfolding count_free
count_same a b zero h = refl
count_same a b (suc n) h = ground (arith, h n, count_same a b n (λ q lt. h q (omega arith)))

-- `pmm_free_pages` of a run that `pmm_alloc_pages` gave leaves each page as it was before, and
-- the same number of pages free.
pub alloc_pages-free_pages :
    (count phys : ℕ) (s after : Pmm) (q : ℕ)
    → 0 < count
    → IsValid s
    → alloc_pages count s ≡ (phys, after)
    → phys ≢ 0
    → q < s.total_pages
    → let t = free_pages phys count after in
      IsValid t × (used t q ≡ used s q) × (t.free_page_count ≡ s.free_page_count)
alloc_pages-free_pages count phys s after q positive v e nz lt =
    let start = phys_to_page phys in
    let (g, exact) =
      takes_page s count phys after positive nz v (alloc_pages count s) e
        (alloc_pages-Outcome count s positive v) in
    let t = free_pages phys count after in
    let tv = free_pages-IsValid phys count after g.valid in
    let total = total-free_pages phys count after in
    let same : (p : ℕ) → p < s.total_pages → used t p ≡ used s p = λ p h.
      let below : p < after.total_pages = omega (arith, h, g.total) in
      ground (
        arith,
        used-free_pages phys count after p g.valid below (omega (arith, exact, g.inside, v.small)),
        g.changed p,
        g.free_before p,
      ) in
    (
      tv,
      same q lt,
      omega (
        arith,
        tv.counted,
        v.counted,
        ap (count_free t.bitmap) (total ∙ g.total),
        count_same t.bitmap s.bitmap s.total_pages same,
      ),
    )
