-- ===== src/Pmm/Mark.antt =====
-- kernel/pmm.c: which pages `pmm_mark_used`, `pmm_mark_free` and `pmm_free_pages` change.
use project_lariat.Prelude.{
  Bool, arith, false, if◌then◌else◌, leb, ltb, not, refl, suc, true, zero, ℕ, ◌%◌, ◌&&◌, ◌*◌, ◌+◌,
  ◌/◌, ◌<◌, ◌==◌, ◌||◌, ◌∙◌, ◌≡◌, ◌≤◌,
}
use project_lariat.Bitmap.Laws.{test-clear, test-set}
use project_lariat.Pmm.{
  Pmm, free_page, free_pages, free_pages_from, mark_free, mark_free_from, mark_used, mark_used_from,
  page_size, phys_to_page, release_page, u64, use_page,
}
use project_lariat.Pmm.Valid.{IsValid, release_page-IsValid, use_page-IsValid, used}

-- `start ≤ page < start + count`
abbrev pub within : ℕ → ℕ → ℕ → Bool
within start count page = leb start page && ltb page (start + count)

used-use_page :
    (page : ℕ) (s : Pmm) (q : ℕ)
    → IsValid s
    → q < s.total_pages
    → used (use_page page s) q ≡ (if page == q then true else used s q)
unfolding use_page
used-use_page page s q v h = ground (arith, test-set s.bitmap s.total_pages page q v.covers)

used-release_page :
    (page : ℕ) (s : Pmm) (q : ℕ)
    → IsValid s
    → q < s.total_pages
    → used (release_page page s) q ≡ (if page == q then false else used s q)
unfolding release_page
used-release_page page s q v h = ground (arith, test-clear s.bitmap s.total_pages page q v.covers)

pub total-use_page : (page : ℕ) (s : Pmm) → (use_page page s).total_pages ≡ s.total_pages
unfolding use_page
total-use_page page s = ground arith

pub total-release_page : (page : ℕ) (s : Pmm) → (release_page page s).total_pages ≡ s.total_pages
unfolding release_page
total-release_page page s = ground arith

-- Without wrap, round `i` is about the page `i` places after the first.
page_of_round :
    (i phys : ℕ)
    → phys + i * page_size < u64
    → phys_to_page ((phys + i * page_size) % u64) ≡ phys / page_size + i
unfolding phys_to_page
page_of_round i phys h = omega arith

used-mark_used_from :
    (n i phys : ℕ) (s : Pmm) (q : ℕ)
    → IsValid s
    → q < s.total_pages
    → phys + (i + n) * page_size ≤ u64
    → used (mark_used_from n i phys s) q ≡ (within (phys / page_size + i) n q || used s q)
unfolding mark_used_from
used-mark_used_from zero i phys s q v h e = ground arith
used-mark_used_from (suc n) i phys s q v h e =
    let page = phys_to_page ((phys + i * page_size) % u64) in
    ground (
      arith,
      page_of_round i phys,
      used-mark_used_from n (i + 1) phys (use_page page s) q,
      use_page-IsValid page s v,
      total-use_page page s,
      used-use_page page s q v,
    )

used-mark_free_from :
    (n i phys : ℕ) (s : Pmm) (q : ℕ)
    → IsValid s
    → q < s.total_pages
    → phys + (i + n) * page_size ≤ u64
    → used (mark_free_from n i phys s) q ≡ (not (within (phys / page_size + i) n q) && used s q)
unfolding mark_free_from
used-mark_free_from zero i phys s q v h e = ground arith
used-mark_free_from (suc n) i phys s q v h e =
    let page = phys_to_page ((phys + i * page_size) % u64) in
    ground (
      arith,
      page_of_round i phys,
      used-mark_free_from n (i + 1) phys (release_page page s) q,
      release_page-IsValid page s v,
      total-release_page page s,
      used-release_page page s q v,
    )

total-mark_used_from :
    (n i phys : ℕ) (s : Pmm) → (mark_used_from n i phys s).total_pages ≡ s.total_pages
unfolding mark_used_from
total-mark_used_from zero i phys s = refl
total-mark_used_from (suc n) i phys s = total-mark_used_from n (i + 1) phys _ ∙ total-use_page _ s

total-mark_free_from :
    (n i phys : ℕ) (s : Pmm) → (mark_free_from n i phys s).total_pages ≡ s.total_pages
unfolding mark_free_from
total-mark_free_from zero i phys s = refl
total-mark_free_from (suc n) i phys s =
    total-mark_free_from n (i + 1) phys _ ∙ total-release_page _ s

pub total-mark_used :
    (phys count : ℕ) (s : Pmm) → (mark_used phys count s).total_pages ≡ s.total_pages
unfolding mark_used
total-mark_used phys count s = total-mark_used_from count 0 phys s

pub total-mark_free :
    (phys count : ℕ) (s : Pmm) → (mark_free phys count s).total_pages ≡ s.total_pages
unfolding mark_free
total-mark_free phys count s = total-mark_free_from count 0 phys s

size-mark_used_from :
    (n i phys : ℕ) (s : Pmm) → (mark_used_from n i phys s).bitmap_size ≡ s.bitmap_size
unfolding mark_used_from use_page
size-mark_used_from zero i phys s = refl
size-mark_used_from (suc n) i phys s = size-mark_used_from n (i + 1) phys _ ∙ ground arith

size-mark_free_from :
    (n i phys : ℕ) (s : Pmm) → (mark_free_from n i phys s).bitmap_size ≡ s.bitmap_size
unfolding mark_free_from release_page
size-mark_free_from zero i phys s = refl
size-mark_free_from (suc n) i phys s = size-mark_free_from n (i + 1) phys _ ∙ ground arith

pub size-mark_used :
    (phys count : ℕ) (s : Pmm) → (mark_used phys count s).bitmap_size ≡ s.bitmap_size
unfolding mark_used
size-mark_used phys count s = size-mark_used_from count 0 phys s

pub size-mark_free :
    (phys count : ℕ) (s : Pmm) → (mark_free phys count s).bitmap_size ≡ s.bitmap_size
unfolding mark_free
size-mark_free phys count s = size-mark_free_from count 0 phys s

-- `pmm_free_pages` frees by the same rounds as `pmm_mark_free`.
free_pages_from-mark_free_from :
    (n i phys : ℕ) (s : Pmm) → free_pages_from n i phys s ≡ mark_free_from n i phys s
unfolding free_pages_from mark_free_from free_page
free_pages_from-mark_free_from zero i phys s = refl
free_pages_from-mark_free_from (suc n) i phys s = free_pages_from-mark_free_from n (i + 1) phys _

module _ (phys count : ℕ) (s : Pmm) (q : ℕ) (v : IsValid s) (h : q < s.total_pages) where
  module _ (e : phys + count * page_size ≤ u64) where
    -- Below `total_pages`, `pmm_mark_used` of a range that does not wrap leaves in use exactly the
    -- pages of the range and those that were in use.
    pub used-mark_used :
        used (mark_used phys count s) q ≡ (within (phys / page_size) count q || used s q)
    unfolding mark_used
    used-mark_used = ground (arith, used-mark_used_from count 0 phys s q v h)

    pub used-mark_free :
        used (mark_free phys count s) q ≡ (not (within (phys / page_size) count q) && used s q)
    unfolding mark_free
    used-mark_free = ground (arith, used-mark_free_from count 0 phys s q v h)

    pub used-free_pages :
        used (free_pages phys count s) q ≡ (not (within (phys / page_size) count q) && used s q)
    unfolding free_pages
    used-free_pages =
        rw free_pages_from-mark_free_from (ground (arith, used-mark_free_from count 0 phys s q v h))

pub total-free_pages :
    (phys count : ℕ) (s : Pmm) → (free_pages phys count s).total_pages ≡ s.total_pages
unfolding free_pages
total-free_pages phys count s =
    rw (free_pages_from-mark_free_from count 0 phys s) (total-mark_free_from count 0 phys s)
