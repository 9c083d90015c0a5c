-- ===== src/Pmm/Valid.antt =====
-- kernel/pmm.c: the invariant of the page allocator, and the functions that keep it by rounds.
use project_lariat.Prelude.{Bool, arith, suc, zero, ℕ, ◌+◌, ◌^◌, ◌≡◌, ◌≤◌}
use project_lariat.Bitmap.{bitmap_test}
use project_lariat.Bitmap.Laws.{Covers, bitmap_clear-Covers, bitmap_set-Covers}
use project_lariat.Bitmap.Count.{count-clear, count-set, count_free, count_free-le}
use project_lariat.Pmm.{
  Pmm, free_page, free_pages, free_pages_from, mark_free, mark_free_from, mark_used, mark_used_from,
  release_page, use_page,
}

-- Every page has its bit, and the counter is the number of clear bits.
pub record IsValid (s : Pmm) : Type 0 where
  pub covers : Covers s.bitmap s.total_pages
  pub small : s.total_pages ≤ 2 ^ 52
  pub counted : s.free_page_count ≡ count_free s.bitmap s.total_pages

-- The page is in use.
abbrev pub used : Pmm → ℕ → Bool
used s page = bitmap_test s.bitmap page

pub use_page-IsValid : (page : ℕ) (s : Pmm) → IsValid s → IsValid (use_page page s)
unfolding use_page
use_page-IsValid page s v = ground (
  arith,
  bitmap_set-Covers page v.covers,
  count-set page v.covers,
  count_free-le s.bitmap s.total_pages,
)

pub release_page-IsValid : (page : ℕ) (s : Pmm) → IsValid s → IsValid (release_page page s)
unfolding release_page
release_page-IsValid page s v = ground (
  arith,
  bitmap_clear-Covers page v.covers,
  count-clear page v.covers,
  count_free-le s.bitmap s.total_pages,
)

mark_used_from-IsValid : (n i phys : ℕ) (s : Pmm) → IsValid s → IsValid (mark_used_from n i phys s)
unfolding mark_used_from
mark_used_from-IsValid zero i phys s v = v
mark_used_from-IsValid (suc n) i phys s v =
    mark_used_from-IsValid n (i + 1) phys _ (use_page-IsValid _ s v)

mark_free_from-IsValid : (n i phys : ℕ) (s : Pmm) → IsValid s → IsValid (mark_free_from n i phys s)
unfolding mark_free_from
mark_free_from-IsValid zero i phys s v = v
mark_free_from-IsValid (suc n) i phys s v =
    mark_free_from-IsValid n (i + 1) phys _ (release_page-IsValid _ s v)

pub free_page-IsValid : (phys : ℕ) (s : Pmm) → IsValid s → IsValid (free_page phys s)
unfolding free_page
free_page-IsValid phys s v = release_page-IsValid _ s v

free_pages_from-IsValid :
    (n i phys : ℕ) (s : Pmm) → IsValid s → IsValid (free_pages_from n i phys s)
unfolding free_pages_from
free_pages_from-IsValid zero i phys s v = v
free_pages_from-IsValid (suc n) i phys s v =
    free_pages_from-IsValid n (i + 1) phys _ (free_page-IsValid _ s v)

pub mark_used-IsValid : (phys count : ℕ) (s : Pmm) → IsValid s → IsValid (mark_used phys count s)
unfolding mark_used
mark_used-IsValid phys count s v = mark_used_from-IsValid count 0 phys s v

pub mark_free-IsValid : (phys count : ℕ) (s : Pmm) → IsValid s → IsValid (mark_free phys count s)
unfolding mark_free
mark_free-IsValid phys count s v = mark_free_from-IsValid count 0 phys s v

pub free_pages-IsValid : (phys count : ℕ) (s : Pmm) → IsValid s → IsValid (free_pages phys count s)
unfolding free_pages
free_pages-IsValid phys count s v = free_pages_from-IsValid count 0 phys s v
