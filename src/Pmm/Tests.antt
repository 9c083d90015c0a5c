-- ===== src/Pmm/Tests.antt =====
-- Runs of the page allocator, and its theorems at concrete inputs.
use project_lariat.Prelude.{List, [], arith, bit_at, bit_on, refl, true, ◌∷◌, ◌≡◌}
use project_lariat.Bitmap.{bitmap_set, bitmap_test}
use project_lariat.Bitmap.Count.{count_free}
use project_lariat.Pmm.{
  E820Entry, Pmm, alloc_pages, alloc_pages_from, free_pages, page_to_phys, phys_to_page, set_run,
  take_run,
}
use project_lariat.Pmm.Valid.{IsValid, used}
use project_lariat.Pmm.Run.{Outcome, alloc_pages-Outcome}
use project_lariat.Pmm.Alloc.{Held, IsExclusive, alloc-IsExclusive, more, start_of, takes}
use project_lariat.Pmm.Restore.{alloc_pages-free_pages}

-- Sixteen pages, of which 2, 5, 6 and 7 to 15 are free.
abbrev sample : Pmm
sample = record {
  bitmap = 27 ∷ 0 ∷ [];
  bitmap_size = 2;
  total_pages = 16;
  free_page_count = 12;
  highest_page = 15;
}

sample-IsValid : IsValid sample
unfolding count_free bitmap_test bit_at
sample-IsValid = record {
  covers = record { bytes = omega arith; room = omega arith };
  small = omega arith;
  counted = refl;
}

-- The first two free pages in a row are 5 and 6.
abbrev granted_two : Pmm
granted_two = record sample { bitmap = 123 ∷ 0 ∷ []; free_page_count = 10 }

alloc_two : alloc_pages 2 sample ≡ (20480, granted_two)
unfolding alloc_pages alloc_pages_from take_run set_run bitmap_set bitmap_test bit_at bit_on
    page_to_phys
alloc_two = refl

alloc_too_many : alloc_pages 12 sample ≡ (0, sample)
unfolding alloc_pages alloc_pages_from take_run set_run bitmap_set bitmap_test bit_at bit_on
    page_to_phys
alloc_too_many = refl

low_used : used sample 0 ≡ true
unfolding bitmap_test bit_at
low_used = refl

alloc_pages-Outcome_example : Outcome sample 2 (alloc_pages 2 sample)
alloc_pages-Outcome_example = alloc_pages-Outcome 2 sample (omega arith) sample-IsValid

abbrev holding : Held
holding = record { pmm = granted_two; runs = (phys_to_page 20480, 2) ∷ [] }

alloc-IsExclusive_example : IsExclusive holding
alloc-IsExclusive_example =
    alloc-IsExclusive sample holding sample-IsValid
      (more start_of (takes 2 20480 granted_two (omega arith) alloc_two (omega arith)))

alloc_pages-free_pages_example :
    let t = free_pages 20480 2 granted_two in
    IsValid t × (used t 5 ≡ used sample 5) × (t.free_page_count ≡ 12)
alloc_pages-free_pages_example =
    alloc_pages-free_pages 2 20480 sample granted_two 5 (omega arith) sample-IsValid alloc_two
      (omega arith) (omega arith)

-- 64 MB from address 0.
abbrev small_machine : List E820Entry
small_machine = record { base = 0; length = 0x4000000; kind = 1; extended = 0 } ∷ []
