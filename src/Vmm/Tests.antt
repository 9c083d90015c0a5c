-- ===== src/Vmm/Tests.antt =====
-- kernel/vmm.c: a small machine with an empty page table.
use project_lariat.Prelude.{[], arith, bit_at, refl, true, ◌∷◌, ◌≡◌}
use project_lariat.Bitmap.{bitmap_test}
use project_lariat.Bitmap.Count.{count_free}
use project_lariat.Pmm.{Pmm}
use project_lariat.Pmm.Valid.{IsValid, used}
use project_lariat.Vmm.{Vmm, vmm_map_page_in, vmm_unmap_page_in}
use project_lariat.Vmm.Tree.{IsTree}
use project_lariat.Vmm.Fresh.{alone, alone-IsTree}
use project_lariat.Vmm.Map.{MapOutcome, vmm_map_page_in-MapOutcome}
use project_lariat.Vmm.Unmap.{Unmapped, vmm_unmap_page_in-Unmapped}

-- Sixteen pages, of which the first two are in use.
abbrev memory : Pmm
memory = record {
  bitmap = 3 ∷ 0 ∷ [];
  bitmap_size = 2;
  total_pages = 16;
  free_page_count = 14;
  highest_page = 15;
}

-- The table at 0x1000 is empty.
abbrev empty : Vmm
empty = record { store = λ t i. 0; pmm = memory }

memory-IsValid : IsValid memory
unfolding count_free bitmap_test bit_at
memory-IsValid = record {
  covers = record { bytes = omega arith; room = omega arith };
  small = omega arith;
  counted = refl;
}

low_in_use : used memory 0 ≡ true
unfolding bitmap_test bit_at
low_in_use = refl

root_in_use : used memory 1 ≡ true
unfolding bitmap_test bit_at
root_in_use = refl

empty-IsTree : IsTree (alone 4096) 4096 empty
empty-IsTree =
    alone-IsTree 4096 empty memory-IsValid (omega arith) low_in_use root_in_use (λ j lo. refl)

vmm_map_page_in-MapOutcome_example :
    MapOutcome 4096 0x400000 0x9000 empty (vmm_map_page_in 4096 0x400000 0x9000 7 empty)
vmm_map_page_in-MapOutcome_example =
    vmm_map_page_in-MapOutcome (alone 4096) 4096 0x400000 0x9000 7 empty (omega arith) empty-IsTree

vmm_unmap_page_in-Unmapped_example :
    Unmapped (alone 4096) 4096 0x400000 empty (vmm_unmap_page_in 4096 0x400000 empty)
vmm_unmap_page_in-Unmapped_example =
    vmm_unmap_page_in-Unmapped (alone 4096) 4096 0x400000 empty empty-IsTree
