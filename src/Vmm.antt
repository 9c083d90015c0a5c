-- ===== src/Vmm.antt =====
-- kernel/vmm.c and include/vmm.h: page tables in memory, with their pages from Pmm. A page of memory
-- is the function of its 512 words, and `store` gives the page at a physical address; the direct map
-- gives every page, so that `pt_ptr` is that address. The flush of a TLB entry has no effect on the
-- model.
pub mod Entries
pub mod Tree
pub mod Walk
pub mod Taken
pub mod Link
pub mod Enter
pub mod Way
pub mod Map
pub mod Unmap
pub mod Range
pub mod Fresh
mod Tests
use project_lariat.Prelude.{
  Bool, false, if◌then◌else◌, ltb, max, suc, true, zero, ℕ, ◌%◌, ◌&&◌, ◌*◌, ◌+◌, ◌/◌, ◌==◌, ◌^◌,
}
use project_lariat.Pmm.{Pmm, alloc_page}

pub record Vmm : Type 0 where
  pub store : ℕ → ℕ → ℕ
  pub pmm : Pmm

-- `a | b` of two numbers of so many bits, and of two `uint64_t`.
unfoldable pub or_bits : ℕ → ℕ → ℕ → ℕ
or_bits zero a b = 0
or_bits (suc n) a b = max (a % 2) (b % 2) + 2 * or_bits n (a / 2) (b / 2)

abbrev pub or64 : ℕ → ℕ → ℕ
or64 a b = or_bits 64 a b

-- `entry & PT_ADDR_MASK`, and the tests on a bit of an entry.
unfoldable pub pt_get_addr : ℕ → ℕ
pt_get_addr entry = entry / 4096 % 2 ^ 51 * 4096

unfoldable pub pt_is_present : ℕ → Bool
pt_is_present entry = entry % 2 == 1

unfoldable pub pt_is_huge : ℕ → Bool
pt_is_huge entry = entry / 128 % 2 == 1

-- The table of level 3 is the PML4, that of level 0 the last one.
unfoldable pub pt_index : ℕ → ℕ → ℕ
pt_index virt level = virt / 2 ^ (12 + level * 9) % 512

-- `PT_PRESENT | PT_WRITABLE | PT_USER`
abbrev pub table_flags : ℕ
table_flags = 7

abbrev pub pt_present : ℕ
pt_present = 1

-- `table[i] = word;`
unfoldable pub put_word : ℕ → ℕ → ℕ → Vmm → Vmm
put_word table i word s = record s {
  store = λ t j. if t == table && j == i then word else s.store t j;
}

unfoldable pub zero_page : ℕ → Vmm → Vmm
zero_page phys s = record s { store = λ t j. if t == phys && ltb j 512 then 0 else s.store t j }

-- The address of the page, or 0.
unfoldable pub alloc_pt_page : Vmm → ℕ × Vmm
alloc_pt_page s =
    let (phys, pmm) = alloc_page s.pmm in
    let after = record s { pmm = pmm } in
    if phys == 0 then (0, after) else (phys, zero_page phys after)

-- An empty table, or 0.
unfoldable pub vmm_new_pagetable : Vmm → ℕ × Vmm
vmm_new_pagetable s = alloc_pt_page s

-- `if (!pt_is_present(table[i])) { … }`: an entry that is not there gets a table.
unfoldable pub linked : ℕ → ℕ → Vmm → Bool × Vmm
linked table i s =
    let (phys, after) = alloc_pt_page s in
    if pt_is_present (s.store table i)
    then (true, s)
    else if phys == 0
    then (false, after)
    else (true, put_word table i (or64 phys table_flags) after)

-- The table that an entry points to.
abbrev pub next_table : ℕ → ℕ → Vmm → ℕ
next_table table i s = pt_get_addr (s.store table i)

-- The last table gets its entry.
unfoldable pub put_page : ℕ → ℕ → ℕ → ℕ → Vmm → Vmm
put_page pt virt phys flags s =
    put_word pt (pt_index virt 0) (or64 (or64 (pt_get_addr phys) flags) pt_present) s

-- From the table of level 1 on.
unfoldable pub map_in_pd : ℕ → ℕ → ℕ → ℕ → Vmm → Bool × Vmm
map_in_pd pd virt phys flags s =
    let pdi = pt_index virt 1 in
    let (fine, after) = linked pd pdi s in
    if pt_is_present (s.store pd pdi) && pt_is_huge (s.store pd pdi)
    then (false, s)
    else if fine
    then (true, put_page (next_table pd pdi after) virt phys flags after)
    else (false, after)

-- The result says whether the page is mapped.
unfoldable pub vmm_map_page_in : ℕ → ℕ → ℕ → ℕ → Vmm → Bool × Vmm
vmm_map_page_in pml4 virt phys flags s =
    let (fine3, s3) = linked pml4 (pt_index virt 3) s in
    let pdpt = next_table pml4 (pt_index virt 3) s3 in
    let (fine2, s2) = linked pdpt (pt_index virt 2) s3 in
    let pd = next_table pdpt (pt_index virt 2) s2 in
    if fine3 then (if fine2 then map_in_pd pd virt phys flags s2 else (false, s2)) else (false, s3)

unfoldable pub vmm_unmap_page_in : ℕ → ℕ → Vmm → Vmm
vmm_unmap_page_in pml4 virt s =
    let pdpt = next_table pml4 (pt_index virt 3) s in
    let pd = next_table pdpt (pt_index virt 2) s in
    let entry = s.store pd (pt_index virt 1) in
    if pt_is_present (s.store pml4 (pt_index virt 3))
    then (if pt_is_present (s.store pdpt (pt_index virt 2))
        then (if pt_is_present entry
            then (if pt_is_huge entry
                then s
                else put_word (pt_get_addr entry) (pt_index virt 0) 0 s)
            else s)
        else s)
    else s

-- 0 stands for an address that is not mapped.
unfoldable pub vmm_virt_to_phys_in : ℕ → ℕ → Vmm → ℕ
vmm_virt_to_phys_in pml4 virt s =
    let pdpt = next_table pml4 (pt_index virt 3) s in
    let pd = next_table pdpt (pt_index virt 2) s in
    let entry = s.store pd (pt_index virt 1) in
    let page = s.store (pt_get_addr entry) (pt_index virt 0) in
    if pt_is_present (s.store pml4 (pt_index virt 3))
    then (if pt_is_present (s.store pdpt (pt_index virt 2))
        then (if pt_is_present entry
            then (if pt_is_huge entry
                then or64 (pt_get_addr entry) (virt % 2 ^ 21)
                else if pt_is_present page
                then or64 (pt_get_addr page) (virt % 4096)
                else 0)
            else 0)
        else 0)
    else 0

-- The pages that are mapped before a page cannot be.
unfoldable pub vmm_unmap_range_in : ℕ → ℕ → ℕ → Vmm → Vmm
vmm_unmap_range_in pml4 virt zero s = s
vmm_unmap_range_in pml4 virt (suc count) s =
    vmm_unmap_range_in pml4 ((virt + 4096) % 2 ^ 64) count (vmm_unmap_page_in pml4 virt s)

-- The loop of `vmm_map_range_in`, with the first address of the range and the pages already mapped.
unfoldable pub map_range_from : ℕ → ℕ → ℕ → ℕ → ℕ → ℕ → Vmm → Bool × Vmm
map_range_from pml4 virt phys flags i zero s = (true, s)
map_range_from pml4 virt phys flags i (suc rest) s =
    let (fine, after) =
      vmm_map_page_in pml4 ((virt + i * 4096) % 2 ^ 64) ((phys + i * 4096) % 2 ^ 64) flags s in
    let more = map_range_from pml4 virt phys flags (i + 1) rest after in
    if fine then more else (false, vmm_unmap_range_in pml4 virt i after)

unfoldable pub vmm_map_range_in : ℕ → ℕ → ℕ → ℕ → ℕ → Vmm → Bool × Vmm
vmm_map_range_in pml4 virt phys count flags s = map_range_from pml4 virt phys flags 0 count s
