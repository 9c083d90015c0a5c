-- ===== src/Pmm.antt =====
-- kernel/pmm.c and include/pmm.h: the physical page allocator. The static variables of the file
-- are one record; a function that changes them returns the new record. `pmm_lock` makes each
-- allocation and each `pmm_free_page` one step.
pub mod Mark
pub mod Valid
pub mod Run
pub mod Alloc
pub mod Boot
pub mod Map
pub mod Restore
mod Tests
use project_lariat.Prelude.{
  Bool, List, [], false, if◌then◌else◌, leb, ltb, not, replicate, suc, take, true, zero, ℕ, ◌%◌,
  ◌&&◌, ◌*◌, ◌+◌, ◌-◌, ◌/◌, ◌==◌, ◌^◌, ◌||◌, ◌∷◌,
}
use project_lariat.Bitmap.{bitmap_clear, bitmap_set, bitmap_test}

pub record Pmm : Type 0 where
  pub bitmap : List ℕ
  pub bitmap_size : ℕ
  pub total_pages : ℕ
  pub free_page_count : ℕ
  pub highest_page : ℕ

-- `e820_entry_t`
pub record E820Entry : Type 0 where
  pub base : ℕ
  pub length : ℕ
  pub kind : ℕ
  pub extended : ℕ

abbrev pub e820_type_available : ℕ
e820_type_available = 1

abbrev pub page_size : ℕ
page_size = 4096

abbrev pub e820_max_entries : ℕ
e820_max_entries = 64

-- the range of `uint64_t`
abbrev pub u64 : ℕ
u64 = 2 ^ 64

unfoldable pub page_to_phys : ℕ → ℕ
page_to_phys page = page * page_size % u64

unfoldable pub phys_to_page : ℕ → ℕ
phys_to_page phys = phys / page_size

unfoldable pub align_up : ℕ → ℕ
align_up addr = (addr + (page_size - 1)) % u64 / page_size * page_size

unfoldable pub align_down : ℕ → ℕ
align_down addr = addr / page_size * page_size

-- `n--` and `n -= count` on a `uint64_t`
abbrev pub sub64 : ℕ → ℕ → ℕ
sub64 a b = (a + (u64 - b)) % u64

-- One round of `pmm_mark_used`; the guard on the counter is the source's.
pub use_page : ℕ → Pmm → Pmm
use_page page s =
    if ltb page s.total_pages && not (bitmap_test s.bitmap page)
    then record s {
      bitmap = bitmap_set s.bitmap page;
      free_page_count =
          if ltb 0 s.free_page_count then sub64 s.free_page_count 1 else s.free_page_count;
    }
    else s

-- One round of `pmm_mark_free`, and the body of `pmm_free_page`.
pub release_page : ℕ → Pmm → Pmm
release_page page s =
    if ltb page s.total_pages && bitmap_test s.bitmap page
    then record s {
      bitmap = bitmap_clear s.bitmap page;
      free_page_count = (s.free_page_count + 1) % u64;
    }
    else s

-- The loops with the rounds left and the index `i`.
pub mark_used_from : ℕ → ℕ → ℕ → Pmm → Pmm
mark_used_from zero i phys s = s
mark_used_from (suc n) i phys s =
    mark_used_from n (i + 1) phys (use_page (phys_to_page ((phys + i * page_size) % u64)) s)

pub mark_used : ℕ → ℕ → Pmm → Pmm
unfolding mark_used_from use_page phys_to_page
mark_used phys count s = mark_used_from count 0 phys s

pub mark_free_from : ℕ → ℕ → ℕ → Pmm → Pmm
mark_free_from zero i phys s = s
mark_free_from (suc n) i phys s =
    mark_free_from n (i + 1) phys (release_page (phys_to_page ((phys + i * page_size) % u64)) s)

pub mark_free : ℕ → ℕ → Pmm → Pmm
unfolding mark_free_from release_page phys_to_page
mark_free phys count s = mark_free_from count 0 phys s

pub free_page : ℕ → Pmm → Pmm
unfolding release_page phys_to_page
free_page phys s = release_page (phys_to_page phys) s

pub free_pages_from : ℕ → ℕ → ℕ → Pmm → Pmm
free_pages_from zero i phys s = s
free_pages_from (suc n) i phys s =
    free_pages_from n (i + 1) phys (free_page ((phys + i * page_size) % u64) s)

pub free_pages : ℕ → ℕ → Pmm → Pmm
unfolding free_pages_from free_page
free_pages phys count s = free_pages_from count 0 phys s

pub alloc_page_from : ℕ → ℕ → Pmm → ℕ × Pmm
alloc_page_from zero i s = (0, s)
alloc_page_from (suc n) i s = elim (bitmap_test s.bitmap i) [
  | true ↦ alloc_page_from n (i + 1) s
  | false ↦ (
    page_to_phys i,
    record s { bitmap = bitmap_set s.bitmap i; free_page_count = sub64 s.free_page_count 1 },
  )
]

-- `pmm_alloc_page`; the result 0 stands for out of memory.
pub alloc_page : Pmm → ℕ × Pmm
unfolding alloc_page_from page_to_phys
alloc_page s = alloc_page_from s.total_pages 0 s

-- `for (j = start; j < start + count; j++) bitmap_set(j);`
pub set_run : ℕ → ℕ → List ℕ → List ℕ
set_run zero j bm = bm
set_run (suc n) j bm = set_run n (j + 1) (bitmap_set bm j)

-- What the loop of `pmm_alloc_pages` does when it has found a run.
pub take_run : ℕ → ℕ → Pmm → ℕ × Pmm
unfolding set_run page_to_phys
take_run start count s = (
  page_to_phys start,
  record s {
    bitmap = set_run count start s.bitmap;
    free_page_count = sub64 s.free_page_count count;
  },
)

-- The rounds left, then the loop's variables `i`, `consecutive` and `start`.
pub alloc_pages_from : ℕ → ℕ → ℕ → ℕ → ℕ → Pmm → ℕ × Pmm
alloc_pages_from count zero i consecutive start s = (0, s)
alloc_pages_from count (suc n) i consecutive start s = elim (bitmap_test s.bitmap i) [
  | true ↦ alloc_pages_from count n (i + 1) 0 start s
  | false ↦
      let first = if consecutive == 0 then i else start in
      let rest = alloc_pages_from count n (i + 1) (consecutive + 1) first s in
      if leb count (consecutive + 1) then take_run first count s else rest
]

pub alloc_pages : ℕ → Pmm → ℕ × Pmm
unfolding alloc_pages_from take_run
alloc_pages count s = if count == 0 then (0, s) else alloc_pages_from count s.total_pages 0 0 0 s

-- The parts of `pmm_init_e820`. A table that is empty, too long or does not begin at 0 is replaced.
fallback : List E820Entry
fallback =
    record { base = 0; length = 0xA0000; kind = e820_type_available; extended = 0 }
    ∷ record { base = 0x100000; length = 0x1F00000; kind = e820_type_available; extended = 0 }
    ∷ []

pub valid_table : ℕ → List E820Entry → Bool
valid_table entry_count [] = false
valid_table entry_count (e ∷ es) =
    not (entry_count == 0 || ltb e820_max_entries entry_count) && e.base == 0

pub choose_table : ℕ → List E820Entry → List E820Entry
choose_table entry_count entries =
    if valid_table entry_count entries then take entry_count entries else fallback

pub top_of : E820Entry → ℕ → ℕ
top_of e highest =
    if e.kind == e820_type_available
    then (let end = (e.base + e.length) % u64 in if ltb highest end then end else highest)
    else highest

pub highest_addr_from : List E820Entry → ℕ → ℕ
highest_addr_from [] highest = highest
highest_addr_from (e ∷ es) highest = highest_addr_from es (top_of e highest)

pub highest_addr : List E820Entry → ℕ
highest_addr es = let top = highest_addr_from es 0 in if top == 0 then 0x2000000 else top

-- The bitmap of `total_pages` bits, all ones.
pub blank : ℕ → Pmm
unfolding phys_to_page
blank highest = record {
  bitmap = replicate ((phys_to_page highest + 1 + 7) / 8) 0xFF;
  bitmap_size = (phys_to_page highest + 1 + 7) / 8;
  total_pages = phys_to_page highest + 1;
  free_page_count = 0;
  highest_page = phys_to_page highest;
}

pub add_region : E820Entry → Pmm → Pmm
unfolding align_up align_down
add_region e s =
    if e.kind == e820_type_available && ltb 0 e.length
    then (let start = align_up e.base in
        let end = align_down ((e.base + e.length) % u64) in
        if ltb start end then mark_free start ((end - start) / page_size) s else s)
    else s

pub add_regions : List E820Entry → Pmm → Pmm
add_regions [] s = s
add_regions (e ∷ es) s = add_regions es (add_region e s)

-- `bss_end` is the linker's `__bss_end`; the bitmap is placed at the page after it.
pub reserve : ℕ → Pmm → Pmm
unfolding align_up
reserve bss_end s =
    let kernel = mark_used 0x100000 (sub64 (align_up bss_end) 0x100000 / page_size) s in
    let low = mark_used 0x0 512 kernel in
    let stack = mark_used 0x2F0000 16 low in
    mark_used (align_up bss_end) ((s.bitmap_size + page_size - 1) / page_size) stack

pub init_e820 : ℕ → ℕ → List E820Entry → Pmm
unfolding choose_table valid_table fallback highest_addr highest_addr_from top_of blank add_regions
    add_region reserve
init_e820 bss_end entry_count entries =
    let table = choose_table entry_count entries in
    reserve bss_end (add_regions table (blank (highest_addr table)))
