-- ===== src/Pmm/Map.antt =====
-- kernel/pmm.c: which pages `pmm_init_e820` leaves free.
use project_lariat.Prelude.{
  Bool, List, [], arith, false, leb, ltb, refl, ℕ, ◌%◌, ◌&&◌, ◌+◌, ◌-◌, ◌/◌, ◌==◌, ◌||◌, ◌∙◌, ◌∷◌,
  ◌≡◌,
}
use project_lariat.Pmm.{
  E820Entry, Pmm, add_region, add_regions, align_down, align_up, blank, choose_table,
  e820_type_available, highest_addr, init_e820, page_size, reserve, u64,
}
use project_lariat.Pmm.Mark.{
  size-mark_free, size-mark_used, total-mark_free, total-mark_used, within,
}

-- The whole pages of an available entry, and of a table.
pub in_region : E820Entry → ℕ → Bool
in_region e q =
    (e.kind == e820_type_available && ltb 0 e.length)
    && (leb (align_up e.base / page_size) q
        && ltb q (align_down ((e.base + e.length) % u64) / page_size))

pub available : List E820Entry → ℕ → Bool
available [] q = false
available (e ∷ es) q = in_region e q || available es q

-- The pages that the allocator keeps back: the kernel's, the low 2 MB, the boot stack's, the
-- bitmap's.
pub reserved : ℕ → ℕ → ℕ → Bool
reserved bss_end size q =
    within (align_up bss_end / page_size) ((size + page_size - 1) / page_size) q
    || (within 0x2F0 16 q
        || (within 0 512 q || within 0x100 (align_up bss_end / page_size - 0x100) q))

total-add_region : (e : E820Entry) (s : Pmm) → (add_region e s).total_pages ≡ s.total_pages
unfolding add_region
total-add_region e s =
    let start = align_up e.base in
    let end = align_down ((e.base + e.length) % u64) in
    ground (arith, total-mark_free start ((end - start) / page_size) s)

size-add_region : (e : E820Entry) (s : Pmm) → (add_region e s).bitmap_size ≡ s.bitmap_size
unfolding add_region
size-add_region e s =
    let start = align_up e.base in
    let end = align_down ((e.base + e.length) % u64) in
    ground (arith, size-mark_free start ((end - start) / page_size) s)

total-add_regions :
    (es : List E820Entry) (s : Pmm)
    → ((add_regions es s).total_pages ≡ s.total_pages)
      × ((add_regions es s).bitmap_size ≡ s.bitmap_size)
unfolding add_regions
total-add_regions [] s = (refl, refl)
total-add_regions (e ∷ es) s =
    omega (arith, total-add_regions es (add_region e s), total-add_region e s, size-add_region e s)

total-reserve :
    (bss_end : ℕ) (s : Pmm)
    → ((reserve bss_end s).total_pages ≡ s.total_pages)
      × ((reserve bss_end s).bitmap_size ≡ s.bitmap_size)
unfolding reserve
total-reserve bss_end s = simp (total-mark_used, size-mark_used) (refl, refl)

pub total-init_e820 :
    (bss_end entry_count : ℕ) (entries : List E820Entry)
    → (init_e820 bss_end entry_count entries).total_pages
      ≡ (blank (highest_addr (choose_table entry_count entries))).total_pages
unfolding init_e820
total-init_e820 bss_end entry_count entries =
    let table = choose_table entry_count entries in
    let first = blank (highest_addr table) in
    (total-reserve bss_end (add_regions table first)).0 ∙ (total-add_regions table first).0
