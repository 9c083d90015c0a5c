-- ===== src/Pmm/Boot.antt =====
-- kernel/pmm.c: the state that `pmm_init_e820` leaves.
use project_lariat.Prelude.{
  All, List, [], arith, bit_at-ones, get_or, length-replicate, refl, replicate, suc, sym, true,
  zero, ℕ, ◌%◌, ◌*◌, ◌+◌, ◌-◌, ◌/◌, ◌<◌, ◌^◌, ◌∷◌, ◌≡◌, ◌≤◌,
}
use project_lariat.Bitmap.{bitmap_test}
use project_lariat.Bitmap.Laws.{IsByte}
use project_lariat.Bitmap.Count.{count_free}
use project_lariat.Pmm.{
  E820Entry, Pmm, add_region, add_regions, align_down, align_up, blank, highest_addr,
  highest_addr_from, page_size, phys_to_page, reserve, top_of, u64,
}
use project_lariat.Pmm.Valid.{IsValid, mark_free-IsValid, mark_used-IsValid, used}

full_bytes : (n : ℕ) → All IsByte (replicate n 255)
full_bytes zero = tt
full_bytes (suc n) = (omega arith, full_bytes n)

get_or-full : (n i : ℕ) → i < n → get_or {A = ℕ} (replicate n 255) i 0 ≡ 255
get_or-full zero i h = elim h [ ]
get_or-full (suc n) zero h = refl
get_or-full (suc n) (suc i) h = get_or-full n i (omega arith)

pub full_used : (n p : ℕ) → p < n * 8 → bitmap_test (replicate n 255) p ≡ true
unfolding bitmap_test
full_used n p h = rw (get_or-full n (p / 8) (omega arith)) (bit_at-ones (p % 8) (omega arith))

full_count : (n m : ℕ) → m ≤ n * 8 → count_free (replicate n 255) m ≡ 0
unfolding count_free
full_count n zero h = refl
full_count n (suc m) h = ground (arith, full_count n m, full_used n m)

-- A bitmap of ones for memory of at most 2^64 bytes is valid, with no page free.
pub blank-IsValid : (highest : ℕ) → highest < u64 → IsValid (blank highest)
unfolding blank phys_to_page
blank-IsValid highest h = record {
  covers = record {
    bytes = full_bytes _;
    room = omega (arith, length-replicate {A = ℕ} ((highest / 4096 + 1 + 7) / 8) 255);
  };
  small = omega arith;
  counted = sym (full_count _ _ (omega arith));
}

top_of-lt : (e : E820Entry) (top : ℕ) → top < u64 → top_of e top < u64
unfolding top_of
top_of-lt e top h = ground arith

highest_addr_from-lt : (es : List E820Entry) (top : ℕ) → top < u64 → highest_addr_from es top < u64
unfolding highest_addr_from
highest_addr_from-lt [] top h = h
highest_addr_from-lt (e ∷ es) top h = highest_addr_from-lt es _ (top_of-lt e top h)

pub highest_addr-lt : (es : List E820Entry) → highest_addr es < u64
unfolding highest_addr
highest_addr-lt es = ground (arith, highest_addr_from-lt es 0)

pub add_region-IsValid : (e : E820Entry) (s : Pmm) → IsValid s → IsValid (add_region e s)
unfolding add_region
add_region-IsValid e s v =
    let start = align_up e.base in
    let end = align_down ((e.base + e.length) % u64) in
    ground (arith, mark_free-IsValid start ((end - start) / page_size) s v)

pub add_regions-IsValid : (es : List E820Entry) (s : Pmm) → IsValid s → IsValid (add_regions es s)
unfolding add_regions
add_regions-IsValid [] s v = v
add_regions-IsValid (e ∷ es) s v = add_regions-IsValid es _ (add_region-IsValid e s v)

pub reserve-IsValid : (bss_end : ℕ) (s : Pmm) → IsValid s → IsValid (reserve bss_end s)
unfolding reserve
reserve-IsValid bss_end s v =
    mark_used-IsValid _ _ _
      (mark_used-IsValid _ _ _ (mark_used-IsValid _ _ _ (mark_used-IsValid _ _ _ v)))

-- The bitmap of ones has every page in use.
pub blank-used : (highest q : ℕ) → q < (blank highest).total_pages → used (blank highest) q ≡ true
unfolding blank
blank-used highest q h = full_used _ q (omega arith)

pub blank_size : (highest : ℕ) → highest < u64 → (blank highest).bitmap_size ≤ 2 ^ 50
unfolding blank phys_to_page
blank_size highest h = omega arith
