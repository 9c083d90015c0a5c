-- ===== src/Bitmap.antt =====
-- kernel/pmm.c, the bitmap helpers: one bit for each page, set for a page in use.
pub mod Laws
pub mod Count
use project_lariat.Prelude.{ℕ, ◌/◌, ◌%◌, Bool, List, get_or, set, bit_at, bit_on, bit_off}

unfoldable pub bitmap_set : List ℕ → ℕ → List ℕ
bitmap_set bm page = set bm (page / 8) (bit_on (get_or bm (page / 8) 0) (page % 8))

unfoldable pub bitmap_clear : List ℕ → ℕ → List ℕ
bitmap_clear bm page = set bm (page / 8) (bit_off (get_or bm (page / 8) 0) (page % 8))

unfoldable pub bitmap_test : List ℕ → ℕ → Bool
bitmap_test bm page = bit_at (get_or bm (page / 8) 0) (page % 8)
