-- ===== src/Bitmap/Count.antt =====
-- The number of free pages in a bitmap.
use project_lariat.Prelude.{
  Bool, List, arith, false, if◌then◌else◌, ltb, not, suc, true, zero, ℕ, ◌+◌, ◌<◌, ◌≡◌, ◌≤◌,
}
use project_lariat.Bitmap.{bitmap_clear, bitmap_set, bitmap_test}
use project_lariat.Bitmap.Laws.{Covers, test-clear, test-set}

abbrev pub free_bit : Bool → ℕ
free_bit true = 0
free_bit false = 1

-- The pages below `n` whose bit is clear.
unfoldable pub count_free : List ℕ → ℕ → ℕ
count_free bm zero = 0
count_free bm (suc n) = count_free bm n + free_bit (bitmap_test bm n)

pub count_free-le : (bm : List ℕ) (n : ℕ) → count_free bm n ≤ n
unfolding count_free
count_free-le bm zero = omega arith
count_free-le bm (suc n) = ground (arith, count_free-le bm n)

module _ {bm : List ℕ} {n : ℕ} (p : ℕ) (c : Covers bm n) (h : p < n) where
  count_set_below :
      (m : ℕ)
      → m ≤ n
      → count_free (bitmap_set bm p) m + (if ltb p m then free_bit (bitmap_test bm p) else 0)
        ≡ count_free bm m
  unfolding count_free
  count_set_below zero k = ground arith
  count_set_below (suc m) k = ground (arith, count_set_below m, test-set bm n p m c h)

  count_clear_below :
      (m : ℕ)
      → m ≤ n
      → count_free (bitmap_clear bm p) m
        ≡ count_free bm m + (if ltb p m then free_bit (not (bitmap_test bm p)) else 0)
  unfolding count_free
  count_clear_below zero k = ground arith
  count_clear_below (suc m) k = ground (arith, count_clear_below m, test-clear bm n p m c h)

  pub count-set : count_free (bitmap_set bm p) n + free_bit (bitmap_test bm p) ≡ count_free bm n
  count-set = ground (arith, count_set_below n)

  pub count-clear :
      count_free (bitmap_clear bm p) n ≡ count_free bm n + free_bit (not (bitmap_test bm p))
  count-clear = ground (arith, count_clear_below n)
