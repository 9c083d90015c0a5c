-- ===== src/Bitmap/Laws.antt =====
-- The bitmap of kernel/pmm.c as a set of pages.
use project_lariat.Prelude.{
  ℕ, ◌*◌, ◌/◌, ◌%◌, ◌≤◌, ◌<◌, ◌≡◌, List, true, false, arith, length, get_or, length-set, get_or-set,
  get_or-All, set-All, All, ◌==◌, if◌then◌else◌, bit_on, bit_off, bit_at-bit_on, bit_at-bit_off,
  bit_on-lt, bit_off-lt,
}
use project_lariat.Bitmap.{bitmap_set, bitmap_clear, bitmap_test}

abbrev pub IsByte : ℕ → Type 0
IsByte b = b < 256

-- `n` pages have their bits in the bitmap, whose entries are bytes.
pub record Covers (bm : List ℕ) (n : ℕ) : Type 0 where
  pub bytes : All IsByte bm
  pub room : n ≤ length bm * 8

byte_of : (bm : List ℕ) (i : ℕ) → All IsByte bm → get_or bm i 0 < 256
byte_of bm i h = get_or-All IsByte bm i 0 h (omega arith)

module _ {bm : List ℕ} {n : ℕ} (p : ℕ) (c : Covers bm n) (h : p < n) where
  pub bitmap_set-Covers : Covers (bitmap_set bm p) n
  unfolding bitmap_set
  bitmap_set-Covers = record {
    bytes = set-All IsByte bm (p / 8) _ c.bytes (bit_on-lt _ _);
    room = omega (arith, length-set bm (p / 8) _);
  }

  pub bitmap_clear-Covers : Covers (bitmap_clear bm p) n
  unfolding bitmap_clear
  bitmap_clear-Covers = record {
    bytes =
        set-All IsByte bm (p / 8) _ c.bytes
          (bit_off-lt _ _ (byte_of bm (p / 8) c.bytes) (omega arith));
    room = omega (arith, length-set bm (p / 8) _);
  }

module _ (bm : List ℕ) (n p q : ℕ) (c : Covers bm n) (h : p < n) where
  pub test-set : bitmap_test (bitmap_set bm p) q ≡ (if p == q then true else bitmap_test bm q)
  unfolding bitmap_set bitmap_test
  test-set = ground (
    arith,
    get_or-set bm (p / 8) (q / 8) (bit_on (get_or bm (p / 8) 0) (p % 8)) 0,
    bit_at-bit_on (get_or bm (p / 8) 0) (p % 8) (q % 8),
    byte_of bm (p / 8) c.bytes,
  )

  pub test-clear : bitmap_test (bitmap_clear bm p) q ≡ (if p == q then false else bitmap_test bm q)
  unfolding bitmap_clear bitmap_test
  test-clear = ground (
    arith,
    get_or-set bm (p / 8) (q / 8) (bit_off (get_or bm (p / 8) 0) (p % 8)) 0,
    bit_at-bit_off (get_or bm (p / 8) 0) (p % 8) (q % 8),
    byte_of bm (p / 8) c.bytes,
  )
