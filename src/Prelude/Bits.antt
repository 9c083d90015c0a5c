-- ===== src/Prelude/Bits.antt =====
-- One bit of a byte: tests and updates by masks, with their laws by tables over all bytes.
use Prim.Native.Nat.{ℕ, zero, suc, ◌-◌, ◌/◌, ◌%◌, ◌^◌, ◌<◌, bit_and, bit_or}
use mathlib.Core.Path.{◌≡◌, refl}
use mathlib.Core.Bool.{Bool, true, false, ◌&&◌}
use native.Mathlib.Omega.{arith}
use project_lariat.Prelude.Tests.{if◌then◌else◌, ltb, ltb→lt, ◌==◌}

abbrev pub bool_eq : Bool → Bool → Bool
bool_eq true b = b
bool_eq false true = false
bool_eq false false = true

pub bool_eq_sound : (a b : Bool) → bool_eq a b ≡ true → a ≡ b
bool_eq_sound true true h = refl
bool_eq_sound true false h = ground arith
bool_eq_sound false true h = ground arith
bool_eq_sound false false h = refl

-- `(b >> k) & 1`
unfoldable pub bit_at : ℕ → ℕ → Bool
bit_at b k = (b / 2 ^ k) % 2 == 1

-- `b | (1 << k)` and `b & ~(1 << k)`, in a byte
unfoldable pub bit_on : ℕ → ℕ → ℕ
bit_on b k = bit_or b (2 ^ k) % 256

unfoldable pub bit_off : ℕ → ℕ → ℕ
bit_off b k = bit_and b (255 - 2 ^ k)

-- Every property of a byte and two bit positions that evaluation confirms holds.
unfoldable pub each : (ℕ → Bool) → ℕ → Bool
each test zero = true
each test (suc k) = each test k && test k

pub each-true : (test : ℕ → Bool) (k i : ℕ) → i < k → each test k ≡ true → test i ≡ true
unfolding each
each-true test zero i below whole = elim below [ ]
each-true test (suc k) i below whole = ground (arith, each-true test k i)

all_bits : (ℕ → ℕ → ℕ → Bool) → Bool
unfolding each
all_bits p = each (λ b. each (λ k. each (λ j. p b k j) 8) 8) 256

all_bits_sound :
    (p : ℕ → ℕ → ℕ → Bool) (b k j : ℕ)
    → all_bits p ≡ true
    → b < 256
    → k < 8
    → j < 8
    → p b k j ≡ true
unfolding all_bits
all_bits_sound p b k j h hb hk hj = each-true (p b k) 8 j hj (
    each-true (λ k. each (p b k) 8) 8 k hk
      (each-true (λ b. each (λ k. each (p b k) 8) 8) 256 b hb h))

abbrev on_row : ℕ → ℕ → ℕ → Bool
unfolding bit_at bit_on
on_row b k j = bool_eq (bit_at (bit_on b k) j) (if k == j then true else bit_at b j)

on_table : all_bits on_row ≡ true
unfolding all_bits on_row bit_at bit_on
on_table = refl

pub bit_at-bit_on :
    (b k j : ℕ)
    → b < 256
    → k < 8
    → j < 8
    → bit_at (bit_on b k) j ≡ (if k == j then true else bit_at b j)
unfolding on_row
bit_at-bit_on b k j hb hk hj = bool_eq_sound _ _ (all_bits_sound on_row b k j on_table hb hk hj)

abbrev off_row : ℕ → ℕ → ℕ → Bool
unfolding bit_at bit_off
off_row b k j = bool_eq (bit_at (bit_off b k) j) (if k == j then false else bit_at b j)

off_table : all_bits off_row ≡ true
unfolding all_bits off_row bit_at bit_off
off_table = refl

pub bit_at-bit_off :
    (b k j : ℕ)
    → b < 256
    → k < 8
    → j < 8
    → bit_at (bit_off b k) j ≡ (if k == j then false else bit_at b j)
unfolding off_row
bit_at-bit_off b k j hb hk hj = bool_eq_sound _ _ (all_bits_sound off_row b k j off_table hb hk hj)

pub bit_on-lt : (b k : ℕ) → bit_on b k < 256
unfolding bit_on
bit_on-lt b k = omega arith

abbrev byte_row : ℕ → ℕ → ℕ → Bool
unfolding bit_off
byte_row b k j = ltb (bit_off b k) 256

byte_table : all_bits byte_row ≡ true
unfolding all_bits byte_row bit_off
byte_table = refl

pub bit_off-lt : (b k : ℕ) → b < 256 → k < 8 → bit_off b k < 256
unfolding byte_row
bit_off-lt b k hb hk = ltb→lt _ _ (all_bits_sound byte_row b k 0 byte_table hb hk (omega arith))

ones_table : each (bit_at 255) 8 ≡ true
unfolding each bit_at
ones_table = refl

-- In a byte of ones every bit is set.
pub bit_at-ones : (k : ℕ) → k < 8 → bit_at 255 k ≡ true
bit_at-ones k h = each-true (bit_at 255) 8 k h ones_table
