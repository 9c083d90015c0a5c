-- ===== src/Net/Bytes.antt =====
-- include/net.h: what is read from a buffer after a write.
use project_lariat.Prelude.{
  List, [], ap, ap₂, arith, get_or, length, refl, suc, sym, zero, ℕ, ◌%◌, ◌*◌, ◌++◌, ◌+◌, ◌/◌, ◌<◌,
  ◌^◌, ◌∙◌, ◌∷◌, ◌≡◌, ◌≤◌,
}
use project_lariat.ThreadQueue.{update}
use project_lariat.Net.{htons, load16, load32, read_at, write_at}

pub write_at_before : (xs : List ℕ) (o i : ℕ) (m : ℕ → ℕ) → i < o → write_at o xs m i ≡ m i
unfolding write_at
write_at_before [] o i m h = refl
write_at_before (x ∷ xs) o i m h = ground (arith, write_at_before xs (o + 1) i (update m o x))

pub write_at_after :
    (xs : List ℕ) (o i : ℕ) (m : ℕ → ℕ) → o + length xs ≤ i → write_at o xs m i ≡ m i
unfolding write_at
write_at_after [] o i m h = refl
write_at_after (x ∷ xs) o i m h = ground (arith, write_at_after xs (o + 1) i (update m o x))

read_at-same :
    (n o : ℕ) (m k : ℕ → ℕ) → ((i : ℕ) → o ≤ i → m i ≡ k i) → read_at o n m ≡ read_at o n k
unfolding read_at
read_at-same zero o m k h = refl
read_at-same (suc n) o m k h =
    ap₂ ◌∷◌ (h o (omega arith)) (read_at-same n (o + 1) m k (λ i le. h i (omega arith)))

-- What was written is read.
pub read_at-write_at :
    (xs : List ℕ) (o : ℕ) (m : ℕ → ℕ) → read_at o (length xs) (write_at o xs m) ≡ xs
unfolding read_at write_at
read_at-write_at [] o m = refl
read_at-write_at (x ∷ xs) o m =
    ap₂ ◌∷◌ (ground (arith, write_at_before xs (o + 1) o (update m o x)))
      (read_at-write_at xs (o + 1) (update m o x))

-- Bytes behind the write are kept.
pub read_at_behind :
    (n : ℕ) (xs : List ℕ) (o i : ℕ) (m : ℕ → ℕ)
    → o + length xs ≤ i
    → read_at i n (write_at o xs m) ≡ read_at i n m
read_at_behind n xs o i m h =
    read_at-same n i (write_at o xs m) m (λ j le. write_at_after xs o j m (omega arith))

pub read_at-split :
    (a b o : ℕ) (m : ℕ → ℕ) → read_at o (a + b) m ≡ read_at o a m ++ read_at (o + a) b m
unfolding read_at
read_at-split zero b o m = ground arith
read_at-split (suc a) b o m =
    let count : suc a + b ≡ suc (a + b) = omega arith in
    let place : o + 1 + a ≡ o + suc a = omega arith in
    ap (λ n. read_at o n m) count
    ∙ ap (◌∷◌ (m o))
        (read_at-split a b (o + 1) m ∙ ap (λ i. read_at (o + 1) a m ++ read_at i b m) place)

pub length-read_at : (n o : ℕ) (m : ℕ → ℕ) → length (read_at o n m) ≡ n
unfolding read_at
length-read_at zero o m = refl
length-read_at (suc n) o m = ap suc (length-read_at n (o + 1) m)

pub htons-load16 : (x : ℕ) → x < 2 ^ 16 → htons (htons x % 256 + htons x / 256 % 256 * 256) ≡ x
unfolding htons
htons-load16 x h = omega arith

pub load32-bytes32 :
    (x : ℕ)
    → x < 2 ^ 32
    → x % 256 + x / 256 % 256 * 256 + x / 2 ^ 16 % 256 * 2 ^ 16 + x / 2 ^ 24 % 256 * 2 ^ 24 ≡ x
load32-bytes32 x h = omega arith

-- What a read list says of the memory.
pub get_or-read_at : (n o k : ℕ) (m : ℕ → ℕ) → k < n → get_or (read_at o n m) k 0 ≡ m (o + k)
unfolding read_at
get_or-read_at zero o k m h = absurd (omega arith)
get_or-read_at (suc n) o zero m h = ap m (omega arith)
get_or-read_at (suc n) o (suc k) m h =
    get_or-read_at n (o + 1) k m (omega arith) ∙ ap m (omega arith)

module _ (o : ℕ) (m : ℕ → ℕ) (xs : List ℕ) (n : ℕ) (h : read_at o n m ≡ xs) where
  pub load8_carried : (k : ℕ) → k < n → m (o + k) ≡ get_or xs k 0
  load8_carried k lt = sym (get_or-read_at n o k m lt) ∙ ap (λ ys. get_or ys k 0) h

  pub load16_carried :
      (k : ℕ) → suc k < n → load16 m (o + k) ≡ get_or xs k 0 + get_or xs (suc k) 0 * 256
  load16_carried k lt =
      let place : o + k + 1 ≡ o + suc k = omega arith in
      ap₂ (λ (a b : ℕ). a + b * 256) (load8_carried k (omega (arith, lt)))
        (ap m place ∙ load8_carried (suc k) lt)

  pub load32_carried :
      (k : ℕ)
      → k + 3 < n
      → load32 m (o + k)
        ≡ get_or xs k 0
          + get_or xs (k + 1) 0 * 256
          + get_or xs (k + 2) 0 * 2 ^ 16
          + get_or xs (k + 3) 0 * 2 ^ 24
  load32_carried k lt =
      let at_byte : (j : ℕ) → j < 4 → m (o + k + j) ≡ get_or xs (k + j) 0 = λ j small.
        let place : o + k + j ≡ o + (k + j) = omega arith in
        ap m place ∙ load8_carried (k + j) (omega (arith, lt, small)) in
      omega (
        arith,
        load8_carried k (omega (arith, lt)),
        at_byte 1 (omega arith),
        at_byte 2 (omega arith),
        at_byte 3 (omega arith),
      )
