-- ===== src/Block/Span.antt =====
-- kernel/block.c: lemmas on rows of sectors, and on transfers that are short.
use project_lariat.Prelude.{
  List, ap, ap₂, arith, false, inl, inr, negsuc, pos, refl, suc, sym, zero, ℕ, ℕ_discrete, ℤ, ◌*◌,
  ◌++◌, ◌+◌, ◌<◌, ◌∙◌, ◌∷◌, ◌≡◌, ◌≢◌, ◌≤◌, ◌⊎◌,
}
use project_lariat.Block.{Cache, add64, is_negative, run_from, sector_size, span}
use project_lariat.Block.Coherent.{store, store_all}

module _ {Sector : Type 0} where
  span-append :
      (f : ℕ → Sector) (first i m n : ℕ)
      → span f first i (m + n) ≡ span f first i m ++ span f first (i + m) n
  span-append f first i zero n = ap₂ (λ a b. span f first a b) (omega arith) (omega arith)
  span-append f first i (suc m) n =
      let more : suc m + n ≡ suc (m + n) = omega arith in
      let place : i + 1 + m ≡ i + suc m = omega arith in
      ap (span f first i) more
      ∙ ap (◌∷◌ (f (add64 first i))) (
          span-append f first (i + 1) m n
          ∙ ap (λ k. span f first (i + 1) m ++ span f first k n) place)

  pub span_shift :
      (f : ℕ → Sector) (first i j n : ℕ) → span f (add64 first i) j n ≡ span f first (i + j) n
  span_shift f first i j zero = refl
  span_shift f first i j (suc n) =
      ap₂ ◌∷◌ (ap f (omega arith))
        (span_shift f first i (j + 1) n ∙ ap (λ a. span f first a n) (omega arith))

  pub grown :
      (f : ℕ → Sector) (first i n : ℕ) (out ys : List Sector)
      → out ≡ span f first 0 i
      → ys ≡ span f first i n
      → out ++ ys ≡ span f first 0 (i + n)
  grown f first i n out ys o y =
      let place : i ≡ 0 + i = omega arith in
      ap₂ ◌++◌ o (y ∙ ap (λ k. span f first k n) place) ∙ sym (span-append f first 0 i n)

  -- Writing what is there already changes nothing.
  pub store_all-span :
      (f : ℕ → ℕ → Sector) (dev first n k : ℕ) (g : ℕ → ℕ → Sector)
      → ((x y : ℕ) → g x y ≡ f x y)
      → (e a : ℕ) → store_all g dev first k (span (f dev) first k n) e a ≡ f e a
  store_all-span f dev first zero k g h e a = h e a
  store_all-span f dev first (suc n) k g h e a =
      store_all-span f dev first n (k + 1) (store g dev (add64 first k) (f dev (add64 first k)))
        (λ x y. ground (arith, h x y)) e a

  pub run_from_bounds :
      (fuel dev lba count i run : ℕ) (c : Cache Sector)
      → 0 < run
      → i + run ≤ count
      → let r = run_from fuel dev lba count i run c in (0 < r) × (i + r ≤ count)
  unfolding run_from
  run_from_bounds zero dev lba count i run c p h = (p, h)
  run_from_bounds (suc fuel) dev lba count i run c p h =
      ground (arith, run_from_bounds fuel dev lba count i (run + 1) c)

-- A transfer whose answer the layer takes for success though it has not all bytes.
abbrev pub IsShort : ℤ → ℤ → ℕ → Type 0
IsShort taken answer n = (is_negative taken ≡ false) × (answer ≢ pos (sector_size * n))

pub ℤ-cases : (a b : ℤ) → (a ≡ b) ⊎ (a ≢ b)
ℤ-cases (pos m) (pos n) = elim (ℕ_discrete m n) [
  | yes e ↦ inl (ap pos e)
  | no ne ↦ inr (λ q. ne (ground (arith, q)))
]
ℤ-cases (pos m) (negsuc n) = inr (λ q. ground (arith, q))
ℤ-cases (negsuc m) (pos n) = inr (λ q. ground (arith, q))
ℤ-cases (negsuc m) (negsuc n) = elim (ℕ_discrete m n) [
  | yes e ↦ inl (ap negsuc e)
  | no ne ↦ inr (λ q. ne (ground (arith, q)))
]
