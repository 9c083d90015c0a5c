-- ===== src/Net/Checksum/Sum.antt =====
-- kernel/net/ipv4.c: `inet_sum` as a plain sum of words.
use project_lariat.Prelude.{
  All, List, [], arith, length, ℕ, ◌%◌, ◌*◌, ◌++◌, ◌+◌, ◌<◌, ◌^◌, ◌∷◌, ◌≡◌, ◌≤◌,
}
use project_lariat.Net.Checksum.{inet_sum}

abbrev pub IsByte : ℕ → Type 0
IsByte x = x < 256

-- The sum of the words, each lowest byte first.
abbrev pub words : List ℕ → ℕ
words [] = 0
words (a ∷ []) = a
words (a ∷ b ∷ xs) = a + b * 256 + words xs

pub words-bound : (xs : List ℕ) → All IsByte xs → 2 * words xs ≤ 65535 * (length xs + 1)
words-bound [] h = omega arith
words-bound (a ∷ []) h = omega (arith, h.0)
words-bound (a ∷ b ∷ xs) h = omega (arith, h.0, h.1.0, words-bound xs h.1.1)

-- With no wrap, the loop adds the words.
pub inet_sum-words : (xs : List ℕ) (s : ℕ) → s + words xs < 2 ^ 32 → inet_sum xs s ≡ s + words xs
unfolding inet_sum
inet_sum-words [] s h = omega arith
inet_sum-words (a ∷ []) s h = omega (arith, h)
inet_sum-words (a ∷ b ∷ xs) s h =
    let next : (s + (a + b * 256)) % 2 ^ 32 ≡ s + (a + b * 256) = omega (arith, h) in
    rw next (omega (arith, inet_sum-words xs (s + (a + b * 256)) (omega (arith, h))))

pub words-append : (xs ys : List ℕ) → length xs % 2 ≡ 0 → words (xs ++ ys) ≡ words xs + words ys
words-append [] ys e = omega arith
words-append (a ∷ []) ys e = absurd (omega (arith, e))
words-append (a ∷ b ∷ xs) ys e = omega (arith, words-append xs ys (omega (arith, e)))
