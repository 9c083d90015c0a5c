-- ===== src/Net/Checksum/Verify.antt =====
-- kernel/net/ipv4.c: a packet that carries its checksum is accepted.
use project_lariat.Prelude.{
  All, List, ap, arith, length, ℕ, ◌%◌, ◌*◌, ◌++◌, ◌+◌, ◌-◌, ◌/◌, ◌<◌, ◌^◌, ◌∙◌, ◌∷◌, ◌≡◌,
}
use project_lariat.Net.Checksum.{folded, inet_checksum, inet_fold, inet_sum}
use project_lariat.Net.Checksum.Fold.{Folds, folded-Folds}
use project_lariat.Net.Checksum.Sum.{IsByte, inet_sum-words, words, words-append, words-bound}

-- The words of a packet with the two bytes of its checksum field.
packet_words :
    (pre post : List ℕ) (lo hi : ℕ)
    → length pre % 2 ≡ 0
    → words (pre ++ lo ∷ hi ∷ post) ≡ lo + hi * 256 + (words pre + words post)
packet_words pre post lo hi e = omega (arith, words-append pre (lo ∷ hi ∷ post) e)

no_wrap :
    (pre post : List ℕ) (lo hi : ℕ)
    → length pre % 2 ≡ 0
    → length pre + 2 + length post < 2 ^ 16
    → All IsByte pre
    → All IsByte post
    → lo < 256
    → hi < 256
    → inet_sum (pre ++ lo ∷ hi ∷ post) 0 ≡ lo + hi * 256 + (words pre + words post)
no_wrap pre post lo hi e short bp bq l h =
    let all = packet_words pre post lo hi e in
    let small : words pre + words post + 65536 < 2 ^ 32 =
      omega (arith, words-bound pre bp, words-bound post bq, short) in
    inet_sum-words (pre ++ lo ∷ hi ∷ post) 0 (omega (arith, all, small, l, h)) ∙ omega (arith, all)

-- A sum and the complement of its folded value add up to ones.
fold_complement : (s r r' : ℕ) → Folds s r → Folds (s + (65535 - r)) r' → r' ≡ 65535
fold_complement s r r' f g = omega (
  arith,
  f.congruent,
  f.fits,
  g.congruent,
  g.fits,
  g.nonzero (omega (arith, f.congruent, f.fits)),
)

-- The checksum of a packet of less than 2 ^ 16 bytes, computed with its two bytes at an even
-- place set to 0 and then stored there lowest byte first, makes the checksum of the packet 0.
pub inet_checksum_verifies :
    (pre post : List ℕ)
    → length pre % 2 ≡ 0
    → length pre + 2 + length post < 2 ^ 16
    → All IsByte pre
    → All IsByte post
    → let c = inet_checksum (pre ++ 0 ∷ 0 ∷ post) in
      (c < 2 ^ 16) × (inet_checksum (pre ++ c % 256 ∷ c / 256 ∷ post) ≡ 0)
unfolding inet_checksum inet_fold
inet_checksum_verifies pre post e short bp bq =
    let s = words pre + words post in
    let zero_sum = no_wrap pre post 0 0 e short bp bq (omega arith) (omega arith) in
    let small : s + 65536 < 2 ^ 32 =
      omega (arith, words-bound pre bp, words-bound post bq, short) in
    let c = 0xFFFF - folded s in
    let f = folded-Folds s (omega (arith, small)) in
    let sum_of_c = no_wrap pre post (c % 256) (c / 256) e short bp bq (omega arith) (omega arith) in
    let g = folded-Folds (s + (65535 - folded s)) (omega (arith, small)) in
    let total : c % 256 + c / 256 * 256 + s ≡ s + (65535 - folded s) = omega arith in
    let ones = fold_complement s (folded s) (folded (s + (65535 - folded s))) f g in
    let start : inet_sum (pre ++ 0 ∷ 0 ∷ post) 0 ≡ s = zero_sum ∙ omega arith in
    rw start (omega arith, ap (λ t. 0xFFFF - folded t) (sum_of_c ∙ total) ∙ omega (arith, ones))
