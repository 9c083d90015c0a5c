-- ===== src/Net/Checksum/Fold.antt =====
-- kernel/net/ipv4.c: the loop of `inet_fold`.
use project_lariat.Prelude.{
  Bool-cases, arith, inl, inr, ltb, some, suc, ℕ, ◌%◌, ◌*◌, ◌+◌, ◌/◌, ◌<◌, ◌^◌, ◌∙◌, ◌≡◌, ◌≤◌,
}
use project_lariat.Net.Checksum.{fold_from, folded}

round_small : (s : ℕ) → s < 2 ^ 16 → (fuel : ℕ) → fold_from (suc fuel) s ≡ some s
unfolding fold_from
round_small s h fuel = ground arith

round_large :
    (s : ℕ)
    → 2 ^ 16 ≤ s
    → (fuel : ℕ) → fold_from (suc fuel) s ≡ fold_from fuel (s % 2 ^ 16 + s / 2 ^ 16)
unfolding fold_from
round_large s h fuel = ground arith

-- The folded sum fits 16 bits, is congruent to the sum modulo 65535, and is 0 only for 0.
pub record Folds (s r : ℕ) : Type 0 where
  pub fits : r < 2 ^ 16
  pub times : ℕ
  pub congruent : s ≡ r + 65535 * times
  pub nonzero : 0 < s → 0 < r

Folds-round : (s r : ℕ) → 2 ^ 16 ≤ s → Folds (s % 2 ^ 16 + s / 2 ^ 16) r → Folds s r
Folds-round s r h f = record {
  fits = f.fits;
  times = f.times + s / 2 ^ 16;
  congruent = omega (arith, f.congruent);
  nonzero = λ p. f.nonzero (omega arith);
}

Folds-self : (s : ℕ) → s < 2 ^ 16 → Folds s s
Folds-self s h = record { fits = h; times = 0; congruent = omega arith; nonzero = λ p. p }

-- The loop of `inet_fold` ends on every `uint32_t` within three tests; its result fits 16 bits, is
-- congruent to the sum modulo 65,535, and is 0 only for 0.
pub fold_from-Folds : (s : ℕ) → s < 2 ^ 32 → (r : ℕ) × (fold_from 3 s ≡ some r) × Folds s r
fold_from-Folds s h =
    let t = s % 2 ^ 16 + s / 2 ^ 16 in
    let u = t % 2 ^ 16 + t / 2 ^ 16 in
    elim (Bool-cases (ltb s (2 ^ 16))) [
      | inl a ↦ (s, round_small s (ground (arith, a)) 2, Folds-self s (ground (arith, a)))
      | inr a ↦
          let more : 2 ^ 16 ≤ s = ground (arith, a) in
          elim (Bool-cases (ltb t (2 ^ 16))) [
            | inl b ↦ (
              t,
              round_large s more 2 ∙ round_small t (ground (arith, b)) 1,
              Folds-round s t more (Folds-self t (ground (arith, b))),
            )
            | inr b ↦
                let again : 2 ^ 16 ≤ t = ground (arith, b) in
                let last : u < 2 ^ 16 = omega (arith, h) in
                (
                  u,
                  round_large s more 2 ∙ (round_large t again 1 ∙ round_small u last 0),
                  Folds-round s u more (Folds-round t u again (Folds-self u last)),
                )
          ]
    ]

pub folded-Folds : (s : ℕ) → s < 2 ^ 32 → Folds s (folded s)
unfolding folded
folded-Folds s h = let (r, e, f) = fold_from-Folds s h in rw (e, folded) f
