-- ===== src/Net/Checksum.antt =====
-- kernel/net/ipv4.c: the internet checksum (RFC 1071).
pub mod Fold
mod Sum
pub mod Verify
use project_lariat.Prelude.{
  List, Option, [], if◌then◌else◌, none, some, suc, zero, ℕ, ◌%◌, ◌*◌, ◌+◌, ◌-◌, ◌/◌, ◌==◌, ◌^◌,
  ◌∷◌,
}

-- The loop of `inet_sum` over the bytes, two at a time, with the sum in a `uint32_t`.
unfoldable pub inet_sum : List ℕ → ℕ → ℕ
inet_sum [] sum = sum
inet_sum (a ∷ []) sum = (sum + a) % 2 ^ 32
inet_sum (a ∷ b ∷ xs) sum = inet_sum xs ((sum + (a + b * 256)) % 2 ^ 32)

-- `while (sum >> 16) sum = (sum & 0xFFFF) + (sum >> 16);` with fuel for its rounds; `none` means
-- that the fuel ran out.
unfoldable pub fold_from : ℕ → ℕ → Option ℕ
fold_from zero sum = none
fold_from (suc fuel) sum =
    let rest = fold_from fuel (sum % 2 ^ 16 + sum / 2 ^ 16) in
    if sum / 2 ^ 16 == 0 then some sum else rest

-- The loop on a `uint32_t` makes two rounds at most, so that three tests are enough; the result 0
-- for more is never given.
unfoldable pub folded : ℕ → ℕ
folded sum = elim (fold_from 3 sum) [ none ↦ 0 | some r ↦ r ]

-- `(uint16_t)~sum` of the folded sum.
unfoldable pub inet_fold : ℕ → ℕ
inet_fold sum = 0xFFFF - folded sum

unfoldable pub inet_checksum : List ℕ → ℕ
inet_checksum xs = inet_fold (inet_sum xs 0)
