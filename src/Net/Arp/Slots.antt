-- ===== src/Net/Arp/Slots.antt =====
-- kernel/net/arp.c: the loops over the cache.
use project_lariat.Prelude.{
  Bool, Bool-cases, Option-cases, ap, arith, false, inl, inr, none, refl, some, subst, suc, true,
  zero, ℕ, ℕ_discrete, ◌+◌, ◌<◌, ◌≡◌, ◌≤◌,
}
use project_lariat.Net.Arp.{
  ArpCache, ArpEntry, arp_alloc_slot, arp_cache_size, first_entry, is_expired, is_idle, is_unused,
}

module _ (test : ArpEntry → Bool) (cache : ArpCache) where
  pub first_entry-some :
      (n i k : ℕ)
      → first_entry test n i cache ≡ some k
      → (i ≤ k) × (k < i + n) × (test (cache k) ≡ true)
  unfolding first_entry
  first_entry-some zero i k e = absurd (ground arith)
  first_entry-some (suc n) i k e = elim (Bool-cases (test (cache i))) [
    | inl hit ↦
        let same : i ≡ k = ground (arith, e, hit) in
        (omega (arith, same), omega (arith, same), subst (λ j. test (cache j) ≡ true) same hit)
    | inr miss ↦
        let (a, b, m) = first_entry-some n (i + 1) k (ground (arith, e, miss)) in
        (omega (arith, a), omega (arith, b), m)
  ]

  pub first_entry-first :
      (n i k j : ℕ) → first_entry test n i cache ≡ some k → i ≤ j → j < k → test (cache j) ≡ false
  unfolding first_entry
  first_entry-first zero i k j e a b = absurd (ground arith)
  first_entry-first (suc n) i k j e a b = elim (Bool-cases (test (cache i))) [
    | inl hit ↦ let same : i ≡ k = ground (arith, e, hit) in absurd (omega (arith, same, a, b))
    | inr miss ↦ elim (ℕ_discrete i j) [
      | yes here ↦ subst (λ q. test (cache q) ≡ false) here miss
      | no later ↦
          first_entry-first n (i + 1) k j (ground (arith, e, miss)) (omega (arith, a, later)) b
    ]
  ]

  pub first_entry-none :
      (n i j : ℕ) → first_entry test n i cache ≡ none → i ≤ j → j < i + n → test (cache j) ≡ false
  unfolding first_entry
  first_entry-none zero i j e a b = absurd (omega arith)
  first_entry-none (suc n) i j e a b = elim (ℕ_discrete i j) [
    | yes same ↦ ground (arith, e)
    | no other ↦ first_entry-none n (i + 1) j (ground (arith, e)) (omega arith) (omega arith)
  ]

  pub first_entry-at :
      (n i k : ℕ)
      → i ≤ k
      → k < i + n
      → test (cache k) ≡ true
      → ((j : ℕ) → i ≤ j → j < k → test (cache j) ≡ false)
      → first_entry test n i cache ≡ some k
  unfolding first_entry
  first_entry-at zero i k a b hit before = absurd (omega arith)
  first_entry-at (suc n) i k a b hit before = elim (ℕ_discrete i k) [
    | yes same ↦ ground (arith, hit, ap some same)
    | no other ↦
        let rest =
          first_entry-at n (i + 1) k (omega arith) (omega arith) hit
            (λ j c d. before j (omega (arith, c)) d) in
        ground (arith, rest, before i (omega arith) (omega arith))
  ]

  -- If some entry passes, one is found.
  pub first_entry-exists :
      (n i j : ℕ)
      → i ≤ j
      → j < i + n
      → test (cache j) ≡ true
      → (k : ℕ) × (first_entry test n i cache ≡ some k)
  first_entry-exists n i j a b hit = elim (Option-cases (first_entry test n i cache)) [
    | inl e ↦ absurd (ground (arith, first_entry-none n i j e a b, hit))
    | inr (k, e) ↦ (k, e)
  ]

pub first_entry-absent :
    (test : ArpEntry → Bool) (cache : ArpCache) (n i : ℕ)
    → ((j : ℕ) → i ≤ j → j < i + n → test (cache j) ≡ false)
    → first_entry test n i cache ≡ none
unfolding first_entry
first_entry-absent test cache zero i all = refl
first_entry-absent test cache (suc n) i all = ground (
  arith,
  all i (omega arith) (omega arith),
  first_entry-absent test cache n (i + 1) (λ j a b. all j (omega (arith, a)) (omega (arith, b))),
)

pub arp_alloc_slot-lt : (now : ℕ) (cache : ArpCache) → arp_alloc_slot now cache < arp_cache_size
unfolding arp_alloc_slot
arp_alloc_slot-lt now cache = elim (Option-cases (first_entry is_unused arp_cache_size 0 cache)) [
  | inr (k, e) ↦ ground (arith, e, first_entry-some is_unused cache arp_cache_size 0 k e)
  | inl e ↦ elim (Option-cases (first_entry (is_expired now) arp_cache_size 0 cache)) [
    | inr (k, f) ↦
        ground (arith, e, f, first_entry-some (is_expired now) cache arp_cache_size 0 k f)
    | inl f ↦ elim (Option-cases (first_entry is_idle arp_cache_size 0 cache)) [
      | inr (k, g) ↦ ground (arith, e, f, g, first_entry-some is_idle cache arp_cache_size 0 k g)
      | inl g ↦ ground (arith, e, f, g)
    ]
  ]
]
