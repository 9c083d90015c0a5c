-- ===== src/Block/Find.antt =====
-- kernel/block.c: what `bcache_find` finds, and where `bcache_put` writes.
use project_lariat.Prelude.{
  Bool-cases, Option-cases, arith, false, if◌then◌else◌, inl, inr, ltb, none, some, subst, suc,
  true, zero, ℕ, ℕ_discrete, ◌+◌, ◌<◌, ◌≡◌, ◌≢◌, ◌≤◌,
}
use project_lariat.Block.{
  Cache, bcache_entries, bcache_find, bcache_victim, find_from, is_for, slot_for, victim_from,
}

module _ {Sector : Type 0} (dev lba : ℕ) (c : Cache Sector) where
  find_from-some :
      (n i j : ℕ)
      → find_from n i dev lba c ≡ some j
      → (i ≤ j) × (j < i + n) × (is_for dev lba (c.bcache j) ≡ true)
  unfolding find_from
  find_from-some zero i j e = absurd (ground arith)
  find_from-some (suc n) i j e = elim (Bool-cases (is_for dev lba (c.bcache i))) [
    | inl hit ↦
        let same : i ≡ j = ground (arith, e, hit) in
        (
          omega (arith, same),
          omega (arith, same),
          subst (λ k. is_for dev lba (c.bcache k) ≡ true) same hit,
        )
    | inr miss ↦
        let (a, b, m) = find_from-some n (i + 1) j (ground (arith, e, miss)) in
        (omega (arith, a), omega (arith, b), m)
  ]

  find_from-none :
      (n i j : ℕ)
      → find_from n i dev lba c ≡ none
      → i ≤ j
      → j < i + n
      → is_for dev lba (c.bcache j) ≡ false
  unfolding find_from
  find_from-none zero i j e a b = absurd (omega arith)
  find_from-none (suc n) i j e a b = elim (ℕ_discrete i j) [
    | yes same ↦ ground (arith, e)
    | no other ↦ find_from-none n (i + 1) j (ground (arith, e)) (omega arith) (omega arith)
  ]

  pub find_some :
      (j : ℕ)
      → bcache_find dev lba c ≡ some j
      → (j < bcache_entries) × (is_for dev lba (c.bcache j) ≡ true)
  unfolding bcache_find
  find_some j e = let (a, b, m) = find_from-some bcache_entries 0 j e in (omega (arith, b), m)

  pub find_none :
      (j : ℕ)
      → bcache_find dev lba c ≡ none
      → j < bcache_entries
      → is_for dev lba (c.bcache j) ≡ false
  unfolding bcache_find
  find_none j e h = find_from-none bcache_entries 0 j e (omega arith) (omega arith)

  victim_from-lt :
      (n i best age : ℕ)
      → best < bcache_entries
      → i + n ≤ bcache_entries
      → victim_from n i best age c < bcache_entries
  unfolding victim_from
  victim_from-lt zero i best age h k = h
  victim_from-lt (suc n) i best age h k =
      let older = ltb (c.bcache i).age age in
      ground (
        arith,
        victim_from-lt n (i + 1) (if older then i else best)
            (if older then (c.bcache i).age else age),
      )

  -- `bcache_put` writes inside the array.
  pub slot_for-lt : slot_for dev lba c < bcache_entries
  unfolding slot_for bcache_victim
  slot_for-lt = elim (Option-cases (bcache_find dev lba c)) [
    | inl e ↦
        rw (e, slot_for) (victim_from-lt bcache_entries 0 0 0xFFFFFFFF (omega arith) (omega arith))
    | inr (j, e) ↦ rw (e, slot_for) (find_some j e).0
  ]

  -- An entry for the sector outside that slot would be a second one.
  pub slot_for_only :
      ((i j a b : ℕ)
        → i < bcache_entries
        → j < bcache_entries
        → is_for a b (c.bcache i) ≡ true
        → is_for a b (c.bcache j) ≡ true
        → i ≡ j)
      → (j : ℕ) → j < bcache_entries
      → slot_for dev lba c ≢ j
      → is_for dev lba (c.bcache j) ≡ false
  unfolding slot_for
  slot_for_only unique j h ne = elim (Option-cases (bcache_find dev lba c)) [
    | inl e ↦ find_none j e h
    | inr (k, e) ↦
        let (lt, hit) = find_some k e in
        elim (Bool-cases (is_for dev lba (c.bcache j))) [
          | inl also ↦ absurd (ne (rw (e, slot_for) (unique k j dev lba lt h hit also)))
          | inr no_hit ↦ no_hit
        ]
  ]
