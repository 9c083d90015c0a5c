-- ===== src/Block/Write.antt =====
-- kernel/block.c: the two steps of `block_write` keep the cache in agreement with the device.
use project_lariat.Prelude.{
  Bool, Bool-cases, List, [], ap, arith, false, if◌then◌else◌, inl, inr, leb, length, ltb, not, pos,
  refl, some, subst, sym, true, ℕ, ℕ_discrete, ◌&&◌, ◌*◌, ◌+◌, ◌<◌, ◌==◌, ◌^◌, ◌∙◌, ◌∷◌, ◌≡◌, ◌≤◌,
  ◌⊎◌,
}
use project_lariat.Block.{
  Cache, Device, Driver, add64, block_write_cache, block_write_device, is_negative, overwritten,
  raw_write, sector_size,
}
use project_lariat.Block.Span.{IsShort, ℤ-cases}
use project_lariat.Block.Coherent.{
  IsCoherent, IsCoherent-ext, put_from-IsCoherent, store, store_all,
}

-- The sectors `lba`, …, `lba + n - 1` of a device.
abbrev pub InRange : ℕ → ℕ → ℕ → ℕ → ℕ → Type 0
InRange dev lba n e a = (e ≡ dev) × (lba ≤ a) × (a < lba + n)

InRange-cases : (dev lba n e a : ℕ) → InRange dev lba n e a ⊎ (¬ InRange dev lba n e a)
InRange-cases dev lba n e a = elim (Bool-cases (e == dev && (leb lba a && ltb a (lba + n)))) [
  | inl yes_in ↦ inl (ground (arith, yes_in), ground (arith, yes_in), ground (arith, yes_in))
  | inr no_in ↦ inr (λ (q, lo, hi). ground (arith, no_in, q, lo, hi))
]

module _ {Sector : Type 0} where
  overwritten_below :
      (first a : ℕ) (xs : List Sector) (old : Sector) → a < first → overwritten first xs a old ≡ old
  overwritten_below first a [] old h = refl
  overwritten_below first a (x ∷ xs) old h = ground (arith, overwritten_below (first + 1) a xs old)

  -- The sectors that the loop of `block_write` puts are those that the device took.
  store_all-overwritten :
      (f : ℕ → ℕ → Sector) (dev lba k : ℕ) (xs : List Sector) (e a : ℕ)
      → lba + k + length xs ≤ 2 ^ 64
      → store_all f dev lba k xs e a
        ≡ (if dev == e then overwritten (lba + k) xs a (f e a) else f e a)
  store_all-overwritten f dev lba k [] e a h = ground arith
  store_all-overwritten f dev lba k (x ∷ xs) e a h = ground (
    arith,
    store_all-overwritten (store f dev (add64 lba k) x) dev lba (k + 1) xs e a,
    overwritten_below (lba + k + 1) a xs x,
  )

  overwritten_inside :
      (first a : ℕ) (xs : List Sector) (old other : Sector)
      → first ≤ a
      → a < first + length xs
      → overwritten first xs a old ≡ overwritten first xs a other
  overwritten_inside first a [] old other h k = absurd (omega (arith, h, k))
  overwritten_inside first a (x ∷ xs) old other h k =
      ground (arith, h, k, overwritten_inside (first + 1) a xs old other)

  overwritten_above :
      (first a : ℕ) (xs : List Sector) (old : Sector)
      → first + length xs ≤ a
      → overwritten first xs a old ≡ old
  overwritten_above first a [] old h = refl
  overwritten_above first a (x ∷ xs) old h =
      ground (arith, h, overwritten_above (first + 1) a xs old)

  -- A write seen at one sector of one device.
  abbrev pub written : ℕ → ℕ → List Sector → ℕ → ℕ → Sector → Sector
  written dev lba xs e a old = if dev == e then overwritten lba xs a old else old

  store_all-written :
      (f : ℕ → ℕ → Sector) (dev lba : ℕ) (xs : List Sector) (e a : ℕ)
      → lba + length xs ≤ 2 ^ 64
      → store_all f dev lba 0 xs e a ≡ written dev lba xs e a (f e a)
  store_all-written f dev lba xs e a h =
      let start : lba + 0 ≡ lba = omega arith in
      store_all-overwritten f dev lba 0 xs e a (omega (arith, h))
      ∙ ap (λ k. written dev k xs e a (f e a)) start

  written_inside :
      (dev lba : ℕ) (xs : List Sector) (e a : ℕ) (old other : Sector)
      → InRange dev lba (length xs) e a
      → written dev lba xs e a old ≡ written dev lba xs e a other
  written_inside dev lba xs e a old other (same, from, within) =
      ground (arith, same, overwritten_inside lba a xs old other from within)

  written_outside :
      (dev lba : ℕ) (xs : List Sector) (e a : ℕ) (old : Sector)
      → ¬ InRange dev lba (length xs) e a
      → written dev lba xs e a old ≡ old
  written_outside dev lba xs e a old out = elim (ℕ_discrete e dev) [
    | no other ↦ ground (arith, other)
    | yes same ↦ elim (Bool-cases (ltb a lba)) [
      | inl below ↦ ground (arith, same, overwritten_below lba a xs old (ground (arith, below)))
      | inr from ↦ elim (Bool-cases (ltb a (lba + length xs))) [
        | inr above ↦ ground (arith, same, overwritten_above lba a xs old (ground (arith, above)))
        | inl within ↦ absurd (out (same, ground (arith, from), ground (arith, within)))
      ]
    ]
  ]

module _ {Sector : Type 0} (drv : Driver Sector) where
  open drv use {Disk, content, write, write_changes}

  -- What other threads may have done between the two steps of a `block_write` of `xs`, whose first
  -- step left the device as `d1`, up to the device `d2` and the cache `c2`: they have not written
  -- to its sectors of the device, and the cache agrees with the device in all other sectors.
  pub record IsBetween (v : Device) (lba : ℕ) (xs : List Sector) (d1 d2 : Disk) (c2 : Cache Sector)
      : Type 0 where
    pub cached : ℕ → ℕ → Sector
    pub coherent : IsCoherent cached c2
    pub untouched : (e a : ℕ) → InRange v.id lba (length xs) e a → content d2 e a ≡ content d1 e a
    pub elsewhere : (e a : ℕ) → ¬ InRange v.id lba (length xs) e a → content d2 e a ≡ cached e a

  -- With nothing in between a cache that agreed with the device before the first step will do.
  pub nothing-IsBetween :
      (d : Disk) (v : Device) (lba : ℕ) (xs : List Sector) (c : Cache Sector)
      → lba + length xs ≤ 2 ^ 64
      → (write d v.id lba xs).0 ≡ pos (sector_size * length xs)
      → IsCoherent (content d) c
      → IsBetween v lba xs (write d v.id lba xs).1 (write d v.id lba xs).1 c
  nothing-IsBetween d v lba xs c h whole coh = record {
    cached = content d;
    coherent = coh;
    untouched = λ e a r. refl;
    elsewhere = λ e a out.
        write_changes d v.id lba xs h whole e a
        ∙ written_outside v.id lba xs e a (content d e a) out;
  }

  -- What `block_write` may come to, by whether it goes on after its transfer: the transfer failed, the
  -- cache agrees with the device at the end, or the transfer was short.
  pub data WriteOutcome (d d2 : Disk) (v : Device) (lba : ℕ) (xs : List Sector) (c2 : Cache Sector)
      : Bool → Type 0 where
    stops :
        is_negative (raw_write drv d (some v) lba xs).0 ≡ true → WriteOutcome d d2 v lba xs c2 false
    agrees :
        IsCoherent (content d2) (block_write_cache v lba xs c2) → WriteOutcome d d2 v lba xs c2 true
    short :
        IsShort (raw_write drv d (some v) lba xs).0 (write d v.id lba xs).0 (length xs)
        → WriteOutcome d d2 v lba xs c2 true

  went_on :
      (d : Disk) (v : Device) (lba : ℕ) (xs : List Sector)
      → is_negative (raw_write drv d (some v) lba xs).0 ≡ false
      → (block_write_device drv d (some v) lba xs).1 ≡ (write d v.id lba xs).1
  unfolding block_write_device raw_write
  went_on d v lba xs fine = ground (arith, fine)

  answers :
      (d : Disk) (v : Device) (lba : ℕ) (xs : List Sector)
      → v.is_block ≡ true
      → (block_write_device drv d (some v) lba xs).0
        ≡ not (is_negative (raw_write drv d (some v) lba xs).0)
  unfolding block_write_device
  answers d v lba xs block = ground (arith, block)

  put-IsCoherent :
      (d d2 : Disk) (v : Device) (lba : ℕ) (xs : List Sector) (c2 : Cache Sector)
      → lba + length xs ≤ 2 ^ 64
      → (write d v.id lba xs).0 ≡ pos (sector_size * length xs)
      → IsBetween v lba xs (write d v.id lba xs).1 d2 c2
      → IsCoherent (content d2) (block_write_cache v lba xs c2)
  unfolding block_write_cache
  put-IsCoherent d d2 v lba xs c2 h whole between =
      let f = between.cached in
      IsCoherent-ext (store_all f v.id lba 0 xs) (content d2) _
        (λ b a.
          store_all-written f v.id lba xs b a h ∙ elim (InRange-cases v.id lba (length xs) b a) [
            | inl r ↦
                written_inside v.id lba xs b a (f b a) (content d b a) r
                ∙ sym (between.untouched b a r ∙ write_changes d v.id lba xs h whole b a)
            | inr out ↦
                written_outside v.id lba xs b a (f b a) out ∙ sym (between.elsewhere b a out)
          ])
        (put_from-IsCoherent f v.id lba 0 xs c2 between.coherent)

  -- `block_write` to a block device ends with -1 if its transfer, which takes no lock, failed. Else it
  -- goes on: if other threads leave its sectors of the device alone after the transfer and keep the
  -- rest of the cache right, the cache agrees with the device when it has put its sectors under the
  -- lock, whatever the cache held for them. The exception is a short transfer: its answer is not that
  -- of all bytes, and yet is not negative as an `int`, so that the code goes on as after a whole one.
  pub block_write-Outcome :
      (d d2 : Disk) (v : Device) (lba : ℕ) (xs : List Sector) (c2 : Cache Sector)
      → v.is_block ≡ true
      → lba + length xs ≤ 2 ^ 64
      → let (goes_on, d1) = block_write_device drv d (some v) lba xs in
        IsBetween v lba xs d1 d2 c2 → WriteOutcome d d2 v lba xs c2 goes_on
  block_write-Outcome d d2 v lba xs c2 block h between =
      let bytes = (raw_write drv d (some v) lba xs).0 in
      subst (WriteOutcome d d2 v lba xs c2) (sym (answers d v lba xs block))
        (elim (Bool-cases (is_negative bytes)) [
          | inl broken ↦ subst (WriteOutcome d d2 v lba xs c2) (sym (ap not broken)) (stops broken)
          | inr fine ↦
              subst (WriteOutcome d d2 v lba xs c2) (sym (ap not fine))
                (elim (ℤ-cases (write d v.id lba xs).0 (pos (sector_size * length xs))) [
                  | inr other ↦ short (fine, other)
                  | inl whole ↦ agrees (
                      put-IsCoherent d d2 v lba xs c2 h whole (
                        subst (λ d1. IsBetween v lba xs d1 d2 c2) (went_on d v lba xs fine)
                          between))
                ])
        ])
