-- ===== src/Block/Read.antt =====
-- kernel/block.c: what `block_read` returns, and what the cache holds then.
use project_lariat.Prelude.{
  Bool-cases, List, Option-cases, [], ap, arith, drop, drop-drop, false, inl, inr, length,
  length-drop, length-take, ltb, pos, refl, some, subst, suc, sym, take, true, zero, ℕ, ◌*◌, ◌++◌,
  ◌+◌, ◌-◌, ◌<◌, ◌∙◌, ◌∷◌, ◌≡◌, ◌≢◌, ◌≤◌, ◌⊎◌,
}
use project_lariat.Block.{
  Cache, Device, Driver, Transfer, add64, bcache_find, block_read, done, failed, is_negative,
  is_used, no_fuel, put_from, raw_read, read_from, run_from, sector_size, span, touch,
}
use project_lariat.Block.Coherent.{
  IsCoherent, IsCoherent-ext, put_from-IsCoherent, store_all, touch-IsCoherent,
}
use project_lariat.Block.Span.{IsShort, grown, run_from_bounds, span_shift, store_all-span, ℤ-cases}
use project_lariat.Block.Find.{find_some}

module _ {Sector : Type 0} (drv : Driver Sector) where
  open drv use {Disk, content, read, read_gives}

  abbrev pub part_of : ℕ → ℕ → List Sector → List Sector
  part_of i run buf = take run (drop i buf)

  -- What `block_read` into `buf` may do: give the sectors as the device holds them, fail where a
  -- transfer of the driver for a part of the buffer failed, or go wrong where such a transfer was
  -- short. In this last case nothing is said of the buffer and the cache.
  pub data ReadOutcome (d : Disk) (v : Device) (lba : ℕ) (buf : List Sector)
      : Transfer Sector × Cache Sector → Type 0 where
    gives :
        (c' : Cache Sector)
        → IsCoherent (content d) c'
        → ReadOutcome d v lba buf (done (span (content d v.id) lba 0 (length buf)), c')
    fails :
        (i run : ℕ) (c' : Cache Sector)
        → i + run ≤ length buf
        → is_negative (raw_read drv d (some v) (add64 lba i) (part_of i run buf)).0 ≡ true
        → IsCoherent (content d) c'
        → ReadOutcome d v lba buf (failed, c')
    short :
        (i run : ℕ) (r : Transfer Sector × Cache Sector)
        → i + run ≤ length buf
        → IsShort
            (raw_read drv d (some v) (add64 lba i) (part_of i run buf)).0
            (read d v.id (add64 lba i) (part_of i run buf)).0
            run
        → ReadOutcome d v lba buf r

  raw_read_gives :
      (d : Disk) (v : Device) (lba : ℕ) (buf : List Sector)
      → is_negative (raw_read drv d (some v) lba buf).0 ≡ false
      → (read d v.id lba buf).0 ≡ pos (sector_size * length buf)
      → (raw_read drv d (some v) lba buf).1 ≡ span (content d v.id) lba 0 (length buf)
  unfolding raw_read
  raw_read_gives d v lba buf fine whole = ground (arith, read_gives d v.id lba buf whole)

  put_span-IsCoherent :
      (d : Disk) (dev first n : ℕ) (xs : List Sector) (c : Cache Sector)
      → xs ≡ span (content d dev) first 0 n
      → IsCoherent (content d) c
      → IsCoherent (content d) (put_from dev first 0 xs c)
  put_span-IsCoherent d dev first n xs c e coh =
      IsCoherent-ext (store_all (content d) dev first 0 xs) (content d) _
        (λ b a. rw e (store_all-span (content d) dev first n 0 (content d) (λ x y. refl) b a))
        (put_from-IsCoherent (content d) dev first 0 xs c coh)

  length_part :
      (i run : ℕ) (buf : List Sector) → i + run ≤ length buf → length (part_of i run buf) ≡ run
  length_part i run buf h = omega (arith, length-take run (drop i buf), length-drop i buf)

  -- A transfer of a part that the layer takes for success is short or gives what the device holds.
  transfer-cases :
      (d : Disk) (v : Device) (lba i run : ℕ) (buf : List Sector)
      → i + run ≤ length buf
      → is_negative (raw_read drv d (some v) (add64 lba i) (part_of i run buf)).0 ≡ false
      → IsShort
          (raw_read drv d (some v) (add64 lba i) (part_of i run buf)).0
          (read d v.id (add64 lba i) (part_of i run buf)).0
          run
        ⊎ ((raw_read drv d (some v) (add64 lba i) (part_of i run buf)).1
            ≡ span (content d v.id) (add64 lba i) 0 run)
  transfer-cases d v lba i run buf fits fine =
      let part = part_of i run buf in
      let size = length_part i run buf fits in
      elim (ℤ-cases (read d v.id (add64 lba i) part).0 (pos (sector_size * run))) [
        | inr other ↦ inl (fine, other)
        | inl whole ↦ inr (
            raw_read_gives d v (add64 lba i) part fine
              (whole ∙ ap (λ n. pos (sector_size * n)) (sym size))
            ∙ ap (span (content d v.id) (add64 lba i) 0) size)
      ]

  read_from-Outcome :
      (fuel : ℕ) (d : Disk) (v : Device) (lba i : ℕ) (buf out rest : List Sector) (c : Cache Sector)
      → length buf - i < fuel
      → i ≤ length buf
      → IsCoherent (content d) c
      → out ≡ span (content d v.id) lba 0 i
      → rest ≡ drop i buf
      → ReadOutcome d v lba buf (read_from drv fuel d v lba (length buf) i out rest c)
  unfolding read_from
  read_from-Outcome zero d v lba i buf out rest c enough le coh o r = elim enough [ ]
  read_from-Outcome (suc fuel) d v lba i buf out rest c enough le coh o r =
      elim (Bool-cases (ltb i (length buf))) [
        | inr last ↦
            let same : i ≡ length buf = ground arith in
            rw (last, read_from)
              (subst (λ xs. ReadOutcome d v lba buf (done xs, c))
                (sym (o ∙ ap (span (content d v.id) lba 0) same)) (gives c coh))
        | inl more ↦ elim (Option-cases (bcache_find v.id (add64 lba i) c)) [
          | inr (slot, hit) ↦
              let (lt, found) = find_some v.id (add64 lba i) c slot hit in
              let entry = c.bcache slot in
              let used : is_used entry ≡ true = ground arith in
              let held : entry.contents ≡ content d v.id (add64 lba i) =
                ground (arith, coh.agrees slot) in
              rw (more, hit, read_from)
                (read_from-Outcome fuel d v lba (i + 1) buf (out ++ entry.contents ∷ [])
                  (drop 1 rest) (touch slot c) (ground arith) (ground arith)
                  (touch-IsCoherent (content d) slot c lt used coh)
                  (grown (content d v.id) lba i 1 out (entry.contents ∷ []) o
                    (ap (λ x. x ∷ []) held))
                  (ap (drop 1) r ∙ drop-drop i 1 buf))
          | inl miss ↦
              let run = run_from (length buf) v.id lba (length buf) i 1 c in
              let (pos_run, fits) =
                run_from_bounds (length buf) v.id lba (length buf) i 1 c (omega arith)
                  (ground arith) in
              let whole_part : take run rest ≡ part_of i run buf = ap (take run) r in
              let xs = (raw_read drv d (some v) (add64 lba i) (part_of i run buf)).1 in
              elim (Bool-cases
                (is_negative (raw_read drv d (some v) (add64 lba i) (part_of i run buf)).0)) [
                  | inl broken ↦
                      rw (more, miss, whole_part, broken, read_from) (fails i run c fits broken coh)
                  | inr fine ↦ elim (transfer-cases d v lba i run buf fits fine) [
                    | inl partial ↦ short i run _ fits partial
                    | inr read_xs ↦
                        let place : i + 0 ≡ i = omega arith in
                        let shifted : xs ≡ span (content d v.id) lba i run =
                          read_xs
                          ∙ (span_shift (content d v.id) lba i 0 run
                              ∙ ap (λ k. span (content d v.id) lba k run) place) in
                        rw (more, miss, whole_part, fine, read_from)
                          (read_from-Outcome fuel d v lba (i + run) buf (out ++ xs) (drop run rest)
                            (put_from v.id (add64 lba i) 0 xs c) (omega (arith, pos_run)) fits
                            (put_span-IsCoherent d v.id (add64 lba i) run xs c read_xs coh)
                            (grown (content d v.id) lba i run out xs o shifted)
                            (ap (drop run) r ∙ drop-drop i run buf))
                  ]
                ]
        ]
      ]

  read_from_ends :
      (fuel : ℕ) (d : Disk) (v : Device) (lba count i : ℕ) (out rest : List Sector)
      (c : Cache Sector)
      → count - i < fuel
      → i ≤ count
      → (read_from drv fuel d v lba count i out rest c).0 ≢ no_fuel
  unfolding read_from
  read_from_ends zero d v lba count i out rest c enough le = elim enough [ ]
  read_from_ends (suc fuel) d v lba count i out rest c enough le =
      let run = run_from count v.id lba count i 1 c in
      let (answer, xs) = raw_read drv d (some v) (add64 lba i) (take run rest) in
      elim (Bool-cases (ltb i count)) [
        | inr last ↦ rw (last, read_from) (λ e. ground (arith, e))
        | inl more ↦ elim (Option-cases (bcache_find v.id (add64 lba i) c)) [
          | inr (slot, hit) ↦
              rw (more, hit, read_from)
                (read_from_ends fuel d v lba count (i + 1) _ _ _ (ground arith) (ground arith))
          | inl miss ↦ elim (Bool-cases (is_negative answer)) [
            | inl broken ↦ rw (more, miss, broken, read_from) (λ e. ground (arith, e))
            | inr fine ↦
                let (pos_run, fits) =
                  run_from_bounds count v.id lba count i 1 c (omega arith) (ground arith) in
                rw (more, miss, fine, read_from)
                  (read_from_ends fuel d v lba count (i + run) _ _ _ (omega (arith, pos_run)) fits)
          ]
        ]
      ]

  block_read_enters :
      (d : Disk) (v : Device) (lba : ℕ) (buf : List Sector) (c : Cache Sector)
      → v.is_block ≡ true
      → block_read drv d (some v) lba buf c
        ≡ read_from drv (length buf + 1) d v lba (length buf) 0 [] buf c
  unfolding block_read
  block_read_enters d v lba buf c block = ground arith

  -- `block_read` of a block device always ends. Through a cache that agrees with the device it gives
  -- the sectors from `lba` on, one for each of the buffer, as the device holds them, whichever of
  -- them were cached, or it fails where a transfer of the driver failed; the cache agrees with the
  -- device afterwards. The exception is a transfer that was short: its answer is not that of all
  -- bytes, and yet is not negative as an `int`, so that the code goes on as after a whole one.
  pub block_read-Outcome :
      (d : Disk) (v : Device) (lba : ℕ) (buf : List Sector) (c : Cache Sector)
      → v.is_block ≡ true
      → IsCoherent (content d) c
      → let result = block_read drv d (some v) lba buf c in
        (result.0 ≢ no_fuel) × ReadOutcome d v lba buf result
  block_read-Outcome d v lba buf c block coh = rw (block_read_enters d v lba buf c block) (
    read_from_ends (length buf + 1) d v lba (length buf) 0 [] buf c (omega arith) (omega arith),
    read_from-Outcome (length buf + 1) d v lba 0 buf [] buf c (omega arith) (omega arith) coh refl
        refl,
  )
