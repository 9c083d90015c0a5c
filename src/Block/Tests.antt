-- ===== src/Block/Tests.antt =====
-- Runs of the block layer over a device in memory, and its theorems at concrete inputs.
use project_lariat.Prelude.{
  List, [], arith, drop, if◌then◌else◌, length, min, pos, refl, some, true, ℕ, ◌*◌, ◌++◌, ◌+◌, ◌==◌,
  ◌∷◌, ◌≡◌, ◌≢◌,
}
use project_lariat.Block.{
  Cache, Device, Driver, bcache_find, bcache_put, bcache_victim, block_read, block_write,
  block_write_cache, block_write_device, done, no_fuel, overwritten, put_from, raw_read, raw_write,
  read_from, run_from, sector_size, slot_for, span, touch,
}
use project_lariat.Block.Coherent.{IsCoherent}
use project_lariat.Block.Read.{ReadOutcome, block_read-Outcome}
use project_lariat.Block.Write.{IsBetween, WriteOutcome, block_write-Outcome, nothing-IsBetween}

-- Sectors are numbers, and the device is a function.
abbrev memory : Driver ℕ
memory = record {
  Disk = ℕ → ℕ → ℕ;
  content = λ d. d;
  read = λ d dev lba buf. (pos (sector_size * length buf), span (d dev) lba 0 (length buf));
  write = λ d dev lba xs. (
    pos (sector_size * length xs),
    λ e a. if dev == e then overwritten lba xs a (d e a) else d e a,
  );
  read_gives = λ d dev lba buf e. refl;
  write_changes = λ d dev lba xs h whole e a. refl;
}

faulty_gives :
    (f : ℕ → ℕ) (lba : ℕ) (buf : List ℕ)
    → pos (sector_size * min 1 (length buf)) ≡ pos (sector_size * length buf)
    → span f lba 0 (min 1 (length buf)) ++ drop 1 buf ≡ span f lba 0 (length buf)
faulty_gives f lba [] e = refl
faulty_gives f lba (x ∷ []) e = refl
faulty_gives f lba (x ∷ y ∷ ys) e = absurd (ground (arith, e))

-- A read of two sectors or more fails after the first one, as `ata_block_read` may after 64.
abbrev faulty : Driver ℕ
faulty = record {
  Disk = ℕ → ℕ → ℕ;
  content = λ d. d;
  read = λ d dev lba buf. (
    pos (sector_size * min 1 (length buf)),
    span (d dev) lba 0 (min 1 (length buf)) ++ drop 1 buf,
  );
  write = memory.write;
  read_gives = λ d dev lba buf e. faulty_gives (d dev) lba buf e;
  write_changes = λ d dev lba xs h whole e a. refl;
}

abbrev disk0 : ℕ → ℕ → ℕ
disk0 dev lba = 100 * dev + lba

abbrev drive : Device
drive = record { id = 1; is_block = true; has_read = true; has_write = true }

-- Sector 6 of device 1 is cached.
abbrev warm : Cache ℕ
warm = record {
  bcache = λ i.
      if i == 3
      then record { dev = 1; lba = 6; age = 9; contents = 106 }
      else record { dev = 0; lba = 0; age = 0; contents = 0 };
  clock = 9;
}

warm-IsCoherent : IsCoherent disk0 warm
warm-IsCoherent = record {
  agrees = λ i lt u. ground arith;
  unique = λ i j a b li lj hi hj. ground arith;
}

abbrev zeros : List ℕ
zeros = 0 ∷ 0 ∷ 0 ∷ []

read_three : (block_read memory disk0 (some drive) 5 zeros warm).0 ≡ done (105 ∷ 106 ∷ 107 ∷ [])
unfolding block_read read_from raw_read put_from bcache_put slot_for bcache_find bcache_victim
    run_from touch
read_three = refl

block_read-Outcome_example :
    let result = block_read memory disk0 (some drive) 5 zeros warm in
    (result.0 ≢ no_fuel) × ReadOutcome memory disk0 drive 5 zeros result
block_read-Outcome_example = block_read-Outcome memory disk0 drive 5 zeros warm refl warm-IsCoherent

-- The short transfer is taken for a whole one: the second and third sector are those that the buffer
-- held before, not 108 and 109.
read_short : (block_read faulty disk0 (some drive) 7 zeros warm).0 ≡ done (107 ∷ 0 ∷ 0 ∷ [])
unfolding block_read read_from raw_read put_from bcache_put slot_for bcache_find bcache_victim
    run_from touch
read_short = refl

-- Then a second read finds them in the cache.
read_again :
    (block_read memory disk0
      (some drive)
      8
      (5 ∷ [])
      (block_read faulty disk0 (some drive) 7 zeros warm).1).0
    ≡ done (0 ∷ [])
unfolding block_read read_from raw_read put_from bcache_put slot_for bcache_find bcache_victim
    run_from touch
read_again = refl

abbrev one_two : List ℕ
one_two = 1 ∷ 2 ∷ []

-- The device after the first step of the write.
abbrev disk1 : ℕ → ℕ → ℕ
disk1 = (block_write_device memory disk0 (some drive) 6 one_two).1

disk1-IsBetween : IsBetween memory drive 6 one_two disk1 disk1 warm
unfolding block_write_device raw_write
disk1-IsBetween =
    nothing-IsBetween memory disk0 drive 6 one_two warm (omega arith) refl warm-IsCoherent

block_write-Outcome_example :
    WriteOutcome memory disk0 disk1 drive 6 one_two warm
      (block_write_device memory disk0 (some drive) 6 one_two).0
block_write-Outcome_example =
    block_write-Outcome memory disk0 disk1 drive 6 one_two warm refl (omega arith) disk1-IsBetween

write_two : (block_write memory disk0 (some drive) 6 one_two warm).0 ≡ true
unfolding block_write block_write_device raw_write
write_two = refl

-- Two writes of one sector that reach the device in one order and the cache in the other: the device
-- holds 2 and the cache 1.
writes_race :
    let (_, d1) = block_write_device memory disk0 (some drive) 6 (1 ∷ []) in
    let (_, d2) = block_write_device memory d1 (some drive) 6 (2 ∷ []) in
    let c = block_write_cache drive 6 (1 ∷ []) (block_write_cache drive 6 (2 ∷ []) warm) in
    (d2 1 6 ≡ 2) × ((block_read memory d2 (some drive) 6 (0 ∷ []) c).0 ≡ done (1 ∷ []))
unfolding block_write_device raw_write block_write_cache block_read read_from raw_read put_from
    bcache_put slot_for bcache_find bcache_victim run_from touch
writes_race = (refl, refl)
