-- ===== src/Block.antt =====
-- kernel/block.c: block devices behind a write-through cache of sectors. The cache is the array
-- `bcache`, a function of the index below `bcache_entries`, and the counter `bcache_clock`. A
-- buffer of `count` sectors is the list of them. The driver behind `dev->ops.block_ops` is a
-- parameter, the record `Driver`.
pub mod Find
pub mod Coherent
pub mod Span
pub mod Read
pub mod Write
mod Tests
use project_lariat.Prelude.{
  Bool, List, Option, [], drop, false, if◌then◌else◌, length, ltb, negsuc, none, not, pos, some,
  suc, take, true, zero, ℕ, ℤ, ◌%◌, ◌&&◌, ◌*◌, ◌++◌, ◌+◌, ◌-◌, ◌==◌, ◌^◌, ◌∷◌, ◌≡◌, ◌≤◌,
}

abbrev pub bcache_entries : ℕ
bcache_entries = 512

-- The fields of `device_t` that the layer reads; the last two say whether the operation is there.
pub record Device : Type 0 where
  pub id : ℕ
  pub is_block : Bool
  pub has_read : Bool
  pub has_write : Bool

abbrev pub add64 : ℕ → ℕ → ℕ
add64 a b = (a + b) % 2 ^ 64

-- The sectors `first + i`, …, `first + i + n - 1` of a device.
abbrev pub span {ℓ} : {A : Type ℓ} → (ℕ → A) → ℕ → ℕ → ℕ → List A
span f first i zero = []
span f first i (suc n) = f (add64 first i) ∷ span f first (i + 1) n

-- The sector at `a` after `xs` were written from `first`.
abbrev pub overwritten {ℓ} : {A : Type ℓ} → ℕ → List A → ℕ → A → A
overwritten first [] a old = old
overwritten first (x ∷ xs) a old = if first == a then x else overwritten (first + 1) xs a old

abbrev pub sector_size : ℕ
sector_size = 512

-- What a block driver does. `read` takes the buffer and gives its answer, the bytes read or a negative
-- number, with what the buffer holds then; `write` gives its answer and the device. As
-- drivers/block/ata.c does, it may answer with fewer bytes than the buffer has after it failed half
-- way. Only an answer with all bytes says something: the buffer then holds what the device holds, or
-- the device has changed in the named sectors alone and holds there what the buffer holds.
pub record Driver (Sector : Type 0) : Type 1 where
  pub Disk : Type 0
  pub content : Disk → ℕ → ℕ → Sector
  pub read : Disk → ℕ → ℕ → List Sector → ℤ × List Sector
  pub write : Disk → ℕ → ℕ → List Sector → ℤ × Disk
  pub read_gives :
      (d : Disk) (dev lba : ℕ) (buf : List Sector)
      → (read d dev lba buf).0 ≡ pos (sector_size * length buf)
      → (read d dev lba buf).1 ≡ span (content d dev) lba 0 (length buf)
  pub write_changes :
      (d : Disk) (dev lba : ℕ) (xs : List Sector)
      → lba + length xs ≤ 2 ^ 64
      → (write d dev lba xs).0 ≡ pos (sector_size * length xs)
      → (e a : ℕ)
      → content (write d dev lba xs).1 e a
        ≡ (if dev == e then overwritten lba xs a (content d e a) else content d e a)

abbrev pub is_negative : ℤ → Bool
is_negative (pos n) = false
is_negative (negsuc n) = true

-- The `int` with the low 32 bits `m`.
abbrev pub int_of_bits : ℕ → ℤ
int_of_bits m = if ltb m (2 ^ 31) then pos m else negsuc (2 ^ 32 - 1 - m)

-- `(int)` of a `ssize_t`
abbrev pub to_int : ℤ → ℤ
to_int (pos n) = int_of_bits (n % 2 ^ 32)
to_int (negsuc n) = int_of_bits (2 ^ 32 - 1 - n % 2 ^ 32)

-- `bcache_ent_t`; age 0 marks an entry that is not in use.
pub record Entry (Sector : Type 0) : Type 0 where
  pub dev : ℕ
  pub lba : ℕ
  pub age : ℕ
  pub contents : Sector

pub record Cache (Sector : Type 0) : Type 0 where
  pub bcache : ℕ → Entry Sector
  pub clock : ℕ

abbrev pub is_used : {S : Type 0} → Entry S → Bool
is_used e = not (e.age == 0)

abbrev pub is_for : {S : Type 0} → ℕ → ℕ → Entry S → Bool
is_for dev lba e = is_used e && (e.dev == dev && e.lba == lba)

module _ {Sector : Type 0} where
  -- The loop of `bcache_find` with the rounds left and the index.
  unfoldable pub find_from : ℕ → ℕ → ℕ → ℕ → Cache Sector → Option ℕ
  find_from zero i dev lba c = none
  find_from (suc n) i dev lba c =
      let rest = find_from n (i + 1) dev lba c in
      if is_for dev lba (c.bcache i) then some i else rest

  unfoldable pub bcache_find : ℕ → ℕ → Cache Sector → Option ℕ
  unfolding find_from
  bcache_find dev lba c = find_from bcache_entries 0 dev lba c

  -- The loop of `bcache_victim` with the rounds left, `i`, `best` and `best_age`.
  unfoldable pub victim_from : ℕ → ℕ → ℕ → ℕ → Cache Sector → ℕ
  victim_from zero i best best_age c = best
  victim_from (suc n) i best best_age c =
      let older = ltb (c.bcache i).age best_age in
      let rest =
        victim_from n (i + 1) (if older then i else best)
          (if older then (c.bcache i).age else best_age) c in
      if is_used (c.bcache i) then rest else i

  unfoldable pub bcache_victim : Cache Sector → ℕ
  unfolding victim_from
  bcache_victim c = victim_from bcache_entries 0 0 0xFFFFFFFF c

  unfoldable pub block_init : Cache Sector → Cache Sector
  block_init c = record {
    bcache = λ i. if ltb i bcache_entries then record (c.bcache i) { age = 0 } else c.bcache i;
    clock = 1;
  }

  -- `++bcache_clock` on a `uint32_t`
  abbrev pub tick : Cache Sector → ℕ
  tick c = (c.clock + 1) % 2 ^ 32

  -- The slot that `bcache_put` writes.
  unfoldable pub slot_for : ℕ → ℕ → Cache Sector → ℕ
  slot_for dev lba c = elim (bcache_find dev lba c) [ none ↦ bcache_victim c | some i ↦ i ]

  abbrev pub update_entry : (ℕ → Entry Sector) → ℕ → Entry Sector → ℕ → Entry Sector
  update_entry f slot e i = if slot == i then e else f i

  unfoldable pub bcache_put : ℕ → ℕ → Sector → Cache Sector → Cache Sector
  bcache_put dev lba x c = record {
    bcache =
        update_entry c.bcache (slot_for dev lba c)
          (record { dev = dev; lba = lba; age = tick c; contents = x });
    clock = tick c;
  }

  -- `for (k = 0; k < n; k++) bcache_put(dev, lba + k, …);`
  unfoldable pub put_from : ℕ → ℕ → ℕ → List Sector → Cache Sector → Cache Sector
  put_from dev lba k [] c = c
  put_from dev lba k (x ∷ xs) c = put_from dev lba (k + 1) xs (bcache_put dev (add64 lba k) x c)

  -- What `block_write` does after its transfer, under `block_lock`.
  unfoldable pub block_write_cache : Device → ℕ → List Sector → Cache Sector → Cache Sector
  unfolding put_from
  block_write_cache v lba xs c = put_from v.id lba 0 xs c

  -- A hit: the entry's stamp is renewed.
  unfoldable pub touch : ℕ → Cache Sector → Cache Sector
  touch slot c = record {
    bcache = update_entry c.bcache slot (record (c.bcache slot) { age = tick c });
    clock = tick c;
  }

  -- `while (i + run < count && bcache_find(dev, lba + i + run) < 0) run++;` with fuel; `count`
  -- rounds are enough.
  unfoldable pub run_from : ℕ → ℕ → ℕ → ℕ → ℕ → ℕ → Cache Sector → ℕ
  run_from zero dev lba count i run c = run
  run_from (suc fuel) dev lba count i run c =
      let more = run_from fuel dev lba count i (run + 1) c in
      if ltb (i + run) count
      then elim (bcache_find dev (add64 lba (i + run)) c) [ none ↦ more | some _ ↦ run ]
      else run

-- The result of a read with what the buffer holds; `no_fuel` is no outcome of the source's loop.
-- What the buffer holds after a read that failed is left out.
pub data Transfer (Sector : Type 0) : Type 0 where
  done : List Sector → Transfer Sector
  failed : Transfer Sector
  no_fuel : Transfer Sector

module _ {Sector : Type 0} (drv : Driver Sector) where
  open drv use {Disk, read, write}

  unfoldable pub raw_read : Disk → Option Device → ℕ → List Sector → ℤ × List Sector
  raw_read d none lba buf = (negsuc 0, buf)
  raw_read d (some v) lba buf =
      let (bytes, after) = read d v.id lba buf in
      if v.is_block && v.has_read then (to_int bytes, after) else (negsuc 0, buf)

  unfoldable pub raw_write : Disk → Option Device → ℕ → List Sector → ℤ × Disk
  raw_write d none lba xs = (negsuc 0, d)
  raw_write d (some v) lba xs =
      let (bytes, after) = write d v.id lba xs in
      if v.is_block && v.has_write then (to_int bytes, after) else (negsuc 0, d)

  -- The loop of `block_read` on a block device, with fuel, the index `i`, the `i` sectors of the buffer
  -- that were filled, and its other sectors.
  unfoldable pub read_from :
      ℕ
      → Disk
      → Device
      → ℕ
      → ℕ
      → ℕ
      → List Sector
      → List Sector
      → Cache Sector
      → Transfer Sector × Cache Sector
  read_from zero d v lba count i out rest c = (no_fuel, c)
  read_from (suc fuel) d v lba count i out rest c =
      let hit = λ (slot : ℕ).
        read_from fuel d v lba count (i + 1) (out ++ (c.bcache slot).contents ∷ []) (drop 1 rest)
          (touch slot c) in
      let run = run_from count v.id lba count i 1 c in
      let (answer, xs) = raw_read d (some v) (add64 lba i) (take run rest) in
      let miss =
        read_from fuel d v lba count (i + run) (out ++ xs) (drop run rest)
          (put_from v.id (add64 lba i) 0 xs c) in
      if ltb i count
      then elim (bcache_find v.id (add64 lba i) c) [
        | some slot ↦ hit slot
        | none ↦ if is_negative answer then (failed, c) else miss
      ]
      else (done out, c)

  -- `buf` holds `count` sectors.
  unfoldable pub block_read :
      Disk → Option Device → ℕ → List Sector → Cache Sector → Transfer Sector × Cache Sector
  block_read d none lba buf c = (failed, c)
  block_read d (some v) lba buf c =
      if v.is_block then read_from (length buf + 1) d v lba (length buf) 0 [] buf c else (failed, c)

  -- `block_write` up to where it takes `block_lock`: whether it goes on.
  unfoldable pub block_write_device : Disk → Option Device → ℕ → List Sector → Bool × Disk
  block_write_device d none lba xs = (false, d)
  block_write_device d (some v) lba xs =
      let (answer, after) = raw_write d (some v) lba xs in
      if v.is_block then (not (is_negative answer), after) else (false, d)

  -- A `block_write` where nothing comes between the two steps.
  unfoldable pub block_write :
      Disk → Option Device → ℕ → List Sector → Cache Sector → Bool × Disk × Cache Sector
  block_write d none lba xs c = (false, d, c)
  block_write d (some v) lba xs c =
      let (fine, after) = block_write_device d (some v) lba xs in
      (fine, after, if fine then block_write_cache v lba xs c else c)
