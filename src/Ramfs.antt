-- ===== src/Ramfs.antt =====
-- kernel/fs/ramfs.c: files in memory. A file is modelled with its `ramfs_inode_t`, whose array is a
-- function of the index, and with the offset of the open file. `memory` says whether `kzalloc`
-- finds memory; what it gives is zeros.
pub mod Room
pub mod Write
pub mod Dirs
mod Tests
use project_lariat.Prelude.{
  Bool, List, Option, [], false, if◌then◌else◌, leb, length, ltb, max, min, negsuc, none, pos, some,
  suc, true, zero, ℕ, ℤ, ◌%◌, ◌&&◌, ◌*◌, ◌+◌, ◌-◌, ◌==◌, ◌^◌,
}
use project_lariat.Net.{read_at, write_at}

-- `ramfs_inode_t`; `capacity` and `size` are 32 bits wide.
pub record RamInode : Type 0 where
  pub size : ℕ
  pub data_at : Option (ℕ → ℕ)
  pub capacity : ℕ

-- A file without bytes, as `ramfs_create_vinode` makes it.
unfoldable pub empty_inode : RamInode
empty_inode = record { size = 0; data_at = none; capacity = 0 }

-- The bytes read and the new offset.
unfoldable pub ramfs_read : ℕ → ℕ → RamInode → List ℕ × ℕ
ramfs_read count offset ri = elim ri.data_at [
  | none ↦ ([], offset)
  | some m ↦
      let n = min count (ri.size - offset) in
      if leb ri.size offset then ([], offset) else (read_at offset n m, offset + n)
]

-- `while (new_cap < need) new_cap *= 2;` with fuel for the rounds; `none` means that it ran out.
unfoldable pub grown : ℕ → ℕ → ℕ → Option ℕ
grown zero cap need = none
grown (suc fuel) cap need =
    let rest = grown fuel (cap * 2 % 2 ^ 64) need in if ltb cap need then rest else some cap

-- A fuel that covers what a 32-bit capacity can ask for.
abbrev pub doublings : ℕ
doublings = 33

-- The first `size` bytes of an array in front of zeros.
unfoldable pub copied : Option (ℕ → ℕ) → ℕ → ℕ → ℕ
copied none size i = 0
copied (some m) size i = if ltb i size then m i else 0

-- Room for `need` bytes, with the capacity that the doubling starts from; `none` is the result -1.
unfoldable pub with_room : Bool → ℕ → ℕ → RamInode → Option RamInode
with_room memory start need ri =
    if ltb ri.capacity need
    then (elim (grown doublings start need) [
      | none ↦ none
      | some cap ↦
          if memory
          then some
              (record ri { data_at = some (copied ri.data_at ri.size); capacity = cap % 2 ^ 32 })
          else none
    ])
    else some ri

-- `ri->capacity ? ri->capacity * 2 : 4096`, in 32 bits.
abbrev pub doubled : ℕ → ℕ
doubled capacity = if capacity == 0 then 4096 else capacity * 2 % 2 ^ 32

-- The bytes at the offset, and the new size.
unfoldable pub stored : List ℕ → ℕ → RamInode → RamInode
stored buf offset ri =
    let last = offset + length buf in
    record ri {
      data_at = elim ri.data_at [ none ↦ none | some m ↦ some (write_at offset buf m) ];
      size = if ltb ri.size last then last % 2 ^ 32 else ri.size;
    }

-- The new offset; `none` is the result -1.
unfoldable pub ramfs_write : Bool → List ℕ → ℕ → RamInode → Option ℕ × RamInode
ramfs_write memory buf offset ri =
    elim (with_room memory (doubled ri.capacity) (offset + length buf) ri) [
      | none ↦ (none, ri)
      | some r ↦ (some (offset + length buf), stored buf offset r)
    ]

-- Zeros from the smaller of both sizes on.
unfoldable pub cleared : ℕ → ℕ → (ℕ → ℕ) → ℕ → ℕ
cleared newlen size m i = if leb (min newlen size) i && ltb i (max newlen size) then 0 else m i

unfoldable pub ramfs_truncate : Bool → ℕ → RamInode → Bool × RamInode
ramfs_truncate memory newlen ri =
    elim (with_room memory (if ri.capacity == 0 then 4096 else ri.capacity) newlen ri) [
      | none ↦ (false, ri)
      | some r ↦ (
        true,
        record r {
          data_at = elim r.data_at [ none ↦ none | some m ↦ some (cleared newlen r.size m) ];
          size = newlen % 2 ^ 32;
        },
      )
    ]

-- The new offset; a negative one is set to 0, and `none` is the result -1.
unfoldable pub moved : ℕ → ℤ → ℕ
moved base (pos n) = base + n
moved base (negsuc n) = base - (n + 1)

unfoldable pub ramfs_lseek : ℤ → ℕ → ℕ → RamInode → Option ℕ
ramfs_lseek distance whence offset ri =
    if whence == 0
    then some (moved 0 distance)
    else if whence == 1
    then some (moved offset distance)
    else if whence == 2
    then some (moved ri.size distance)
    else none
