-- ===== src/Ramfs/Write.antt =====
-- kernel/fs/ramfs.c: what a write does to a file.
use project_lariat.Prelude.{
  Bool-cases, List, Option-cases, ap, arith, fun_ext, inl, inr, leb, length, max, min, refl, some,
  sym, true, ℕ, ◌+◌, ◌-◌, ◌<◌, ◌^◌, ◌∙◌, ◌≡◌, ◌≤◌,
}
use project_lariat.Net.{read_at, write_at}
use project_lariat.Net.Bytes.{read_at-write_at, write_at_after, write_at_before}
use project_lariat.Ramfs.{RamInode, doubled, ramfs_read, ramfs_write, stored}
use project_lariat.Ramfs.Room.{HasRoom, IsStored, byte_at, with_room-HasRoom}

stored_byte :
    (buf : List ℕ) (offset : ℕ) (r : RamInode) (i : ℕ)
    → IsStored r
    → offset + length buf ≤ r.capacity
    → byte_at (stored buf offset r) i ≡ write_at offset buf (byte_at r) i
unfolding stored
stored_byte buf offset r i h room = elim (Option-cases r.data_at) [
  | inl e ↦
      rw (e, stored) (sym (write_at_after buf offset i (λ j. 0) (omega (arith, room, h.backed e))))
  | inr (m, e) ↦ rw (e, stored) refl
]

stored-IsStored :
    (buf : List ℕ) (offset : ℕ) (r : RamInode)
    → IsStored r
    → offset + length buf ≤ r.capacity
    → IsStored (stored buf offset r)
      × ((stored buf offset r).size ≡ max r.size (offset + length buf))
unfolding stored
stored-IsStored buf offset r h room =
    let size_max : (stored buf offset r).size ≡ max r.size (offset + length buf) =
      ground (arith, room, h.narrow) in
    (
      record {
        fits = omega (arith, size_max, room, h.fits);
        narrow = h.narrow;
        zeros = λ i le lt.
            stored_byte buf offset r i h room
            ∙ (write_at_after buf offset i (byte_at r) (omega (arith, size_max, le))
                ∙ h.zeros i (omega (arith, size_max, le)) lt);
        backed = λ e. elim (Option-cases r.data_at) [
          | inl none_there ↦ h.backed none_there
          | inr (m, there) ↦ ground (arith, e, there)
        ];
      },
      size_max,
    )

-- What a file holds after a write.
pub record Written (buf : List ℕ) (offset : ℕ) (ri r : RamInode) : Type 0 where
  pub whole : IsStored r
  pub size_max : r.size ≡ max ri.size (offset + length buf)
  pub there : read_at offset (length buf) (byte_at r) ≡ buf
  pub kept : (i : ℕ) → i < ri.size → i < offset → byte_at r i ≡ byte_at ri i
  pub kept_behind : (i : ℕ) → i < ri.size → offset + length buf ≤ i → byte_at r i ≡ byte_at ri i
  pub gap : (i : ℕ) → ri.size ≤ i → i < offset → byte_at r i ≡ 0

stored-Written :
    (buf : List ℕ) (offset : ℕ) (ri r : RamInode)
    → HasRoom (offset + length buf) ri r
    → Written buf offset ri (stored buf offset r)
stored-Written buf offset ri r h =
    let (whole, size_max) = stored-IsStored buf offset r h.whole h.room in
    let bytes : byte_at (stored buf offset r) ≡ write_at offset buf (byte_at r) =
      fun_ext (λ i. stored_byte buf offset r i h.whole h.room) in
    let before : (i : ℕ) → i < offset → byte_at (stored buf offset r) i ≡ byte_at r i =
      λ i lt. ap (λ m. m i) bytes ∙ write_at_before buf offset i (byte_at r) lt in
    record {
      whole = whole;
      size_max = size_max ∙ ap (λ n. max n (offset + length buf)) h.size_same;
      there = ap (read_at offset (length buf)) bytes ∙ read_at-write_at buf offset (byte_at r);
      kept = λ i lt b. before i b ∙ h.bytes_same i lt;
      kept_behind = λ i lt b.
          ap (λ m. m i) bytes ∙ (write_at_after buf offset i (byte_at r) b ∙ h.bytes_same i lt);
      gap = λ i le b.
          before i b ∙ h.whole.zeros i (omega (arith, le, h.size_same)) (omega (arith, b, h.room));
    }

-- A read gives the bytes up to the end of the file.
ramfs_read_bytes :
    (count offset : ℕ) (ri : RamInode)
    → IsStored ri
    → (ramfs_read count offset ri).0 ≡ read_at offset (min count (ri.size - offset)) (byte_at ri)
unfolding ramfs_read read_at
ramfs_read_bytes count offset ri h = elim (Option-cases ri.data_at) [
  | inl e ↦
      let nothing : min count (ri.size - offset) ≡ 0 = omega (arith, h.fits, h.backed e) in
      rw (e, ramfs_read) (rw nothing refl)
  | inr (m, e) ↦ elim (Bool-cases (leb ri.size offset)) [
    | inl past ↦
        let nothing : min count (ri.size - offset) ≡ 0 = ground (arith, past) in
        rw (e, ramfs_read) (rw (past, nothing) refl)
    | inr inside ↦ rw (e, ramfs_read) (rw inside refl)
  ]
]

-- A write of bytes into a file, where there is memory and the end lies within 2 ^ 31: it succeeds,
-- the file is long enough for the bytes, they are read back, the other bytes are kept, and a gap
-- between the old end and the bytes reads as zeros.
pub ramfs_write-ramfs_read :
    (buf : List ℕ) (offset : ℕ) (ri : RamInode)
    → IsStored ri
    → offset + length buf ≤ 2 ^ 31
    → (r : RamInode) × (ramfs_write true buf offset ri ≡ (some (offset + length buf), r))
      × ((ramfs_read (length buf) offset r).0 ≡ buf)
      × Written buf offset ri r
unfolding ramfs_write
ramfs_write-ramfs_read buf offset ri h small =
    let (r, e, room) =
      with_room-HasRoom (doubled ri.capacity) (offset + length buf) ri h
        (λ lt. ground (arith, lt, small)) (ground (arith, h.narrow)) small in
    let w = stored-Written buf offset ri r room in
    let all : min (length buf) ((stored buf offset r).size - offset) ≡ length buf =
      omega (arith, w.size_max) in
    (
      stored buf offset r,
      rw (e, ramfs_write) refl,
      ramfs_read_bytes (length buf) offset (stored buf offset r) w.whole
          ∙ (ap (λ n. read_at offset n (byte_at (stored buf offset r))) all ∙ w.there),
      w,
    )
