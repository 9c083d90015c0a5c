-- ===== src/Ramfs/Room.antt =====
-- kernel/fs/ramfs.c: the array of a file, and the room that a write asks for.
use project_lariat.Prelude.{
  Bool-cases, Option, Option-cases, ap, arith, inl, inr, ltb, none, refl, some, suc, true, zero, ℕ,
  ◌%◌, ◌*◌, ◌<◌, ◌^◌, ◌∙◌, ◌≡◌, ◌≤◌,
}
use project_lariat.Ramfs.{RamInode, copied, grown, with_room}

-- The byte of the array at an index.
abbrev pub byte_at : RamInode → ℕ → ℕ
byte_at ri i = elim ri.data_at [ none ↦ 0 | some m ↦ m i ]

-- The array holds the file, and zeros behind it.
pub record IsStored (ri : RamInode) : Type 0 where
  pub fits : ri.size ≤ ri.capacity
  pub narrow : ri.capacity < 2 ^ 32
  pub zeros : (i : ℕ) → ri.size ≤ i → i < ri.capacity → byte_at ri i ≡ 0
  pub backed : ri.data_at ≡ none → ri.capacity ≡ 0

abbrev doubled_often : ℕ → ℕ → ℕ
doubled_often zero cap = cap
doubled_often (suc n) cap = doubled_often n (cap * 2)

grown_enough :
    (fuel cap need : ℕ)
    → 0 < cap
    → cap < 2 ^ 32
    → need ≤ 2 ^ 31
    → need ≤ doubled_often fuel cap
    → (c : ℕ) × (grown (suc fuel) cap need ≡ some c) × (need ≤ c) × (c < 2 ^ 32)
unfolding grown
grown_enough zero cap need a b c d = (cap, ground (arith, d), omega (arith, d), b)
grown_enough (suc fuel) cap need a b c d = elim (Bool-cases (ltb cap need)) [
  | inl more ↦
      let below : cap < need = ground (arith, more) in
      let twice : cap * 2 % 2 ^ 64 ≡ cap * 2 = omega (arith, below, c) in
      let (c', e, f, g) =
        grown_enough fuel (cap * 2) need (omega arith) (omega (arith, below, c)) c d in
      (c', rw more (ap (λ k. grown (suc fuel) k need) twice ∙ e), f, g)
  | inr fine ↦ (cap, rw fine refl, ground (arith, fine), b)
]

copied_front : (ri : RamInode) (i : ℕ) → i < ri.size → copied ri.data_at ri.size i ≡ byte_at ri i
unfolding copied
copied_front ri i h = elim (Option-cases ri.data_at) [
  | inl e ↦ rw (e, copied) refl
  | inr (m, e) ↦
      let inside : ltb i ri.size ≡ true = ground (arith, h) in rw (e, copied) (rw inside refl)
]

copied_behind : (o : Option (ℕ → ℕ)) (size i : ℕ) → size ≤ i → copied o size i ≡ 0
unfolding copied
copied_behind none size i h = refl
copied_behind (some m) size i h = ground (arith, h)

-- A file is given room for what is to be written, and keeps its bytes.
pub record HasRoom (need : ℕ) (ri r : RamInode) : Type 0 where
  pub whole : IsStored r
  pub size_same : r.size ≡ ri.size
  pub room : need ≤ r.capacity
  pub bytes_same : (i : ℕ) → i < ri.size → byte_at r i ≡ byte_at ri i

pub with_room-HasRoom :
    (start need : ℕ) (ri : RamInode)
    → IsStored ri
    → (ri.capacity < need → 0 < start)
    → start < 2 ^ 32
    → need ≤ 2 ^ 31
    → (r : RamInode) × (with_room true start need ri ≡ some r) × HasRoom need ri r
unfolding with_room copied
with_room-HasRoom start need ri h a b c = elim (Bool-cases (ltb ri.capacity need)) [
  | inl more ↦
      let below : ri.capacity < need = ground (arith, more) in
      let (cap, e, f, g) = grown_enough 32 start need (a below) b c (omega (arith, a below)) in
      let narrow : cap % 2 ^ 32 ≡ cap = omega (arith, g) in
      let r : RamInode = record ri {
        data_at = some (copied ri.data_at ri.size);
        capacity = cap % 2 ^ 32;
      } in
      (
        r,
        rw (more, with_room) (rw (e, with_room) refl),
        record {
          whole = record {
            fits = omega (arith, h.fits, below, f, narrow);
            narrow = omega arith;
            zeros = λ i le lt. copied_behind ri.data_at ri.size i le;
            backed = λ e. ground (arith, e);
          };
          size_same = refl;
          room = omega (arith, f, narrow);
          bytes_same = λ i lt. copied_front ri i lt;
        },
      )
  | inr fine ↦ (
    ri,
    rw (fine, with_room) refl,
    record { whole = h; size_same = refl; room = ground (arith, fine); bytes_same = λ i lt. refl },
  )
]
