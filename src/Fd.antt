-- ===== src/Fd.antt =====
-- kernel/fd.c and include/fd.h, with `vfs_close` of kernel/vfs.c: tables of file descriptors that
-- share open files by counting references. An open file is its address, a number; the store has
-- the counts and says which files are not freed. Pointers to tables are not null.
pub mod Count
pub mod Balance
pub mod Clone
mod Tests
use project_lariat.Prelude.{
  Bool, List, Option, [], false, get_or, if◌then◌else◌, length, ltb, negsuc, none, pos, replicate,
  set, some, suc, true, ℕ, ℤ, ◌+◌, ◌-◌, ◌==◌, ◌∷◌,
}
use project_lariat.ThreadQueue.{update}

abbrev pub fd_max : ℕ
fd_max = 256

-- The open files: the field `ref_count`, and whether the memory is in use.
pub record Store : Type 0 where
  pub refs : ℕ → ℕ
  pub live : ℕ → Bool

-- `struct fd_table`
pub record FdTable : Type 0 where
  pub files : List (Option ℕ)
  pub ref_count : ℕ

-- `fd < 0 || fd >= FD_MAX` leaves no index.
abbrev pub slot_of : ℤ → Option ℕ
slot_of (pos i) = if ltb i fd_max then some i else none
slot_of (negsuc i) = none

-- The last reference calls the file's own close and frees it.
unfoldable pub vfs_close : ℕ → Store → Store
vfs_close f s =
    if ltb 1 (s.refs f)
    then record s { refs = update s.refs f (s.refs f - 1) }
    else record s { live = update s.live f false }

-- `file->ref_count++`
unfoldable pub retain : ℕ → Store → Store
retain f s = record s { refs = update s.refs f (s.refs f + 1) }

unfoldable pub fd_table_alloc : FdTable
fd_table_alloc = record { files = replicate fd_max none; ref_count = 1 }

-- The loop of `fd_alloc`: the first entry that is null.
unfoldable pub first_unused : List (Option ℕ) → Option ℕ
first_unused [] = none
first_unused (none ∷ ts) = some 0
first_unused (some f ∷ ts) = elim (first_unused ts) [ none ↦ none | some i ↦ some (suc i) ]

unfoldable pub fd_alloc : List (Option ℕ) → ℕ → Option ℕ × List (Option ℕ)
fd_alloc t file = elim (first_unused t) [
  | none ↦ (none, t)
  | some i ↦ (some i, set t i (some file))
]

-- `if (files[i]) vfs_close(files[i]);`
unfoldable pub close_entry : Option ℕ → Store → Store
close_entry none s = s
close_entry (some f) s = vfs_close f s

unfoldable pub fd_install_at : List (Option ℕ) → ℤ → ℕ → Store → Option ℕ × List (Option ℕ) × Store
fd_install_at t fd file s = elim (slot_of fd) [
  | none ↦ (none, t, s)
  | some i ↦ (some i, set t i (some file), close_entry (get_or t i none) s)
]

-- The file at a descriptor.
abbrev pub file_at : List (Option ℕ) → ℤ → Option ℕ
file_at t fd = elim (slot_of fd) [ none ↦ none | some i ↦ get_or t i none ]

unfoldable pub dup_file : List (Option ℕ) → ℕ → Store → Option ℕ × List (Option ℕ) × Store
dup_file t f s =
    let (fd, t') = fd_alloc t f in
    elim fd [ none ↦ (none, t, s) | some i ↦ (some i, t', retain f s) ]

unfoldable pub fd_dup : List (Option ℕ) → ℤ → Store → Option ℕ × List (Option ℕ) × Store
fd_dup t oldfd s = elim (file_at t oldfd) [ none ↦ (none, t, s) | some f ↦ dup_file t f s ]

unfoldable pub move_to : List (Option ℕ) → ℕ → ℕ → Store → Option ℕ × List (Option ℕ) × Store
move_to t f i s = (some i, set t i (some f), retain f (close_entry (get_or t i none) s))

unfoldable pub fd_dup2 : List (Option ℕ) → ℤ → ℤ → Store → Option ℕ × List (Option ℕ) × Store
fd_dup2 t oldfd newfd s = elim (slot_of oldfd) [
  | none ↦ (none, t, s)
  | some old ↦ elim (get_or t old none) [
    | none ↦ (none, t, s)
    | some f ↦ elim (slot_of newfd) [
      | none ↦ (none, t, s)
      | some i ↦ if old == i then (some i, t, s) else move_to t f i s
    ]
  ]
]

unfoldable pub fd_close : List (Option ℕ) → ℤ → Store → List (Option ℕ) × Store
fd_close t fd s = elim (slot_of fd) [
  | none ↦ (t, s)
  | some i ↦ (set t i none, close_entry (get_or t i none) s)
]

-- The loops of `fd_table_clone` and `fd_table_free` over the entries.
unfoldable pub retain_all : List (Option ℕ) → Store → Store
retain_all [] s = s
retain_all (none ∷ ts) s = retain_all ts s
retain_all (some f ∷ ts) s = retain_all ts (retain f s)

unfoldable pub close_all : List (Option ℕ) → Store → Store
close_all [] s = s
close_all (e ∷ ts) s = close_all ts (close_entry e s)

-- `allocated` is whether `fd_table_alloc` finds memory for the new table.
unfoldable pub fd_table_clone : Bool → FdTable → Store → Option FdTable × Store
fd_table_clone allocated t s =
    if allocated
    then (some (record { files = t.files; ref_count = 1 }), retain_all t.files s)
    else (none, s)

-- The result says whether the table is freed.
unfoldable pub fd_table_free : FdTable → Store → Bool × FdTable × Store
fd_table_free t s =
    let left = t.ref_count - 1 in
    if left == 0
    then (
      true,
      record { files = replicate (length t.files) none; ref_count = 0 },
      close_all t.files s,
    )
    else (false, record t { ref_count = left }, s)
