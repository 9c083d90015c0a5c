-- ===== src/Vfs/Dirs.antt =====
-- kernel/vfs.c: reading directories.
use project_lariat.Prelude.{
  Bool, List, Option, [], false, if◌then◌else◌, leb, none, some, take, true, ℕ, ◌&&◌, ◌+◌, ◌-◌,
  ◌||◌, ◌∷◌,
}
use project_lariat.Vfs.{FilePath, Vfs, dot, is_dir}
use project_lariat.Vfs.Names.{name_size}
use project_lariat.Vfs.Dentries.{same_name}
use project_lariat.Vfs.Walk.{Ops, vfs_lookup_path}
use project_lariat.Vfs.Files.{inode_at}

-- `struct vfs_dir`
pub record Dir : Type 0 where
  pub dentry : ℕ
  pub inode : ℕ
  pub index : ℕ

-- `struct vfs_dir_entry`
pub record DirEntry : Type 0 where
  pub name : FilePath
  pub inode_no : ℕ
  pub mode : ℕ

unfoldable pub is_dots : FilePath → Bool
is_dots name = same_name name (dot ∷ []) || same_name name (dot ∷ dot ∷ [])

-- What is told of an entry; one without inode has the number and the mode 0.
unfoldable pub entry_of : ℕ → Vfs → DirEntry
entry_of d s = record {
  name = take (name_size - 1) (s.dentries d).name;
  inode_no = elim (inode_at d s) [ none ↦ 0 | some inode ↦ inode.inode_no ];
  mode = elim (inode_at d s) [ none ↦ 0 | some inode ↦ inode.mode ];
}

-- The loop over the cached entries, with `idx` and `dir->index`.
unfoldable pub readdir_from : List ℕ → ℕ → ℕ → Vfs → Option DirEntry × ℕ
readdir_from [] idx index s = (none, index)
readdir_from (d ∷ ds) idx index s = elim (leb index idx) [
  | true ↦ elim (is_dots (s.dentries d).name) [
    | true ↦ readdir_from ds idx (index + 1) s
    | false ↦ (some (entry_of d s), index + 1)
  ]
  | false ↦ readdir_from ds (idx + 1) index s
]

module _ (ops : Ops) (fuel : ℕ) where
  -- The handle of a directory; `memory` says whether there is memory for it.
  unfoldable pub vfs_opendir : Bool → FilePath → Vfs → Option Dir × Vfs
  vfs_opendir memory path s =
      let (found, t) = vfs_lookup_path ops fuel path s in
      elim found [
        | none ↦ (none, t)
        | some d ↦ elim (t.dentries d).inode [
          | none ↦ (none, t)
          | some inode ↦
              if is_dir (t.inodes inode).mode && memory
              then (some (record { dentry = d; inode = inode; index = 0 }), t)
              else (none, t)
        ]
      ]

  -- The next entry and the handle; `none` is the result 0.
  unfoldable pub vfs_readdir : Dir → Vfs → Option DirEntry × Dir
  vfs_readdir dir s = elim (ops.readdir dir.inode) [
    | some readdir ↦ elim (readdir dir.index s) [
      | none ↦ (none, dir)
      | some (name, number, mode) ↦ (
        some (record { name = name; inode_no = number; mode = mode }),
        record dir { index = dir.index + 1 },
      )
    ]
    | none ↦
        let (entry, index) = readdir_from (s.dentries dir.dentry).child_list 0 dir.index s in
        (entry, record dir { index = index })
  ]
