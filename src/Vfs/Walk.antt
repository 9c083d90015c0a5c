-- ===== src/Vfs/Walk.antt =====
-- kernel/vfs.c: the resolution of paths, with symbolic links and mount points.
pub mod Covers
use project_lariat.Prelude.{
  Bool, List, Option, [], drop, if◌then◌else◌, min, none, some, suc, take, zero, ℕ, ℤ, ◌-◌, ◌==◌,
  ◌∷◌,
}
use project_lariat.ThreadQueue.{update}
use project_lariat.Vfs.{Dentry, FilePath, Vfs, dot, is_lnk}
use project_lariat.Vfs.Names.{is_absolute, last_slash, skip_slashes, split_path}
use project_lariat.Vfs.Dentries.{has_dir, same_name, vfs_dentry_find_child}

-- The operations of the file systems: `struct vfs_inode_ops`, those of `struct vfs_file_ops` that
-- an open uses, and `struct vfs_fs_type.mount`. A null pointer is `none`; a negative number of
-- `readlink` is `none` of its result.
pub record Ops : Type 0 where
  pub lookup : ℕ → Option (FilePath → Vfs → Option ℕ × Vfs)
  pub readlink : ℕ → Option (ℕ → Vfs → Option FilePath)
  pub create : ℕ → Option (FilePath → ℕ → Vfs → ℤ × Vfs)
  pub mkdir : ℕ → Option (FilePath → ℕ → Vfs → ℤ × Vfs)
  pub unlink : ℕ → Option (FilePath → Vfs → ℤ × Vfs)
  pub rmdir : ℕ → Option (FilePath → Vfs → ℤ × Vfs)
  pub symlink : ℕ → Option (FilePath → FilePath → Vfs → ℤ × Vfs)
  pub setattr : ℕ → Option (Vfs → ℤ × Vfs)
  pub truncate : ℕ → Option (Vfs → Vfs)
  pub can_write : ℕ → Bool
  pub readdir : ℕ → Option (ℕ → Vfs → Option (FilePath × ℕ × ℕ))
  pub mount : ℕ → FilePath → Vfs → Option ℕ × Vfs

-- `while (current && current->mount) current = current->mount->root;` with fuel for the file
-- systems that are mounted one over the other.
unfoldable pub crossed : ℕ → (ℕ → Dentry) → ℕ → ℕ
crossed zero entries d = d
crossed (suc fuel) entries d = elim (entries d).mount [
  | none ↦ d
  | some root ↦ crossed fuel entries root
]

abbrev pub link_size : ℕ
link_size = 256

-- The bytes before the first NUL.
unfoldable pub c_string : List ℕ → FilePath
c_string [] = []
c_string (c ∷ cs) = if c == 0 then [] else c ∷ c_string cs

-- `next->parent = current;`
unfoldable pub anchored : ℕ → ℕ → Vfs → Vfs
anchored next dir s = record s {
  dentries = update s.dentries next (record (s.dentries next) { parent = some dir });
}

-- A walk from an entry along a path.
abbrev pub Walker : Type 0
Walker = ℕ → FilePath → Vfs → Option ℕ × Vfs

module _ (ops : Ops) (fuel : ℕ) where
  unfoldable pub vfs_read_link_target : ℕ → ℕ → Vfs → Option FilePath
  vfs_read_link_target inode buflen s = elim (ops.readlink inode) [
    | none ↦ none
    | some readlink ↦ elim (readlink (buflen - 1) s) [
      | none ↦ none
      | some target ↦ some (c_string (take (buflen - 1) target))
    ]
  ]

  -- The entry of a name in a directory. A directory without inode is left here, where the source
  -- reads through a null pointer.
  unfoldable pub look_up : ℕ → FilePath → Vfs → Option ℕ × Vfs
  look_up dir name s = elim (s.dentries dir).inode [
    | none ↦ (none, s)
    | some inode ↦ elim (ops.lookup inode) [
      | none ↦ (vfs_dentry_find_child dir name s, s)
      | some lookup ↦ lookup name s
    ]
  ]

  -- The target of a symbolic link; `none` for another kind of entry.
  unfoldable pub link_of : ℕ → Vfs → Option ℕ
  link_of next s = elim (s.dentries next).inode [
    | none ↦ none
    | some inode ↦ if is_lnk (s.inodes inode).mode then some inode else none
  ]

  unfoldable pub follow_link : Walker → ℕ → ℕ → Vfs → Option ℕ × Vfs
  follow_link follow dir inode s = elim (vfs_read_link_target inode link_size s) [
    | none ↦ (none, s)
    | some target ↦ elim (if is_absolute target then s.vfs_root else some dir) [
      | none ↦ (none, s)
      | some base ↦ follow base target s
    ]
  ]

  unfoldable pub arrive : Walker → ℕ → ℕ → Vfs → Option ℕ × Vfs
  arrive follow dir next s =
      let t = anchored next dir s in
      elim (link_of next t) [ none ↦ (some next, t) | some inode ↦ follow_link follow dir inode t ]

  unfoldable pub enter : Walker → ℕ → FilePath → Vfs → Option ℕ × Vfs
  enter follow dir name s =
      let (found, t) = look_up dir name s in
      elim found [ none ↦ (none, t) | some next ↦ arrive follow dir next t ]

  abbrev pub parent_or_self : ℕ → Vfs → ℕ
  parent_or_self d s = elim (s.dentries d).parent [ none ↦ d | some p ↦ p ]

  -- One round of the loop of `vfs_walk`.
  unfoldable pub walk_component : Walker → FilePath → ℕ → Vfs → Option ℕ × Vfs
  walk_component follow name d s =
      if same_name name (dot ∷ [])
      then (some d, s)
      else if same_name name (dot ∷ dot ∷ [])
      then (some (parent_or_self d s), s)
      else if has_dir d s
      then enter follow (crossed fuel s.dentries d) name s
      else (none, s)

  unfoldable pub walk_from : Walker → List FilePath → ℕ → Vfs → Option ℕ × Vfs
  walk_from follow [] d s = (some d, s)
  walk_from follow (name ∷ names) d s =
      let (found, t) = walk_component follow name d s in
      elim found [ none ↦ (none, t) | some next ↦ walk_from follow names next t ]

  -- `vfs_walk`, with the depth that is left: the source counts from 0 to 8.
  unfoldable pub vfs_walk : ℕ → Walker
  vfs_walk zero start path s = (none, s)
  vfs_walk (suc depth) start path s =
      let (found, t) = walk_from (vfs_walk depth) (split_path path) start s in
      elim found [ none ↦ (none, t) | some d ↦ (some (crossed fuel t.dentries d), t) ]

  abbrev pub max_depth : ℕ
  max_depth = 9

  unfoldable pub vfs_lookup_path : FilePath → Vfs → Option ℕ × Vfs
  vfs_lookup_path path s = elim s.vfs_root [
    | none ↦ (none, s)
    | some root ↦ if is_absolute path then vfs_walk max_depth root path s else (none, s)
  ]

  -- The parent directory with the name of the last component, cut to a buffer of `name_len` bytes.
  unfoldable pub vfs_lookup_parent : FilePath → ℕ → Vfs → Option (ℕ × FilePath) × Vfs
  vfs_lookup_parent path name_len s = elim (if is_absolute path then last_slash path else none) [
    | none ↦ (none, s)
    | some zero ↦ elim s.vfs_root [
      | none ↦ (none, s)
      | some root ↦ (some (root, take (name_len - 1) (skip_slashes path)), s)
    ]
    | some (suc i) ↦
        let (found, t) = vfs_lookup_path (take (min (suc i) 255) path) s in
        elim found [
          | none ↦ (none, t)
          | some parent ↦
              (some (parent, take (name_len - 1) (skip_slashes (drop (suc (suc i)) path))), t)
        ]
  ]
