-- ===== src/Ramfs/Dirs.antt =====
-- kernel/fs/ramfs.c: the directory operations on the tree of entries of kernel/vfs.c.
pub mod Search
pub mod Create
use project_lariat.Prelude.{
  Bool, List, Option, [], false, if◌then◌else◌, negsuc, none, not, pos, some, suc, true, zero, ℕ, ℤ,
  ◌%◌, ◌&&◌, ◌+◌, ◌==◌, ◌^◌, ◌∷◌,
}
use project_lariat.ThreadQueue.{update}
use project_lariat.Vfs.{Dentry, FilePath, Inode, Vfs, is_dir}
use project_lariat.Vfs.Dentries.{
  vfs_dentry_add_child, vfs_dentry_create, vfs_dentry_find_child, vfs_dentry_remove_child,
}
use project_lariat.Vfs.Files.{failed, inode_at}
use project_lariat.Vfs.Dirs.{DirEntry, entry_of, is_dots}

-- The superblock: the root entry and `ramfs_sb_t`.
pub record RamSb : Type 0 where
  pub root : ℕ
  pub next_inode_no : ℕ

-- What the calls of `kzalloc` give to an operation: the two parts of an inode, and an entry.
pub record Memories : Type 0 where
  pub ramfs_part : Bool
  pub inode_memory : Option ℕ
  pub dentry_memory : Option ℕ

unfoldable pub first_some : (ℕ → Option ℕ) → List ℕ → Option ℕ
first_some search [] = none
first_some search (c ∷ cs) = elim (search c) [ some d ↦ some d | none ↦ first_some search cs ]

abbrev pub refers_to : Option ℕ → ℕ → Bool
refers_to none inode = false
refers_to (some i) inode = i == inode

-- The search of the tree, with fuel for its depth.
unfoldable pub ramfs_dentry_for : ℕ → ℕ → (ℕ → Dentry) → ℕ → Option ℕ
ramfs_dentry_for zero inode entries d = none
ramfs_dentry_for (suc depth) inode entries d =
    let below = first_some (ramfs_dentry_for depth inode entries) (entries d).child_list in
    if refers_to (entries d).inode inode then some d else below

module _ (depth : ℕ) where
  unfoldable pub ramfs_parent_dentry : RamSb → ℕ → Vfs → Option ℕ
  ramfs_parent_dentry sb dir s = ramfs_dentry_for depth dir s.dentries sb.root

  unfoldable pub ramfs_lookup : RamSb → ℕ → FilePath → Vfs → Option ℕ
  ramfs_lookup sb dir name s = elim (ramfs_parent_dentry sb dir s) [
    | none ↦ none
    | some parent ↦ vfs_dentry_find_child parent name s
  ]

  -- An inode of a number that was not used yet; a failure of the second `kzalloc` has used it.
  unfoldable pub ramfs_create_vinode : Memories → ℕ → RamSb → Vfs → Option ℕ × RamSb × Vfs
  ramfs_create_vinode memory mode sb s =
      let made : Inode = record {
        inode_no = sb.next_inode_no;
        mode = mode;
        size = 0;
        uid = 0;
        gid = 0;
      } in
      let counted : RamSb = record sb { next_inode_no = (sb.next_inode_no + 1) % 2 ^ 32 } in
      if memory.ramfs_part
      then (elim memory.inode_memory [
        | none ↦ (none, counted, s)
        | some i ↦ (some i, counted, record s { inodes = update s.inodes i made })
      ])
      else (none, sb, s)

  -- The entry of a new inode in a directory; -1 without memory.
  unfoldable pub linked_into : ℕ → FilePath → Memories → ℕ → RamSb → Vfs → ℤ × RamSb × Vfs
  linked_into parent name memory mode sb s =
      let (inode, sb', t) = ramfs_create_vinode memory mode sb s in
      elim inode [
        | none ↦ (negsuc 0, sb', t)
        | some i ↦
            let (entry, u) = vfs_dentry_create name (some i) (some parent) memory.dentry_memory t in
            elim entry [
              | none ↦ (negsuc 0, sb', u)
              | some d ↦ (pos 0, sb', vfs_dentry_add_child parent d u)
            ]
      ]

  abbrev pub parent_or_root : RamSb → ℕ → Vfs → ℕ
  parent_or_root sb dir s = elim (ramfs_parent_dentry sb dir s) [ none ↦ sb.root | some d ↦ d ]

  -- -EEXIST, which is -17, for a name that is taken.
  unfoldable pub create_in : ℕ → Memories → FilePath → ℕ → RamSb → Vfs → ℤ × RamSb × Vfs
  create_in parent memory name mode sb s = elim (vfs_dentry_find_child parent name s) [
    | some taken ↦ (negsuc 16, sb, s)
    | none ↦ linked_into parent name memory mode sb s
  ]

  unfoldable pub ramfs_create : Memories → ℕ → FilePath → ℕ → RamSb → Vfs → ℤ × RamSb × Vfs
  ramfs_create memory dir name mode sb s = create_in (parent_or_root sb dir s) memory name mode sb s

  unfoldable pub ramfs_mkdir : Memories → ℕ → FilePath → ℕ → RamSb → Vfs → ℤ × RamSb × Vfs
  ramfs_mkdir = ramfs_create

  -- A removal that is allowed by a test on the entry and the mode of its inode.
  unfoldable pub removed : (Dentry → Inode → Bool) → RamSb → ℕ → FilePath → Vfs → ℤ × Vfs
  removed test sb dir name s = elim (ramfs_parent_dentry sb dir s) [
    | none ↦ (failed, s)
    | some parent ↦ elim (vfs_dentry_find_child parent name s) [
      | none ↦ (failed, s)
      | some child ↦ elim (inode_at child s) [
        | none ↦ (failed, s)
        | some inode ↦
            if test (s.dentries child) inode
            then (pos 0, vfs_dentry_remove_child parent child s)
            else (failed, s)
      ]
    ]
  ]

  unfoldable pub ramfs_unlink : RamSb → ℕ → FilePath → Vfs → ℤ × Vfs
  ramfs_unlink = removed (λ child inode. not (is_dir inode.mode))

  abbrev pub is_empty : List ℕ → Bool
  is_empty [] = true
  is_empty (c ∷ cs) = false

  unfoldable pub ramfs_rmdir : RamSb → ℕ → FilePath → Vfs → ℤ × Vfs
  ramfs_rmdir = removed (λ child inode. is_dir inode.mode && is_empty child.child_list)

  -- The loop of `ramfs_readdir`, with `index` less the entries that were counted.
  unfoldable pub nth_entry : List ℕ → ℕ → Vfs → Option DirEntry
  nth_entry [] index s = none
  nth_entry (c ∷ cs) index s = elim (is_dots (s.dentries c).name) [
    | true ↦ nth_entry cs index s
    | false ↦ elim index [ zero ↦ some (entry_of c s) | suc rest ↦ nth_entry cs rest s ]
  ]

  unfoldable pub ramfs_readdir : RamSb → ℕ → ℕ → Vfs → Option DirEntry
  ramfs_readdir sb dir index s = elim (ramfs_parent_dentry sb dir s) [
    | none ↦ none
    | some parent ↦ nth_entry (s.dentries parent).child_list index s
  ]
