-- ===== src/Vfs/Dentries.antt =====
-- kernel/vfs.c: directory entries in memory. A new entry is made at an address that the caller of
-- the model gives, or at none where there is no memory.
use project_lariat.Prelude.{
  Bool, List, Option, [], false, if◌then◌else◌, none, some, take, true, ℕ, ◌-◌, ◌==◌, ◌∷◌,
}
use project_lariat.ThreadQueue.{update}
use project_lariat.Vfs.{Dentry, FilePath, Vfs, is_dir}
use project_lariat.Vfs.Names.{name_size}

unfoldable pub same_name : FilePath → FilePath → Bool
same_name [] [] = true
same_name [] (b ∷ bs) = false
same_name (a ∷ cs) [] = false
same_name (a ∷ cs) (b ∷ bs) = if a == b then same_name cs bs else false

-- The name is cut to 63 bytes.
unfoldable pub vfs_dentry_create : FilePath → Option ℕ → Option ℕ → Option ℕ → Vfs → Option ℕ × Vfs
vfs_dentry_create name inode parent none s = (none, s)
vfs_dentry_create name inode parent (some d) s = (
  some d,
  record s {
    dentries = update s.dentries d (record {
      name = take (name_size - 1) name;
      inode = inode;
      parent = parent;
      child_list = [];
      mount = none;
    });
  },
)

-- The entry comes to the front of the list.
unfoldable pub vfs_dentry_add_child : ℕ → ℕ → Vfs → Vfs
vfs_dentry_add_child parent child s =
    let above = s.dentries parent in
    let linked =
      update s.dentries parent (record above { child_list = child ∷ above.child_list }) in
    record s { dentries = update linked child (record (linked child) { parent = some parent }) }

unfoldable pub find_named : (ℕ → Dentry) → FilePath → List ℕ → Option ℕ
find_named entries name [] = none
find_named entries name (d ∷ ds) =
    let rest = find_named entries name ds in
    if same_name (entries d).name name then some d else rest

-- Whether an entry has an inode, and that is a directory.
unfoldable pub has_dir : ℕ → Vfs → Bool
has_dir d s = elim (s.dentries d).inode [ none ↦ false | some i ↦ is_dir (s.inodes i).mode ]

unfoldable pub vfs_dentry_find_child : ℕ → FilePath → Vfs → Option ℕ
vfs_dentry_find_child parent name s =
    if has_dir parent s then find_named s.dentries name (s.dentries parent).child_list else none

unfoldable pub without : ℕ → List ℕ → List ℕ
without d [] = []
without d (c ∷ cs) = if c == d then cs else c ∷ without d cs

unfoldable pub vfs_dentry_remove_child : ℕ → ℕ → Vfs → Vfs
vfs_dentry_remove_child parent child s =
    let above = s.dentries parent in
    record s {
      dentries =
          update s.dentries parent (record above { child_list = without child above.child_list });
    }
