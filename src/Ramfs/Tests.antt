-- ===== src/Ramfs/Tests.antt =====
-- kernel/fs/ramfs.c: two bytes behind the end of a new file, and a name in an empty root directory.
use project_lariat.Prelude.{
  All, List, [], arith, bit_at, none, pos, refl, some, suc, true, zero, ℕ, ◌∷◌, ◌≡◌, ◌≢◌,
}
use project_lariat.Vfs.{Dentry, Vfs, slash}
use project_lariat.Vfs.Dentries.{find_named, has_dir, vfs_dentry_find_child}
use project_lariat.Ramfs.Dirs.{
  Memories, RamSb, ramfs_create, ramfs_dentry_for, ramfs_lookup, ramfs_parent_dentry,
}
use project_lariat.Ramfs.Dirs.Create.{IsUnused, ramfs_create-ramfs_lookup}
use project_lariat.Ramfs.{RamInode, empty_inode, ramfs_read, ramfs_write}
use project_lariat.Ramfs.Room.{IsStored}
use project_lariat.Ramfs.Write.{Written, ramfs_write-ramfs_read}

abbrev two_bytes : List ℕ
two_bytes = 104 ∷ 105 ∷ []

empty_inode-IsStored : IsStored empty_inode
unfolding empty_inode
empty_inode-IsStored = record {
  fits = omega arith;
  narrow = omega arith;
  zeros = λ i le lt. refl;
  backed = λ e. refl;
}

ramfs_write-ramfs_read_example :
    (r : RamInode) × (ramfs_write true two_bytes 5000 empty_inode ≡ (some 5002, r))
    × ((ramfs_read 2 5000 r).0 ≡ two_bytes)
    × Written two_bytes 5000 empty_inode r
ramfs_write-ramfs_read_example =
    ramfs_write-ramfs_read two_bytes 5000 empty_inode empty_inode-IsStored (omega arith)

abbrev sb : RamSb
sb = record { root = 0; next_inode_no = 2 }

abbrev entries : ℕ → Dentry
entries zero = record {
  name = slash ∷ [];
  inode = some 0;
  parent = none;
  child_list = [];
  mount = none;
}
entries (suc n) = record { name = []; inode = none; parent = none; child_list = []; mount = none }

abbrev tree : Vfs
tree = record {
  dentries = entries;
  inodes = λ i. record { inode_no = i; mode = 0x41ED; size = 0; uid = 0; gid = 0 };
  vfs_root = some 0;
  fs_types = [];
  mounts = [];
}

no_children : (c : ℕ) → All (λ e. e ≢ 7) (entries c).child_list
no_children zero = tt
no_children (suc c) = tt

seven-IsUnused : IsUnused 7 sb tree
seven-IsUnused = record { no_child = no_children; no_inode = refl; no_root = omega arith }

root_found : ramfs_parent_dentry 3 sb 0 tree ≡ some 0
unfolding ramfs_parent_dentry ramfs_dentry_for
root_found = refl

root_dir : has_dir 0 tree ≡ true
unfolding has_dir bit_at
root_dir = refl

untaken : vfs_dentry_find_child 0 two_bytes tree ≡ none
unfolding vfs_dentry_find_child has_dir bit_at find_named
untaken = refl

ramfs_create-ramfs_lookup_example :
    let memory : Memories = record {
      ramfs_part = true;
      inode_memory = some 5;
      dentry_memory = some 7;
    } in
    let (answer, sb', t) = ramfs_create 3 memory 0 two_bytes 0x81A4 sb tree in
    (answer ≡ pos 0)
    × (ramfs_lookup 3 sb' 0 two_bytes t ≡ some 7)
    × ((t.dentries 7).inode ≡ some 5)
    × ((t.inodes 5).mode ≡ 0x81A4)
ramfs_create-ramfs_lookup_example =
    ramfs_create-ramfs_lookup 3 0 0 5 7 0x81A4 two_bytes sb tree root_found root_dir untaken
      (omega arith) seven-IsUnused (omega arith)
