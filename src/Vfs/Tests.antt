-- ===== src/Vfs/Tests.antt =====
-- kernel/vfs.c: a directory over which a file system is mounted.
use project_lariat.Prelude.{
  [], arith, bit_at, false, inr, none, ok, refl, some, suc, true, zero, ℕ, ◌+◌, ◌<◌, ◌↔◌, ◌∷◌, ◌≡◌,
}
use project_lariat.Vfs.{Dentry, FilePath, Inode, Vfs, dot, slash}
use project_lariat.Vfs.Permission.{Cred, vfs_permission}
use project_lariat.Vfs.Permission.Classes.{IsClass, group, vfs_permission_lem}
use project_lariat.Vfs.Walk.{Ops}

abbrev member : Cred
member = record { euid = 5; egid = 7; groups = 20 ∷ 30 ∷ [] }

-- rw-r----- of the user 1 and the group 30
abbrev shared_file : Inode
shared_file = record { inode_no = 3; mode = 0x81A0; size = 12; uid = 1; gid = 30 }

member-IsClass : IsClass member shared_file 3
member-IsClass = group (omega arith) (inr (1, refl)) refl

vfs_permission_lem_example :
    (vfs_permission (some member) (some shared_file) 4 ≡ ok 0)
    ↔ ((r : ℕ) → r < 3 → bit_at 4 r ≡ true → bit_at 0x81A0 (3 + r) ≡ true)
vfs_permission_lem_example = vfs_permission_lem member shared_file 4 3 (omega arith) member-IsClass

-- The file systems have no operations.
abbrev no_ops : Ops
no_ops = record {
  lookup = λ i. none;
  readlink = λ i. none;
  create = λ i. none;
  mkdir = λ i. none;
  unlink = λ i. none;
  rmdir = λ i. none;
  symlink = λ i. none;
  setattr = λ i. none;
  truncate = λ i. none;
  can_write = λ i. false;
  readdir = λ i. none;
  mount = λ i dev s. (none, s);
}

-- The entry 0 is covered by the entry 1.
abbrev entries : ℕ → Dentry
entries zero = record {
  name = slash ∷ [];
  inode = some 0;
  parent = none;
  child_list = [];
  mount = some 1;
}
entries (suc n) = record {
  name = slash ∷ [];
  inode = some 1;
  parent = none;
  child_list = [];
  mount = none;
}

abbrev files : Vfs
files = record {
  dentries = entries;
  inodes = λ i. record { inode_no = i; mode = 0x41ED; size = 0; uid = 0; gid = 0 };
  vfs_root = some 0;
  fs_types = [];
  mounts = [];
}

abbrev path_dot : FilePath
path_dot = slash ∷ dot ∷ []
