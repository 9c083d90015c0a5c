-- ===== src/Vfs.antt =====
-- kernel/vfs.c and include/vfs.h: the virtual file system over the file systems. Inodes and
-- directory entries are named by numbers that stand for their addresses; a path is the list of its
-- bytes before the NUL, and is not a null pointer. The list of a directory's cached entries, linked
-- by `next_sibling`, is a list of addresses.
pub mod Permission
pub mod Names
pub mod Dentries
pub mod Walk
pub mod Files
pub mod Calls
pub mod Mounts
pub mod Dirs
mod Tests
use project_lariat.Prelude.{Bool, List, Option, [], bit_at, none, ℕ, ◌%◌, ◌/◌, ◌==◌, ◌^◌, ◌∷◌}

abbrev pub FilePath : Type 0
FilePath = List ℕ

abbrev pub slash : ℕ
slash = 47

abbrev pub dot : ℕ
dot = 46

-- `struct vfs_inode`; what its file system keeps and its operations are those of `Ops`.
pub record Inode : Type 0 where
  pub inode_no : ℕ
  pub mode : ℕ
  pub size : ℕ
  pub uid : ℕ
  pub gid : ℕ

-- `struct vfs_dentry`; `mount` is the root entry of the file system mounted here.
pub record Dentry : Type 0 where
  pub name : FilePath
  pub inode : Option ℕ
  pub parent : Option ℕ
  pub child_list : List ℕ
  pub mount : Option ℕ

-- `struct vfs_mount_rec`
pub record MountRec : Type 0 where
  pub dev : FilePath
  pub path : FilePath
  pub fstype : FilePath

-- `struct vfs_fs_type`; `id` stands for its address.
pub record FsType : Type 0 where
  pub id : ℕ
  pub name : FilePath

-- The static variables of kernel/vfs.c, and the entries and inodes in memory.
pub record Vfs : Type 0 where
  pub dentries : ℕ → Dentry
  pub inodes : ℕ → Inode
  pub vfs_root : Option ℕ
  pub fs_types : List FsType
  pub mounts : List MountRec

-- `S_ISDIR(m)` is `(m & S_IFDIR) == S_IFDIR`, with a single bit in the mask.
abbrev pub is_dir : ℕ → Bool
is_dir m = bit_at m 14

-- `S_ISLNK(m)` compares all four bits of the type.
abbrev pub is_lnk : ℕ → Bool
is_lnk m = m / 2 ^ 12 % 16 == 10

unfoldable pub vfs_register_fs : FsType → Vfs → Vfs
vfs_register_fs fs s = record s { fs_types = fs ∷ s.fs_types }

unfoldable pub vfs_init : Vfs → Vfs
vfs_init s = record s { vfs_root = none; fs_types = [] }
