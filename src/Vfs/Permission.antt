-- ===== src/Vfs/Permission.antt =====
-- kernel/vfs.c: `vfs_permission`.
pub mod Classes
use project_lariat.Prelude.{
  Bool, List, Option, Result, [], bit_and, bit_at, eacces, enoent, err, false, if◌then◌else◌, none,
  not, ok, some, true, ℕ, ◌%◌, ◌+◌, ◌/◌, ◌==◌, ◌||◌, ◌∷◌,
}
use project_lariat.Vfs.{Inode}

-- The credentials of a thread.
pub record Cred : Type 0 where
  pub euid : ℕ
  pub egid : ℕ
  pub groups : List ℕ

unfoldable pub in_groups : ℕ → List ℕ → Bool
in_groups gid [] = false
in_groups gid (g ∷ gs) = if g == gid then true else in_groups gid gs

-- The three bits of the owner, of the group or of the others; `(mode & S_IRWXU) >> 6` is
-- `mode / 64 % 8`.
unfoldable pub perms_for : Cred → Inode → ℕ
perms_for t inode =
    if t.euid == inode.uid
    then inode.mode / 64 % 8
    else if t.egid == inode.gid || in_groups inode.gid t.groups
    then inode.mode / 8 % 8
    else inode.mode % 8

-- `want`: the bits for MAY_READ, MAY_WRITE and MAY_EXEC are distinct, so that `|=` adds.
unfoldable pub wanted : ℕ → ℕ
wanted mask =
    (if bit_at mask 2 then 4 else 0)
    + (if bit_at mask 1 then 2 else 0)
    + (if bit_at mask 0 then 1 else 0)

unfoldable pub allowed : Bool → Result ℕ
allowed true = ok 0
allowed false = err eacces

-- The root user needs an execute bit of someone to execute.
unfoldable pub root_permission : Inode → ℕ → Result ℕ
root_permission inode mask =
    allowed
      (not (bit_at mask 0) || (bit_at inode.mode 6 || (bit_at inode.mode 3 || bit_at inode.mode 0)))

unfoldable pub user_permission : Cred → Inode → ℕ → Result ℕ
user_permission t inode mask = allowed (bit_and (perms_for t inode) (wanted mask) == wanted mask)

-- No thread acts as root.
unfoldable pub vfs_permission : Option Cred → Option Inode → ℕ → Result ℕ
vfs_permission current none mask = err enoent
vfs_permission none (some inode) mask = if mask == 0 then ok 0 else root_permission inode mask
vfs_permission (some t) (some inode) mask =
    if mask == 0
    then ok 0
    else if t.euid == 0
    then root_permission inode mask
    else user_permission t inode mask
