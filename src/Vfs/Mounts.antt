-- ===== src/Vfs/Mounts.antt =====
-- kernel/vfs.c: the table of mounted file systems, and mounting.
use project_lariat.Prelude.{
  Bool, List, Option, [], false, get_elem?, if◌then◌else◌, length, ltb, negsuc, none, pos, some,
  take, true, ℕ, ℤ, ◌++◌, ◌-◌, ◌∷◌,
}
use project_lariat.ThreadQueue.{update}
use project_lariat.Vfs.{FsType, MountRec, FilePath, Vfs, slash}
use project_lariat.Vfs.Dentries.{same_name}
use project_lariat.Vfs.Walk.{Ops, vfs_lookup_path}

abbrev pub max_mounts : ℕ
max_mounts = 16

-- The string that fits an array of `cap` bytes with its NUL.
unfoldable pub mt_copy : FilePath → ℕ → FilePath
mt_copy src cap = take (cap - 1) src

abbrev pub none_name : FilePath
none_name = 110 ∷ 111 ∷ 110 ∷ 101 ∷ []

abbrev pub root_path : FilePath
root_path = slash ∷ []

-- A device without a name is recorded as "none".
unfoldable pub dev_name : FilePath → FilePath
dev_name [] = none_name
dev_name (c ∷ dev) = c ∷ dev

unfoldable pub vfs_mount_record : FilePath → FilePath → FilePath → List MountRec → List MountRec
vfs_mount_record fstype dev path mounts =
    if ltb (length mounts) max_mounts
    then mounts
      ++ record {
        dev = mt_copy (dev_name dev) 32;
        path = mt_copy path 64;
        fstype = mt_copy fstype 16;
      }
        ∷ []
    else mounts

unfoldable pub vfs_mounts_count : Vfs → ℕ
vfs_mounts_count s = length s.mounts

unfoldable pub vfs_mounts_get : ℤ → Vfs → Option MountRec
vfs_mounts_get (negsuc i) s = none
vfs_mounts_get (pos i) s = get_elem? s.mounts i

unfoldable pub is_recorded : FilePath → List MountRec → Bool
is_recorded path [] = false
is_recorded path (r ∷ rs) = if same_name r.path path then true else is_recorded path rs

unfoldable pub vfs_is_mounted : FilePath → Vfs → Bool
vfs_is_mounted path s = is_recorded path s.mounts

unfoldable pub fs_named : FilePath → List FsType → Option FsType
fs_named name [] = none
fs_named name (fs ∷ rest) = if same_name fs.name name then some fs else fs_named name rest

module _ (ops : Ops) (fuel : ℕ) where
  -- The root entry of the new file system is mounted at a path.
  unfoldable pub mount_at : FilePath → FilePath → ℕ → FilePath → Vfs → ℤ × Vfs
  mount_at fs_name dev root path s =
      let (found, t) = vfs_lookup_path ops fuel path s in
      elim found [
        | none ↦ (negsuc 0, t)
        | some d ↦ (
          pos 0,
          record t {
            dentries = update t.dentries d (record (t.dentries d) { mount = some root });
            mounts = vfs_mount_record fs_name dev path t.mounts;
          },
        )
      ]

  -- The first file system, and one that is mounted at "/", becomes the root.
  unfoldable pub mount_root : FilePath → FilePath → ℕ → FilePath → Vfs → ℤ × Vfs
  mount_root fs_name dev root path s =
      let as_root = record s {
        vfs_root = some root;
        mounts = vfs_mount_record fs_name dev root_path s.mounts;
      } in
      elim s.vfs_root [
        | none ↦ (pos 0, as_root)
        | some old ↦
            if same_name path root_path then (pos 0, as_root) else mount_at fs_name dev root path s
      ]

  unfoldable pub vfs_mount : FilePath → FilePath → FilePath → Vfs → ℤ × Vfs
  vfs_mount fs_name dev path s = elim (fs_named fs_name s.fs_types) [
    | none ↦ (negsuc 0, s)
    | some fs ↦
        let (made, t) = ops.mount fs.id dev s in
        elim made [ none ↦ (negsuc 0, t) | some root ↦ mount_root fs_name dev root path t ]
  ]
