-- ===== src/Vfs/Files.antt =====
-- kernel/vfs.c: operations on paths that end in a call of the parent directory's file system, and
-- the opening of files.
use project_lariat.Prelude.{
  Bool, Option, Result, [], bit_at, bit_or, enoent, err, if◌then◌else◌, negsuc, none, pos, some, ℕ,
  ℤ, ◌%◌, ◌+◌, ◌==◌, ◌^◌, ◌||◌, ◌∷◌,
}
use project_lariat.Vfs.{Inode, FilePath, Vfs, slash}
use project_lariat.Vfs.Permission.{Cred, vfs_permission}
use project_lariat.Vfs.Names.{name_size}
use project_lariat.Vfs.Dentries.{vfs_dentry_add_child, vfs_dentry_create}
use project_lariat.Vfs.Walk.{Ops, crossed, link_of, look_up, vfs_lookup_parent, vfs_lookup_path}

-- The result -1.
abbrev pub failed : ℤ
failed = negsuc 0

-- `struct vfs_file`, as `vfs_open` fills it.
pub record File : Type 0 where
  pub dentry : ℕ
  pub inode : ℕ
  pub offset : ℕ
  pub flags : ℕ
  pub ref_count : ℕ

-- MAY_WRITE | MAY_EXEC
abbrev pub may_change : ℕ
may_change = 3

-- The rights that `flags` asks for: read for O_RDONLY and O_RDWR, write for O_WRONLY, O_RDWR and
-- O_TRUNC.
unfoldable pub access_wanted : ℕ → ℕ
access_wanted flags =
    let acc = flags % 4 in
    (if acc == 0 || acc == 2 then 4 else 0)
    + (if acc == 1 || (acc == 2 || bit_at flags 9) then 2 else 0)

unfoldable pub inode_at : ℕ → Vfs → Option Inode
inode_at d s = elim (s.dentries d).inode [ none ↦ none | some i ↦ some (s.inodes i) ]

module _ (ops : Ops) (fuel : ℕ) where
  -- A call of an operation of the parent directory; -1 where there is none.
  unfoldable pub in_parent : (ℕ → Option (FilePath → Vfs → ℤ × Vfs)) → FilePath → Vfs → ℤ × Vfs
  in_parent op path s =
      let (found, t) = vfs_lookup_parent ops fuel path name_size s in
      elim found [
        | none ↦ (failed, t)
        | some (parent, name) ↦ elim (t.dentries parent).inode [
          | none ↦ (failed, t)
          | some inode ↦ elim (op inode) [ none ↦ (failed, t) | some call ↦ call name t ]
        ]
      ]

  unfoldable pub vfs_mkdir : FilePath → ℕ → Vfs → ℤ × Vfs
  vfs_mkdir path mode s =
      in_parent
        (λ inode. elim (ops.mkdir inode) [
          | none ↦ none
          | some mkdir ↦ some (λ name t. mkdir name (bit_or mode (2 ^ 14)) t)
        ])
        path s

  unfoldable pub vfs_unlink : FilePath → Vfs → ℤ × Vfs
  vfs_unlink path s = in_parent ops.unlink path s

  unfoldable pub vfs_rmdir : FilePath → Vfs → ℤ × Vfs
  vfs_rmdir path s = in_parent ops.rmdir path s

  -- `while (parent->mount) parent = parent->mount->root;` before the call.
  unfoldable pub vfs_symlink : FilePath → FilePath → Vfs → ℤ × Vfs
  vfs_symlink target linkpath s =
      let (found, t) = vfs_lookup_parent ops fuel linkpath name_size s in
      elim found [
        | none ↦ (failed, t)
        | some (above, name) ↦ elim (t.dentries (crossed fuel t.dentries above)).inode [
          | none ↦ (failed, t)
          | some inode ↦ elim (ops.symlink inode) [
            | none ↦ (failed, t)
            | some symlink ↦ symlink name target t
          ]
        ]
      ]

  -- The bytes of the link at an entry; `none` is the result -1.
  unfoldable pub read_link : ℕ → ℕ → Vfs → Option FilePath
  read_link d bufsiz s = elim (link_of ops fuel d s) [
    | none ↦ none
    | some inode ↦ elim (ops.readlink inode) [ none ↦ none | some readlink ↦ readlink bufsiz s ]
  ]

  -- The final component is not followed.
  unfoldable pub vfs_readlink : FilePath → ℕ → Vfs → Option FilePath × Vfs
  vfs_readlink path bufsiz s =
      let (found, t) = vfs_lookup_parent ops fuel path name_size s in
      elim (if bufsiz == 0 then none else found) [
        | none ↦ (none, if bufsiz == 0 then s else t)
        | some (above, name) ↦
            let (entry, u) = look_up ops fuel (crossed fuel t.dentries above) name t in
            elim entry [ none ↦ (none, u) | some d ↦ (read_link d bufsiz u, u) ]
      ]

  -- A file system without the operation keeps the inode in memory only.
  unfoldable pub vfs_setattr : Option ℕ → Vfs → ℤ × Vfs
  vfs_setattr none s = (failed, s)
  vfs_setattr (some inode) s = elim (ops.setattr inode) [
    | none ↦ (pos 0, s)
    | some setattr ↦ setattr s
  ]

  -- A missing file that may be created needs write and search on its parent directory.
  unfoldable pub access_to_create : Option Cred → FilePath → ℕ → Vfs → Result ℕ × Vfs
  access_to_create current path flags s =
      let (found, t) = vfs_lookup_parent ops fuel path name_size s in
      if bit_at flags 6
      then (elim found [
        | none ↦ (err enoent, t)
        | some (parent, name) ↦ (vfs_permission current (inode_at parent t) may_change, t)
      ])
      else (err enoent, s)

  unfoldable pub vfs_access_check : Option Cred → FilePath → ℕ → Vfs → Result ℕ × Vfs
  vfs_access_check current path flags s =
      let (found, t) = vfs_lookup_path ops fuel path s in
      let target : Option Inode = elim found [ none ↦ none | some d ↦ inode_at d t ] in
      elim target [
        | some inode ↦ (vfs_permission current (some inode) (access_wanted flags), t)
        | none ↦ access_to_create current path flags t
      ]

  -- The file is created with the mode S_IFREG | 0644 and looked up again.
  unfoldable pub create_at : FilePath → ℕ → FilePath → Vfs → Option ℕ × Vfs
  create_at path parent name s = elim (s.dentries parent).inode [
    | none ↦ (none, s)
    | some inode ↦ elim (ops.create inode) [
      | none ↦ (none, s)
      | some create ↦
          let (answer, t) = create name 0x81A4 s in
          elim answer [ negsuc n ↦ (none, t) | pos n ↦ vfs_lookup_path ops fuel path t ]
    ]
  ]

  -- The entry to open.
  unfoldable pub found_or_created : FilePath → ℕ → Vfs → Option ℕ × Vfs
  found_or_created path flags s =
      let (entry, t) = vfs_lookup_path ops fuel path s in
      elim entry [
        | some d ↦ (some d, t)
        | none ↦
            let (found, u) = vfs_lookup_parent ops fuel path name_size t in
            if bit_at flags 6
            then (elim found [
              | none ↦ (none, u)
              | some (parent, name) ↦ create_at path parent name u
            ])
            else (none, t)
      ]

  -- O_TRUNC: the file system cuts the file, or the size is set to 0.
  unfoldable pub truncated : ℕ → ℕ → Vfs → Vfs
  truncated inode flags s =
      if bit_at flags 9
      then (elim (ops.truncate inode) [
        | some truncate ↦ truncate s
        | none ↦
            if ops.can_write inode
            then (record s {
              inodes = λ i. if i == inode then record (s.inodes i) { size = 0 } else s.inodes i;
            })
            else s
      ])
      else s

  -- A file at its start, or at its end with O_APPEND.
  unfoldable pub opened : ℕ → ℕ → ℕ → Vfs → File × Vfs
  opened d inode flags s =
      let t = truncated inode flags s in
      (
        record {
          dentry = d;
          inode = inode;
          offset = if bit_at flags 10 then (t.inodes inode).size else 0;
          flags = flags;
          ref_count = 1;
        },
        t,
      )

  -- `memory` says whether there is memory for the file.
  unfoldable pub vfs_open : Bool → FilePath → ℕ → Vfs → Option File × Vfs
  vfs_open memory path flags s =
      let (entry, t) = found_or_created path flags s in
      elim entry [
        | none ↦ (none, t)
        | some d ↦ elim (t.dentries d).inode [
          | none ↦ (none, t)
          | some inode ↦
              let (file, u) = opened d inode flags t in if memory then (some file, u) else (none, t)
        ]
      ]

  -- The entry of a device comes into /dev, which is made first where it is missing.
  unfoldable pub dev_directory : Vfs → Option ℕ × Vfs
  dev_directory s =
      let dev = slash ∷ 100 ∷ 101 ∷ 118 ∷ [] in
      let (found, t) = vfs_lookup_path ops fuel dev s in
      elim found [
        | some d ↦ (some d, t)
        | none ↦ vfs_lookup_path ops fuel dev (vfs_mkdir dev 493 t).1
      ]

  unfoldable pub vfs_devfs_register : FilePath → ℕ → Option ℕ → Vfs → ℤ × Vfs
  vfs_devfs_register name inode memory s =
      let (found, t) = dev_directory s in
      elim found [
        | none ↦ (failed, t)
        | some dev ↦
            let (entry, u) = vfs_dentry_create name (some inode) (some dev) memory t in
            elim entry [ none ↦ (failed, u) | some d ↦ (pos 0, vfs_dentry_add_child dev d u) ]
      ]
