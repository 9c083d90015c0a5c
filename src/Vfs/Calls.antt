-- ===== src/Vfs/Calls.antt =====
-- kernel/vfs.c: the calls on an open file, which go to the operations of its inode.
use project_lariat.Prelude.{List, Option, [], bit_and, negsuc, none, pos, some, ℕ, ℤ}
use project_lariat.Vfs.{Vfs}
use project_lariat.Vfs.Files.{File, failed}

-- What a call returns, with the bytes that it gives to the caller.
pub record Call : Type 0 where
  pub answer : ℤ
  pub bytes : List ℕ
  pub file : File
  pub vfs : Vfs

-- `struct vfs_file_ops` of an inode; a null pointer is `none`.
pub record FileOps : Type 0 where
  pub read : ℕ → Option (ℕ → File → Vfs → Call)
  pub write : ℕ → Option (List ℕ → File → Vfs → Call)
  pub lseek : ℕ → Option (ℤ → ℕ → File → Vfs → Call)
  pub poll : ℕ → Option (ℕ → File → Vfs → Call)
  pub ioctl : ℕ → Option (ℕ → ℕ → File → Vfs → Call)

-- A call that changes nothing.
abbrev pub returns : ℤ → File → Vfs → Call
returns n file s = record { answer = n; bytes = []; file = file; vfs = s }

module _ (fops : FileOps) where
  unfoldable pub vfs_read : File → ℕ → Vfs → Call
  vfs_read file count s = elim (fops.read file.inode) [
    | none ↦ returns failed file s
    | some read ↦ read count file s
  ]

  unfoldable pub vfs_write : File → List ℕ → Vfs → Call
  vfs_write file buf s = elim (fops.write file.inode) [
    | none ↦ returns failed file s
    | some write ↦ write buf file s
  ]

  unfoldable pub vfs_lseek : File → ℤ → ℕ → Vfs → Call
  vfs_lseek file offset whence s = elim (fops.lseek file.inode) [
    | none ↦ returns failed file s
    | some lseek ↦ lseek offset whence file s
  ]

  -- -ENOTTY for a file without the operation.
  unfoldable pub vfs_ioctl : File → ℕ → ℕ → Vfs → Call
  vfs_ioctl file req arg s = elim (fops.ioctl file.inode) [
    | none ↦ returns (negsuc 24) file s
    | some ioctl ↦ ioctl req arg file s
  ]

  -- A file without the operation is ready to read and write: POLLIN | POLLOUT is 5.
  unfoldable pub vfs_poll : File → ℕ → Vfs → Call
  vfs_poll file events s = elim (fops.poll file.inode) [
    | none ↦ returns (pos (bit_and events 5)) file s
    | some poll ↦ poll events file s
  ]
