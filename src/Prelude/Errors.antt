-- ===== src/Prelude/Errors.antt =====
-- Error returns of the kernel: a function that gives a value or the negated number of errno.h.
pub data Errno : Type 0 where
  eperm enoent eintr e2big eagain enomem eacces eexist einval enospc epipe : Errno

pub data Result {ℓ} (A : Type ℓ) : Type ℓ where
  ok : A → Result A
  err : Errno → Result A
