-- ===== src/Prelude/Errno.antt =====
-- kernel/errno.h: the error numbers that the modelled calls return, and calls that fail with one.
use Prim.Native.Nat.{ℕ, ◌-◌}
use codex_for_ipad.Prelude.Int.{ℤ, negsuc}

pub data Errno : Type 0 where
  eperm enoent esrch eintr ebadf eagain enomem eacces efault ebusy enotdir einval emfile : Errno
  enodev enametoolong enosys eloop etimedout : Errno

-- The magnitude of the negative number that stands for the error.
abbrev pub errno_code : Errno → ℕ
errno_code eperm = 1
errno_code enoent = 2
errno_code esrch = 3
errno_code eintr = 4
errno_code ebadf = 9
errno_code eagain = 11
errno_code enomem = 12
errno_code eacces = 13
errno_code efault = 14
errno_code ebusy = 16
errno_code enodev = 19
errno_code enotdir = 20
errno_code einval = 22
errno_code emfile = 24
errno_code enametoolong = 36
errno_code enosys = 38
errno_code eloop = 40
errno_code etimedout = 110

-- What a call returns: a value that is not negative, or an error.
pub data Result {ℓ} (A : Type ℓ) : Type ℓ where
  ok : A → Result A
  err : Errno → Result A

infixl 5 ◌>>=◌
abbrev pub ◌>>=◌ {ℓ κ} : {A : Type ℓ} {B : Type κ} → Result A → (A → Result B) → Result B
ok a >>= f = f a
err e >>= f = err e

-- The number that a call returns for an error.
abbrev pub failure : Errno → ℤ
failure e = negsuc (errno_code e - 1)
