-- ===== src/Fs/Fd/Fcntl.antt =====
-- `sys_fcntl` of fs/fd.c. What `user_read` finds at the argument, whether `user_write` succeeds there,
-- and how waits for a lock end, are arguments.
pub mod Laws
use codex_for_ipad.Prelude.{
  ℕ, ◌-◌, ◌%◌, ◌^◌, Bool, true, false, not, ◌||◌, Option, none, some, List, ◌==◌, ltb,
  if◌then◌else◌, get_or, set,
}
use codex_for_ipad.Prelude.Int.{ℤ, pos, negsuc}
use codex_for_ipad.Prelude.Errno.{ebadf, einval, efault, Result, ok, err, failure}
use codex_for_ipad.Fs.Lock.{FileLock, unlck}
use codex_for_ipad.Fs.Lock.Flock.{
  Flock, Context, lock_type, mode_allows, fcntl_getlk, fcntl_setlk, locked, failed, waiting,
}
use codex_for_ipad.Fs.Fd.{Sys, Env, slot, update, fd_retain, f_install_start, set_flags}

-- `struct flock32_`: unsigned words.
pub record Flock32 : Type 0 where
  pub type : ℕ
  pub whence : ℕ
  pub start : ℕ
  pub len : ℕ
  pub pid : ℕ

pub widen : Flock32 → Flock
widen l = record {
  type = l.type;
  whence = l.whence;
  start = pos l.start;
  len = pos l.len;
  pid = l.pid;
}

abbrev pub dword : ℤ → ℕ
dword (pos n) = n % 2 ^ 32
dword (negsuc n) = 2 ^ 32 - 1 - n % 2 ^ 32

pub narrow : Flock → Flock32
narrow l = record {
  type = l.type;
  whence = l.whence;
  start = dword l.start;
  len = dword l.len;
  pid = l.pid;
}

-- The caller's memory at the argument, and how its waits end.
pub record Guest : Type 0 where
  pub flock32 : Option Flock32
  pub flock : Option Flock
  pub writable : Bool
  pub waits : List (Result (List FileLock))

-- A return value, a lock written back with the value 0, a call that still waits, or a crash.
pub data Reply : Type 0 where
  reply : Sys → ℤ → Reply
  answer32 : Sys → Flock32 → Reply
  answer64 : Sys → Flock → Reply
  sleeping : Reply
  broken : Reply

-- F_GETLK on a file; without an inode a valid request crashes.
pub getlk_file : Context → Sys → ℕ → Flock → Option (Result Flock)
getlk_file c s fd flock = elim (s.fds fd).inode [
  | some i ↦ some (fcntl_getlk (record c { files = s.table }) (s.locks i) flock)
  | none ↦ elim (lock_type flock.type) [
    | none ↦ some (err einval)
    | some unlck ↦ some (err einval)
    | some _ ↦ none
  ]
]

pub setlk_file : Context → Guest → Sys → ℕ → Flock → Bool → Reply
setlk_file c g s fd flock blocking = elim (s.fds fd).inode [
  | some i ↦
      elim (fcntl_setlk (record c { files = s.table }) (s.fds fd).flags blocking (s.locks i) flock
        g.waits) [
          | locked table notified ↦ reply (record s { locks = update s.locks i table }) (pos 0)
          | failed e ↦ reply s (failure e)
          | waiting ↦ sleeping
        ]
  | none ↦ elim (lock_type flock.type) [
    | none ↦ reply s (failure einval)
    | some t ↦
        if not (mode_allows ((s.fds fd).flags % 4) t) then reply s (failure ebadf) else broken
  ]
]

pub fcntl_getlk32 : Context → Guest → Sys → ℕ → Reply
fcntl_getlk32 c g s fd = elim g.flock32 [
  | none ↦ reply s (failure efault)
  | some l ↦ elim (getlk_file c s fd (widen l)) [
    | none ↦ broken
    | some (err e) ↦ reply s (failure e)
    | some (ok l') ↦ if g.writable then answer32 s (narrow l') else reply s (failure efault)
  ]
]

pub fcntl_getlk64 : Context → Guest → Sys → ℕ → Reply
fcntl_getlk64 c g s fd = elim g.flock [
  | none ↦ reply s (failure efault)
  | some l ↦ elim (getlk_file c s fd l) [
    | none ↦ broken
    | some (err e) ↦ reply s (failure e)
    | some (ok l') ↦ if g.writable then answer64 s l' else reply s (failure efault)
  ]
]

-- F_SETLK_ 6 and F_SETLKW_ 7: the call waits if the command is F_SETLKW64_.
pub fcntl_setlk32 : Context → Guest → Sys → ℕ → ℕ → Reply
fcntl_setlk32 c g s fd cmd = elim g.flock32 [
  | none ↦ reply s (failure efault)
  | some l ↦ setlk_file c g s fd (widen l) (cmd == 14)
]

-- F_SETLK64_ 13 and F_SETLKW64_ 14: the call waits if the command is F_SETLKW_.
pub fcntl_setlk64 : Context → Guest → Sys → ℕ → ℕ → Reply
fcntl_setlk64 c g s fd cmd = elim g.flock [
  | none ↦ reply s (failure efault)
  | some l ↦ setlk_file c g s fd l (cmd == 7)
]

-- F_DUPFD_ and F_DUPFD_CLOEXEC_; `assert(start >= 0)` is the test of the top bit.
pub fcntl_dupfd : Env → Sys → ℕ → ℕ → Bool → Reply
fcntl_dupfd env s fd arg mark =
    if ltb arg (2 ^ 31)
    then (let (s', r) = f_install_start env fd arg (fd_retain fd s) in
        if mark
        then elim r [
          | pos f ↦ reply (record s' { cloexec = set s'.cloexec f true }) (pos f)
          | negsuc e ↦ broken
        ]
        else reply s' r)
    else broken

-- The commands on an open descriptor `f` that names the file `fd`.
pub fcntl_open : Env → Context → Guest → Sys → ℕ → ℕ → ℕ → ℕ → Reply
fcntl_open env c g s f fd cmd arg =
    if cmd == 0
    then fcntl_dupfd env s fd arg false
    else if cmd == 1030
    then fcntl_dupfd env s fd arg true
    else if cmd == 1
    then reply s (if get_or s.cloexec f false then pos 1 else pos 0)
    else if cmd == 2
    then reply (record s { cloexec = set s.cloexec f (arg % 2 == 1) }) (pos 0)
    else if cmd == 3
    then reply s (pos (s.fds fd).flags)
    else if cmd == 4
    then reply (set_flags fd arg s) (pos 0)
    else if cmd == 5
    then fcntl_getlk32 c g s fd
    else if cmd == 12
    then fcntl_getlk64 c g s fd
    else if (cmd == 6) || (cmd == 7)
    then fcntl_setlk32 c g s fd cmd
    else if (cmd == 13) || (cmd == 14)
    then fcntl_setlk64 c g s fd cmd
    else reply s (failure einval)

pub sys_fcntl : Env → Context → Guest → Sys → ℤ → ℕ → ℕ → Reply
sys_fcntl env c g s (negsuc n) cmd arg = reply s (failure ebadf)
sys_fcntl env c g s (pos f) cmd arg = elim (slot s.files f) [
  | none ↦ reply s (failure ebadf)
  | some fd ↦ fcntl_open env c g s f fd cmd arg
]

-- `fcntl`, the older call: the 64-bit lock commands are unknown to it.
pub sys_fcntl32 : Env → Context → Guest → Sys → ℤ → ℕ → ℕ → Reply
sys_fcntl32 env c g s f cmd arg =
    if (cmd == 12) || (cmd == 13) || (cmd == 14)
    then reply s (failure einval)
    else sys_fcntl env c g s f cmd arg
