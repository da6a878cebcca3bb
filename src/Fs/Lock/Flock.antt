-- ===== src/Fs/Lock/Flock.antt =====
-- fs/lock.c: `struct flock_` against lock ranges, and the calls F_GETLK, F_SETLK and F_SETLKW.
pub mod Calls
use codex_for_ipad.Prelude.{
  ℕ, zero, suc, ◌-◌, ◌%◌, ◌^◌, ◌≡◌, refl, ◌≢◌, Bool, true, false, not, ◌&&◌, ◌||◌, Option, none,
  some, List, [], ◌∷◌, arith, ◌==◌, if◌then◌else◌, Bool-cases, inl, inr,
}
use codex_for_ipad.Prelude.Int.{
  ℤ, pos, negsuc, ◌+ℤ◌, ◌-ℤ◌, ◌≤ℤ◌, ltb_ℤ, eqb_ℤ, +ℤ_parts, -ℤ_parts, eq_of_parts, int_laws,
}
use codex_for_ipad.Prelude.Errno.{Errno, einval, ebadf, eagain, Result, ok, err, ◌>>=◌}
use codex_for_ipad.Fs.Lock.{
  LockType, rdlck, wrlck, unlck, same_type, FileLock, file_lock_test, file_lock_acquire, off_t_max,
  off_t_min, off_t,
}

-- `type`, `whence` and `pid` are the words of the guest.
pub record Flock : Type 0 where
  pub type : ℕ
  pub whence : ℕ
  pub start : ℤ
  pub len : ℤ
  pub pid : ℕ

-- F_RDLCK_ 0, F_WRLCK_ 1, F_UNLCK_ 2
abbrev pub lock_type : ℕ → Option LockType
lock_type zero = some rdlck
lock_type (suc zero) = some wrlck
lock_type (suc (suc zero)) = some unlck
lock_type (suc (suc (suc n))) = none

abbrev pub lock_word : LockType → ℕ
lock_word rdlck = 0
lock_word wrlck = 1
lock_word unlck = 2

-- What the conversion asks of the descriptor: `lseek(fd, 0, LSEEK_CUR)`, if its operations have
-- one, and the size that `fstat` reports; and the task: `current->files` and `current->pid`.
pub record Context : Type 0 where
  pub tell : Option (Result ℤ)
  pub size : Result ℤ
  pub files : ℕ
  pub pid : ℕ

-- LSEEK_SET 0, LSEEK_CUR 1, LSEEK_END 2
unfoldable pub base_offset : Context → ℕ → Result ℤ
base_offset c zero = ok (pos 0)
base_offset c (suc zero) = elim c.tell [ none ↦ ok (pos 0) | some offset ↦ offset ]
base_offset c (suc (suc zero)) = c.size
base_offset c (suc (suc (suc n))) = err einval

-- The first and last byte of a range.
unfoldable pub range : ℤ → ℤ → ℤ × ℤ
range start len =
    if ltb_ℤ (pos 0) len
    then (start, off_t (start +ℤ len -ℤ pos 1))
    else if ltb_ℤ len (pos 0)
    then (off_t (off_t (start -ℤ pos 1) +ℤ len +ℤ pos 1), off_t (start -ℤ pos 1))
    else (start, off_t_max)

unfoldable pub file_lock_from_flock : Context → Flock → LockType → Result FileLock
file_lock_from_flock c flock type = do
  offset ← base_offset c flock.whence
  let r = range (off_t (flock.start +ℤ offset)) flock.len
  ok (record { start = r.0; end = r.1; type = type; pid = c.pid; owner = c.files })

pub flock_from_file_lock : FileLock → Flock
flock_from_file_lock lock = record {
  type = lock_word lock.type;
  whence = 0;
  start = lock.start;
  len = if eqb_ℤ lock.end off_t_max then pos 0 else off_t (off_t (lock.end -ℤ lock.start) +ℤ pos 1);
  pid = lock.pid;
}

-- The lock that would be in the way, or the request with the type F_UNLCK_.
pub fcntl_getlk : Context → List FileLock → Flock → Result Flock
fcntl_getlk c locks flock = elim (lock_type flock.type) [
  | none ↦ err einval
  | some unlck ↦ err einval
  | some t ↦ do
    request ← file_lock_from_flock c flock t
    elim (file_lock_test locks request) [
      | some lock ↦ ok (flock_from_file_lock lock)
      | none ↦ ok (record flock { type = 2 })
    ]
]

-- O_RDONLY_ 0, O_WRONLY_ 1: a read lock wants a readable file and a write lock a writable one.
unfoldable pub mode_allows : ℕ → LockType → Bool
mode_allows fd_mode rdlck = not (fd_mode == 1)
mode_allows fd_mode wrlck = not (fd_mode == 0)
mode_allows fd_mode unlck = true

-- How a call of F_SETLK or F_SETLKW ends; `waiting` is a call that has not returned.
pub data Outcome : Type 0 where
  locked : List FileLock → Bool → Outcome
  failed : Errno → Outcome
  waiting : Outcome

-- Each wait on `posix_unlock` ends with an error, or with the table as the others have left it.
pub setlk_loop : Bool → List FileLock → FileLock → List (Result (List FileLock)) → Outcome
setlk_loop blocking locks request [] = elim (file_lock_acquire locks request) [
  | ok (locks', notified) ↦ locked locks' notified
  | err e ↦ if not blocking then failed e else waiting
]
setlk_loop blocking locks request (err e' ∷ waits) = elim (file_lock_acquire locks request) [
  | ok (locks', notified) ↦ locked locks' notified
  | err e ↦ if not blocking then failed e else failed e'
]
setlk_loop blocking locks request (ok locks'' ∷ waits) = elim (file_lock_acquire locks request) [
  | ok (locks', notified) ↦ locked locks' notified
  | err e ↦
      let later = setlk_loop blocking locks'' request waits in
      if not blocking then failed e else later
]

pub fcntl_setlk :
    Context → ℕ → Bool → List FileLock → Flock → List (Result (List FileLock)) → Outcome
fcntl_setlk c flags blocking locks flock waits = elim (lock_type flock.type) [
  | none ↦ failed einval
  | some t ↦
      if not (mode_allows (flags % 4) t)
      then failed ebadf
      else elim (file_lock_from_flock c flock t) [
        | err e ↦ failed e
        | ok request ↦ setlk_loop blocking locks request waits
      ]
]
