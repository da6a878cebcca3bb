-- ===== src/Fs/Lock.antt =====
-- fs/lock.c and fs/inode.h: POSIX record locks. An inode's `posix_locks` is a list of locks; an
-- owner is the file table that a lock was made through. Offsets are integers (`off_t_`).
pub mod Held
pub mod Acquire
pub mod Invariant
pub mod Flock
mod Tests
use codex_for_ipad.Prelude.{
  ℕ, Bool, true, false, not, ◌&&◌, ◌||◌, Option, none, some, List, [], ◌∷◌, ◌++◌, ◌==◌, ◌-◌, ◌^◌,
  if◌then◌else◌,
}
use codex_for_ipad.Prelude.Int.{ℤ, pos, negsuc, ◌+ℤ◌, ◌-ℤ◌, ltb_ℤ, leb_ℤ, eqb_ℤ}
use codex_for_ipad.Prelude.Errno.{Result, ok, err, eagain}

-- F_RDLCK_, F_WRLCK_, F_UNLCK_
pub data LockType : Type 0 where
  rdlck wrlck unlck : LockType

abbrev pub same_type : LockType → LockType → Bool
same_type rdlck rdlck = true
same_type wrlck wrlck = true
same_type unlck unlck = true
same_type _ _ = false

pub record FileLock : Type 0 where
  pub start : ℤ
  pub end : ℤ
  pub type : LockType
  pub pid : ℕ
  pub owner : ℕ

-- OFF_T_MAX
abbrev pub off_t_max : ℤ
off_t_max = pos (2 ^ 63 - 1)

abbrev pub off_t_min : ℤ
off_t_min = negsuc (2 ^ 63 - 1)

-- A sum of two values of `off_t` wraps by at most 2 ^ 64.
unfoldable pub off_t : ℤ → ℤ
off_t z =
    if ltb_ℤ off_t_max z
    then z -ℤ pos (2 ^ 64)
    else if ltb_ℤ z off_t_min
    then z +ℤ pos (2 ^ 64)
    else z

pub file_locks_overlap : FileLock → FileLock → Bool
file_locks_overlap a b = leb_ℤ b.start a.end && leb_ℤ a.start b.end

pub file_locks_conflict : FileLock → FileLock → Bool
file_locks_conflict a b =
    if a.owner == b.owner
    then false
    else if not (file_locks_overlap a b)
    then false
    else same_type a.type wrlck || same_type b.type wrlck

-- In front of the lowest offset the highest comes.
pub file_locks_adjacent : FileLock → FileLock → Bool
file_locks_adjacent a b =
    eqb_ℤ a.end (off_t (b.start -ℤ pos 1)) || eqb_ℤ b.end (off_t (a.start -ℤ pos 1))

-- The first lock in the way of a request.
pub file_lock_test : List FileLock → FileLock → Option FileLock
file_lock_test [] request = none
file_lock_test (lock ∷ locks) request =
    if file_locks_conflict lock request then some lock else file_lock_test locks request

-- `request` grows until it covers `lock`.
pub extend : FileLock → FileLock → FileLock
extend request lock = record request {
  start = if ltb_ℤ lock.start request.start then lock.start else request.start;
  end = if ltb_ℤ request.end lock.end then lock.end else request.end;
}

-- What is left of a `lock` of another type that `request` overlaps.
pub subtract : FileLock → FileLock → List FileLock
subtract request lock =
    let before = record lock { end = request.start -ℤ pos 1 } in
    let after = record lock { start = request.end +ℤ pos 1 } in
    if ltb_ℤ lock.start request.start && ltb_ℤ request.end lock.end
    then before ∷ after ∷ []
    else if leb_ℤ request.start lock.start && leb_ℤ lock.end request.end
    then []
    else if ltb_ℤ lock.start request.start
    then before ∷ []
    else if ltb_ℤ request.end lock.end
    then after ∷ []
    else lock ∷ []

-- One lock of the request's owner: the request as it goes on, what stays of the lock, and whether
-- the waiters on `posix_unlock` are notified.
pub absorb : FileLock → FileLock → FileLock × List FileLock × Bool
absorb request lock =
    if same_type request.type lock.type
    then (if not (file_locks_overlap lock request) && not (file_locks_adjacent request lock)
        then (request, lock ∷ [], false)
        else (extend request lock, [], false))
    else if not (file_locks_overlap lock request)
    then (request, lock ∷ [], false)
    else (request, subtract request lock, true)

-- The new lock goes where the loop stopped; an unlock adds none.
pub place : FileLock → List FileLock → List FileLock
place request locks = if same_type request.type unlck then locks else request ∷ locks

pub data Visit : Type 0 where
  skip stop own : Visit

-- The locks are grouped by owner: the loop runs up to our group, and ends behind it.
pub visit : Bool → FileLock → FileLock → Visit
visit found request lock = if lock.owner == request.owner then own else if found then stop else skip

pub acquire_loop : Bool → FileLock → List FileLock → List FileLock × Bool
acquire_loop found request [] = (place request [], false)
acquire_loop found request (lock ∷ locks) = elim (visit found request lock) [
  | skip ↦ let (rest, notified) = acquire_loop found request locks in (lock ∷ rest, notified)
  | stop ↦ (place request (lock ∷ locks), false)
  | own ↦
      let (request', kept, freed) = absorb request lock in
      let (rest, notified) = acquire_loop true request' locks in (kept ++ rest, freed || notified)
]

-- The table after a successful request, and whether waiters are notified.
pub file_lock_acquire : List FileLock → FileLock → Result (List FileLock × Bool)
file_lock_acquire locks request =
    if same_type request.type unlck
    then ok (acquire_loop false request locks)
    else elim (file_lock_test locks request) [
      | some _ ↦ err eagain
      | none ↦ ok (acquire_loop false request locks)
    ]

-- Closing a file drops every lock that was made through its table.
pub file_lock_remove_owned_by : List FileLock → ℕ → List FileLock
file_lock_remove_owned_by [] o = []
file_lock_remove_owned_by (lock ∷ locks) o =
    let rest = file_lock_remove_owned_by locks o in if lock.owner == o then rest else lock ∷ rest
