-- ===== src/Fs/Lock/Tests.antt =====
-- Runs of fs/lock.c at concrete tables, and its theorems there.
use codex_for_ipad.Prelude.{◌≡◌, refl, inr, true, false, none, some, List, [], ◌∷◌, arith}
use codex_for_ipad.Prelude.Int.{pos, ◌+ℤ◌, ◌-ℤ◌}
use codex_for_ipad.Prelude.Errno.{ok, err, eagain}
use codex_for_ipad.Fs.Lock.{
  rdlck, wrlck, unlck, FileLock, file_lock_acquire, acquire_loop, file_lock_test,
  file_locks_conflict, file_locks_overlap, file_locks_adjacent, visit, absorb, subtract, extend,
  place, off_t, off_t_min, off_t_max,
}
use codex_for_ipad.Fs.Lock.Held.{held, Grouped}
use codex_for_ipad.Fs.Lock.Acquire.{acquire-held}
use codex_for_ipad.Fs.Lock.Invariant.{IsExclusive, acquire-IsExclusive}
use codex_for_ipad.Fs.Lock.Flock.{Flock, Context, range, file_lock_from_flock, base_offset}

-- Owner 1 has a write lock on the bytes 0 to 99, owner 2 a read lock on 200 to 300.
abbrev first_lock : FileLock
first_lock = record { start = pos 0; end = pos 99; type = wrlck; pid = 11; owner = 1 }

abbrev second_lock : FileLock
second_lock = record { start = pos 200; end = pos 300; type = rdlck; pid = 12; owner = 2 }

abbrev table : List FileLock
table = first_lock ∷ second_lock ∷ []

abbrev middle : FileLock
middle = record { start = pos 40; end = pos 59; type = unlck; pid = 11; owner = 1 }

-- Unlocking the middle splits the write lock and wakes the waiters.
split_run :
    file_lock_acquire table middle
    ≡ ok (
      record first_lock { end = pos 39 } ∷ record first_lock { start = pos 60 } ∷ second_lock ∷ [],
      true,
    )
unfolding file_lock_acquire acquire_loop visit absorb subtract place file_locks_overlap ◌-ℤ◌ ◌+ℤ◌
split_run = refl

-- A lock of all bytes from 0 and one of the lowest offset alone, which the difference wraps to touch, become one lock
-- of the owner that covers every byte.
abbrev lowest : FileLock
lowest = record { start = off_t_min; end = off_t_min; type = wrlck; pid = 11; owner = 1 }

abbrev upper : FileLock
upper = record { start = pos 0; end = off_t_max; type = wrlck; pid = 11; owner = 1 }

wrapped_merge :
    file_lock_acquire (upper ∷ []) lowest ≡ ok (record upper { start = off_t_min } ∷ [], false)
unfolding file_lock_acquire file_lock_test file_locks_conflict acquire_loop visit absorb extend
    place file_locks_overlap file_locks_adjacent off_t ◌-ℤ◌ ◌+ℤ◌
wrapped_merge = refl

-- Read locks that touch are merged.
merge_run :
    file_lock_acquire table (record second_lock { start = pos 301; end = pos 400 })
    ≡ ok (first_lock ∷ record second_lock { end = pos 400 } ∷ [], false)
unfolding file_lock_acquire file_lock_test file_locks_conflict acquire_loop visit absorb extend
    place file_locks_overlap file_locks_adjacent off_t ◌-ℤ◌
merge_run = refl

refused_run : file_lock_acquire table (record second_lock { start = pos 50 }) ≡ err eagain
unfolding file_lock_acquire file_lock_test file_locks_conflict file_locks_overlap
refused_run = refl

table-Grouped : Grouped table
table-Grouped = (inr (omega arith), (tt, tt))

table-IsExclusive : IsExclusive table
table-IsExclusive a b x n w = ground arith

acquire-held_example :
    held (first_lock ∷ record second_lock { end = pos 400 } ∷ []) 2 (pos 350) ≡ some rdlck
acquire-held_example =
    acquire-held table (record second_lock { start = pos 301; end = pos 400 }) _ false 2 (pos 350)
      (refl, refl) ((refl, refl), ((refl, refl), tt)) table-Grouped merge_run

acquire-IsExclusive_example :
    IsExclusive
      (record first_lock { end = pos 39 } ∷ record first_lock { start = pos 60 } ∷ second_lock ∷ [])
acquire-IsExclusive_example =
    acquire-IsExclusive table middle _ true (refl, refl) ((refl, refl), ((refl, refl), tt))
      table-Grouped table-IsExclusive split_run

abbrev context : Context
context = record { tell = none; size = ok (pos 500); files = 3; pid = 13 }

-- A request for the bytes 50 to 59, on which owner 1 has a write lock.
abbrev wanted : Flock
wanted = record { type = 0; whence = 0; start = pos 50; len = pos 10; pid = 0 }

abbrev request : FileLock
request = record { start = pos 50; end = pos 59; type = rdlck; pid = 13; owner = 3 }

wanted_run : file_lock_from_flock context wanted rdlck ≡ ok request
unfolding file_lock_from_flock base_offset range off_t ◌+ℤ◌ ◌-ℤ◌
wanted_run = refl
