-- ===== src/Kernel/Eventfd.antt =====
-- kernel/eventfd.c: event counters. A wait on the condition ends with an interruption, or with the value
-- that the others have left; the ends of the waits of a call are an argument.
pub mod Sums
mod Tests
use codex_for_ipad.Prelude.{
  ℕ, zero, suc, ◌+◌, ◌-◌, ◌*◌, ◌%◌, ◌/◌, ◌^◌, Bool, true, false, not, ◌&&◌, ◌||◌, Option, none,
  some, List, [], ◌∷◌, ◌==◌, ltb, leb, if◌then◌else◌,
}
use codex_for_ipad.Prelude.Errno.{Errno, einval, eagain, eintr, Result, ok, err}

-- `fd->eventfd.val`, and O_NONBLOCK_ of `fd->flags`.
pub record Counter : Type 0 where
  pub val : ℕ
  pub nonblock : Bool

-- A wait that is interrupted, or the value at its end.
pub data Wake : Type 0 where
  interrupted : Wake
  woken : ℕ → Wake

-- A call that has succeeded, with the value read or the size written, and has woken all waiters; one that has failed;
-- and one that still waits.
pub data Outcome : Type 0 where
  done : Counter → ℕ → Outcome
  failed : Errno → Outcome
  waiting : Outcome

abbrev pub uint64_max : ℕ
uint64_max = 2 ^ 64 - 1

-- The flags have no bits but O_CLOEXEC_ and O_NONBLOCK_, 19 and 11.
abbrev pub flags_known : ℕ → Bool
flags_known flags = flags == flags / 2 ^ 19 % 2 * 2 ^ 19 + flags / 2 ^ 11 % 2 * 2 ^ 11

-- The new counter, before `f_install`, which sets its flags.
pub sys_eventfd2 : ℕ → ℕ → Result Counter
sys_eventfd2 initval flags =
    if not (flags_known flags)
    then err einval
    else ok (record { val = initval; nonblock = flags / 2 ^ 11 % 2 == 1 })

pub sys_eventfd : ℕ → Result Counter
sys_eventfd initval = sys_eventfd2 initval 0

-- The loop of `eventfd_read`, and what follows it.
pub read_loop : List Wake → Counter → Outcome
read_loop [] c =
    if c.val == 0
    then (if c.nonblock then failed eagain else waiting)
    else done (record c { val = 0 }) c.val
read_loop (interrupted ∷ wakes) c =
    if c.val == 0
    then (if c.nonblock then failed eagain else failed eintr)
    else done (record c { val = 0 }) c.val
read_loop (woken v ∷ wakes) c =
    let rest = read_loop wakes (record c { val = v }) in
    if c.val == 0
    then (if c.nonblock then failed eagain else rest)
    else done (record c { val = 0 }) c.val

pub eventfd_read : ℕ → List Wake → Counter → Outcome
eventfd_read bufsize wakes c = if ltb bufsize 8 then failed einval else read_loop wakes c

abbrev pub add : ℕ → Counter → Counter
add increment c = record c { val = (c.val + increment) % 2 ^ 64 }

-- The loop of `eventfd_write`, and what follows it.
pub write_loop : ℕ → List Wake → Counter → Outcome
write_loop increment [] c =
    if leb (uint64_max - increment) c.val
    then (if c.nonblock then failed eagain else waiting)
    else done (add increment c) 8
write_loop increment (interrupted ∷ wakes) c =
    if leb (uint64_max - increment) c.val
    then (if c.nonblock then failed eagain else failed eintr)
    else done (add increment c) 8
write_loop increment (woken v ∷ wakes) c =
    let rest = write_loop increment wakes (record c { val = v }) in
    if leb (uint64_max - increment) c.val
    then (if c.nonblock then failed eagain else rest)
    else done (add increment c) 8

pub eventfd_write : ℕ → ℕ → List Wake → Counter → Outcome
eventfd_write bufsize increment wakes c =
    if ltb bufsize 8
    then failed einval
    else if increment == uint64_max
    then failed einval
    else write_loop increment wakes c

-- POLL_READ and POLL_WRITE
pub eventfd_poll : Counter → Bool × Bool
eventfd_poll c = (ltb 0 c.val, ltb c.val (uint64_max - 1))
