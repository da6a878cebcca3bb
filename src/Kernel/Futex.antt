-- ===== src/Kernel/Futex.antt =====
-- kernel/futex.c: the table of futexes and the waits of tasks on them. Futexes and waits are named by numbers, the
-- chains of `futex_hash` are one list, and a wait is split where it gives up `futex_lock`.
pub mod Calls
pub mod Counts
pub mod Invariant
pub mod Steps
pub mod Safety
pub mod View
pub mod Change
pub mod Wake
pub mod Wait
pub mod Requeue
mod Tests
use codex_for_ipad.Prelude.{
  ℕ, zero, suc, ◌+◌, ◌-◌, ◌*◌, ◌%◌, ◌/◌, ◌^◌, Bool, true, false, not, ◌&&◌, ◌||◌, Option, none,
  some, List, [], ◌∷◌, ◌++◌, ◌==◌, ltb, leb, if◌then◌else◌, length,
}
use codex_for_ipad.Prelude.Int.{ℤ, pos, negsuc, ◌+ℤ◌, ◌-ℤ◌, ltb_ℤ, leb_ℤ}
use codex_for_ipad.Prelude.Errno.{
  Errno, enomem, efault, eagain, einval, enosys, eperm, Result, ok, err, failure,
}
use codex_for_ipad.Kernel.Memory.{update, inc, dec}

-- `struct futex`, with the waits of its queue.
pub record Futex : Type 0 where
  pub refcount : ℕ
  pub mem : ℕ
  pub addr : ℕ
  pub queue : List ℕ

-- `struct futex_wait`
pub record FutexWait : Type 0 where
  pub futex : ℕ
  pub bitset : ℕ

-- The futexes, those that the hash table has, the first number that none has had, the waits, those of tasks that
-- are in `wait_for`, the waits whose condition has been notified, and whether all assertions have held.
pub record Table : Type 0 where
  pub futexes : ℕ → Futex
  pub chain : List ℕ
  pub next : ℕ
  pub waits : ℕ → FutexWait
  pub live : List ℕ
  pub notified : List ℕ
  pub asserts : Bool

abbrev pub set_futex : ℕ → Futex → Table → Table
set_futex p f s = record s { futexes = update s.futexes p f }

abbrev pub assertion : Bool → Table → Table
assertion b s = record s { asserts = s.asserts && b }

-- `list_remove`
unfoldable pub list_remove : ℕ → List ℕ → List ℕ
list_remove w [] = []
list_remove w (x ∷ xs) = if x == w then xs else x ∷ list_remove w xs

-- The search of a chain.
unfoldable pub find_futex : (ℕ → Futex) → ℕ → ℕ → List ℕ → Option ℕ
find_futex futexes mem addr [] = none
find_futex futexes mem addr (p ∷ ps) =
    if (futexes p).addr == addr && (futexes p).mem == mem
    then some p
    else find_futex futexes mem addr ps

abbrev pub set_refcount : ℕ → ℕ → Table → Table
set_refcount p n s = set_futex p (record (s.futexes p) { refcount = n }) s

-- A new futex, if `malloc` succeeds.
abbrev pub new_futex : Bool → ℕ → ℕ → Table → Option ℕ × Table
new_futex room mem addr s =
    if room
    then (
      some s.next,
      record s {
        futexes =
            update s.futexes s.next (record { refcount = 1; mem = mem; addr = addr; queue = [] });
        chain = s.next ∷ s.chain;
        next = suc s.next;
      },
    )
    else (none, s)

unfoldable pub get_found : Bool → ℕ → ℕ → Table → Option ℕ → Option ℕ × Table
get_found room mem addr s none = new_futex room mem addr s
get_found room mem addr s (some p) = (some p, set_refcount p (inc (s.futexes p).refcount) s)

-- `mem` is the address space of the current task.
unfoldable pub futex_get_unlocked : Bool → ℕ → ℕ → Table → Option ℕ × Table
futex_get_unlocked room mem addr s =
    get_found room mem addr s (find_futex s.futexes mem addr s.chain)

abbrev pub is_empty : List ℕ → Bool
is_empty [] = true
is_empty (w ∷ ws) = false

abbrev pub unlink : ℕ → Table → Table
unlink p s = record s { chain = list_remove p s.chain }

unfoldable pub futex_put : ℕ → Table → Table
futex_put p s =
    let n = dec (s.futexes p).refcount in
    if n == 0
    then unlink p (assertion (is_empty (s.futexes p).queue) (set_refcount p n s))
    else set_refcount p n s

-- `struct timespec`
pub record Timespec : Type 0 where
  pub tv_sec : ℤ
  pub tv_nsec : ℤ

abbrev pub zero_time : Timespec
zero_time = record { tv_sec = pos 0; tv_nsec = pos 0 }

abbrev pub clamp : Timespec → Timespec
clamp t = if ltb_ℤ t.tv_sec (pos 0) then zero_time else t

-- The time from `now` to an absolute timeout.
unfoldable pub until : Timespec → Timespec → Timespec
until now timeout =
    let sec = timeout.tv_sec -ℤ now.tv_sec in
    let nsec = timeout.tv_nsec -ℤ now.tv_nsec in
    if ltb_ℤ nsec (pos 0)
    then clamp (record { tv_sec = sec -ℤ pos 1; tv_nsec = nsec +ℤ pos 1000000000 })
    else clamp (record { tv_sec = sec; tv_nsec = nsec })

-- What a call needs of its task: its address space, the number of its `struct futex_wait`, whether `malloc` succeeds,
-- a first and a second time, and what `mem_ptr`, `user_get` of a timeout and `clock_gettime` give.
pub record Caller : Type 0 where
  pub mem : ℕ
  pub wait : ℕ
  pub room : Bool
  pub room2 : Bool
  pub load : ℕ → Option ℕ
  pub user_get : ℕ → Option (ℕ × ℕ)
  pub clock_gettime : Bool → Timespec

-- A call that has returned, and one that is in `wait_for` with a timeout.
pub data Outcome : Type 0 where
  returned : Table → ℤ → Outcome
  waiting : Table → Option Timespec → Outcome

abbrev pub enqueue : ℕ → ℕ → ℕ → Table → Table
enqueue w p bitset s =
    set_futex p (record (s.futexes p) { queue = (s.futexes p).queue ++ w ∷ [] })
      (record s {
        waits = update s.waits w (record { futex = p; bitset = bitset });
        live = w ∷ s.live;
      })

-- `futex_wait` behind `futex_get`: the value that `futex_load` has read, which is missing if it has failed.
unfoldable pub wait_loaded : ℕ → ℕ → ℕ → Option Timespec → ℕ → Table → Option ℕ → Outcome
wait_loaded w val bitset timeout p s none = returned (futex_put p s) (failure efault)
wait_loaded w val bitset timeout p s (some tmp) =
    if tmp == val
    then waiting (enqueue w p bitset s) timeout
    else returned (futex_put p s) (failure eagain)

unfoldable pub wait_got : Caller → ℕ → ℕ → Option Timespec → Option ℕ × Table → Outcome
wait_got c val bitset timeout (none, s) = returned s (failure enomem)
wait_got c val bitset timeout (some p, s) =
    wait_loaded c.wait val bitset timeout p (assertion ((s.futexes p).mem == c.mem) s)
      (c.load (s.futexes p).addr)

abbrev pub wait_timeout : Option Timespec → Bool → Timespec → Option Timespec
wait_timeout none absolute now = none
wait_timeout (some t) absolute now = if absolute then some (until now t) else some t

unfoldable pub futex_wait : Caller → ℕ → ℕ → Option Timespec → ℕ → Bool → Bool → Table → Outcome
futex_wait c uaddr val timeout bitset absolute realtime s =
    wait_got c val bitset (wait_timeout timeout absolute (c.clock_gettime realtime))
      (futex_get_unlocked c.room c.mem uaddr s)

-- `futex_wait` behind `wait_for`.
unfoldable pub futex_wait_end : ℕ → Table → Table
futex_wait_end w s =
    let p = (s.waits w).futex in
    futex_put p (
      set_futex p (record (s.futexes p) { queue = list_remove w (s.futexes p).queue })
        (record s { live = list_remove w s.live }))

-- Whether two words share one of their lowest `k` bits.
pub overlap : ℕ → ℕ → ℕ → Bool
overlap zero a b = false
overlap (suc k) a b = (a % 2 == 1 && b % 2 == 1) || overlap k (a / 2) (b / 2)

-- The loop that wakes: the waits that stay in the queue, and those that are woken.
unfoldable pub wake_loop : (ℕ → Bool) → ℕ → ℕ → List ℕ → List ℕ × List ℕ
wake_loop matches wake_max woken [] = ([], [])
wake_loop matches wake_max woken (w ∷ ws) =
    let hit = matches w in
    let rest = wake_loop matches wake_max (if hit then suc woken else woken) ws in
    if leb wake_max woken
    then (w ∷ ws, [])
    else if hit
    then (rest.0, w ∷ rest.1)
    else (w ∷ rest.0, rest.1)
