-- ===== src/Kernel/Futex/Calls.antt =====
-- kernel/futex.c: waking and requeueing, and the system calls on futexes.
use codex_for_ipad.Prelude.{
  ℕ, zero, suc, ◌+◌, ◌-◌, ◌*◌, ◌%◌, ◌/◌, ◌^◌, Bool, not, ◌&&◌, ◌||◌, Option, none, some, List, [],
  ◌∷◌, ◌++◌, ◌==◌, ltb, if◌then◌else◌, length,
}
use codex_for_ipad.Prelude.Int.{ℤ, pos, negsuc, ltb_ℤ, leb_ℤ}
use codex_for_ipad.Prelude.Errno.{
  Errno, enomem, efault, einval, enosys, eperm, Result, ok, err, failure,
}
use codex_for_ipad.Kernel.Memory.{update, inc, dec}
use codex_for_ipad.Kernel.Futex.{
  Table, set_futex, assertion, list_remove, set_refcount, futex_get_unlocked, futex_put, Timespec,
  zero_time, Caller, Outcome, returned, futex_wait, overlap, wake_loop,
}

-- The entry behind `w` in a list, if `w` is not the last one.
unfoldable pub next_entry : ℕ → List ℕ → Option ℕ
next_entry w [] = none
next_entry w (x ∷ []) = none
next_entry w (x ∷ y ∷ ws) = if x == w then some y else next_entry w (y ∷ ws)

abbrev pub first_entry : List ℕ → Option ℕ
first_entry [] = none
first_entry (w ∷ ws) = some w

abbrev pub set_queue : ℕ → List ℕ → Table → Table
set_queue p q s = set_futex p (record (s.futexes p) { queue = q }) s

-- The body of the loop that requeues a wait from the futex `p` to `p2`.
unfoldable pub requeue_one : ℕ → ℕ → ℕ → Table → Table
requeue_one p p2 w s =
    let s1 = set_queue p (list_remove w (s.futexes p).queue) s in
    let s2 = set_queue p2 ((s1.futexes p2).queue ++ w ∷ []) s1 in
    let s3 = assertion (ltb 1 (s2.futexes p).refcount) s2 in
    let s4 = set_refcount p (dec (s3.futexes p).refcount) s3 in
    let s5 = set_refcount p2 (inc (s4.futexes p2).refcount) s4 in
    record s5 { waits = update s5.waits w (record (s5.waits w) { futex = p2 }) }

-- The loop, which has `k` rounds left and comes to the wait that is given, and the number that it requeues.
unfoldable pub requeue_loop : ℕ → ℕ → ℕ → Option ℕ → Table → Table × ℕ
requeue_loop zero p p2 cursor s = (s, 0)
requeue_loop (suc k) p p2 none s = (s, 0)
requeue_loop (suc k) p p2 (some w) s =
    let tmp = next_entry w (s.futexes p).queue in
    let rest = requeue_loop k p p2 tmp (requeue_one p p2 w s) in (rest.0, suc rest.1)

unfoldable pub requeue_got : ℕ → ℕ → ℕ → Option ℕ × Table → Outcome
requeue_got p requeue_max woken (none, s) = returned (futex_put p s) (failure enomem)
requeue_got p requeue_max woken (some p2, s) =
    let r = requeue_loop requeue_max p p2 (first_entry (s.futexes p).queue) s in
    returned (futex_put p (futex_put p2 r.0)) (pos ((woken + r.1) % 2 ^ 32))

abbrev pub matches : Table → ℕ → ℕ → Bool
matches s bitset w = overlap 32 (s.waits w).bitset bitset

-- The futex's queue is woken: each wait is notified and leaves the queue.
unfoldable pub wake_queue : ℕ → ℕ → ℕ → Table → Table × ℕ
wake_queue p wake_max bitset s =
    let r = wake_loop (matches s bitset) wake_max 0 (s.futexes p).queue in
    (record (set_queue p r.0 s) { notified = r.1 ++ s.notified }, length r.1)

-- FUTEX_REQUEUE_ is 3.
unfoldable pub wakelike_got : Caller → ℕ → ℕ → ℕ → ℕ → ℕ → Option ℕ × Table → Outcome
wakelike_got c op wake_max requeue_max requeue_addr bitset (none, s) = returned s (failure enomem)
wakelike_got c op wake_max requeue_max requeue_addr bitset (some p, s) =
    let r = wake_queue p wake_max bitset s in
    if op == 3
    then requeue_got p requeue_max r.1 (futex_get_unlocked c.room2 c.mem requeue_addr r.0)
    else returned (futex_put p r.0) (pos (r.1 % 2 ^ 32))

unfoldable pub futex_wakelike : Caller → ℕ → ℕ → ℕ → ℕ → ℕ → ℕ → Table → Outcome
futex_wakelike c op uaddr wake_max requeue_max requeue_addr bitset s =
    wakelike_got c op wake_max requeue_max requeue_addr bitset
      (futex_get_unlocked c.room c.mem uaddr s)

-- FUTEX_BITSET_MATCH_ANY_
abbrev pub match_any : ℕ
match_any = 2 ^ 32 - 1

abbrev pub futex_wake : Caller → ℕ → ℕ → Table → Outcome
futex_wake c uaddr wake_max s = futex_wakelike c 1 uaddr wake_max 0 0 match_any s

-- `(int32_t)` of a word.
abbrev pub to_int32 : ℕ → ℤ
to_int32 n = if ltb n (2 ^ 31) then pos n else negsuc (2 ^ 32 - 1 - n)

-- FUTEX_PRIVATE_FLAG_ and FUTEX_CLOCK_REALTIME_, which FUTEX_CMD_MASK_ takes away, are 128 and 256.
abbrev pub command : ℕ → ℕ
command op = op - op / 128 % 2 * 128 - op / 256 % 2 * 256

abbrev pub clock_realtime : ℕ → Bool
clock_realtime op = op / 256 % 2 == 1

-- FUTEX_WAIT_ and FUTEX_WAIT_BITSET_
abbrev pub is_wait : ℕ → Bool
is_wait cmd = cmd == 0 || cmd == 9

-- FUTEX_WAKE_ and FUTEX_WAKE_BITSET_
abbrev pub is_wake : ℕ → Bool
is_wake cmd = cmd == 1 || cmd == 10

unfoldable pub check_timeout : Option (ℕ × ℕ) → Result Timespec
check_timeout none = err efault
check_timeout (some (sec, nsec)) =
    let t : Timespec = record { tv_sec = to_int32 sec; tv_nsec = to_int32 nsec } in
    if ltb_ℤ t.tv_sec (pos 0) || ltb_ℤ t.tv_nsec (pos 0) || leb_ℤ (pos 1000000000) t.tv_nsec
    then err einval
    else ok t

unfoldable pub read_timeout : Caller → ℕ → ℕ → Result Timespec
read_timeout c cmd addr =
    if is_wait cmd && not (addr == 0) then check_timeout (c.user_get addr) else ok zero_time

-- The `switch` of `sys_futex`.
unfoldable pub futex_switch : Caller → ℕ → ℕ → ℕ → ℕ → ℕ → ℕ → Table → Result Timespec → Outcome
futex_switch c uaddr op val timeout_or_val2 uaddr2 val3 s (err e) = returned s (failure e)
futex_switch c uaddr op val timeout_or_val2 uaddr2 val3 s (ok t) =
    let cmd = command op in
    if is_wait cmd
    then futex_wait c uaddr val (if timeout_or_val2 == 0 then none else some t)
        (if cmd == 9 then val3 else match_any) (cmd == 9) (clock_realtime op) s
    else if is_wake cmd
    then futex_wakelike c cmd uaddr val 0 0 (if cmd == 10 then val3 else match_any) s
    else if cmd == 3
    then futex_wakelike c cmd uaddr val timeout_or_val2 uaddr2 match_any s
    else returned s (failure enosys)

unfoldable pub sys_futex : Caller → ℕ → ℕ → ℕ → ℕ → ℕ → ℕ → Table → Outcome
sys_futex c uaddr op val timeout_or_val2 uaddr2 val3 s =
    let cmd = command op in
    if not (uaddr % 4 == 0)
    then returned s (failure einval)
    else if clock_realtime op && not (cmd == 9)
    then returned s (failure enosys)
    else if (cmd == 9 || cmd == 10) && val3 == 0
    then returned s (failure einval)
    else futex_switch c uaddr op val timeout_or_val2 uaddr2 val3 s
        (read_timeout c cmd timeout_or_val2)

-- `sizeof(struct robust_list_head_)`
abbrev pub robust_list_size : ℕ
robust_list_size = 12

-- The task's robust list and how the call ends.
pub sys_set_robust_list : ℕ → ℕ → ℕ → ℕ × Option Errno
sys_set_robust_list robust_list len old =
    if len == robust_list_size then (robust_list, none) else (old, some einval)

-- What is written to the caller's memory, where `writable` lets it. `own` tells whether the pid is the caller's.
pub sys_get_robust_list : (ℕ → Bool) → Bool → ℕ → ℕ → ℕ → List (ℕ × ℕ) × Option Errno
sys_get_robust_list writable own robust_list_ptr len_ptr robust_list =
    if not own
    then ([], some eperm)
    else if not (writable robust_list_ptr)
    then ([], some efault)
    else if not (writable len_ptr)
    then ((robust_list_ptr, robust_list) ∷ [], some efault)
    else ((robust_list_ptr, robust_list) ∷ (len_ptr, robust_list_size) ∷ [], none)
