-- ===== src/Kernel/Signal/Calls.antt =====
-- kernel/signal.c: the system calls on signals. What `user_get` reads and whether `user_put` succeeds are arguments; a
-- pointer that is null is a missing argument.
use codex_for_ipad.Prelude.{
  ℕ, ◌-◌, ◌^◌, Bool, true, false, not, ◌&&◌, Option, none, some, List, [], ◌∷◌, ◌==◌, ltb, leb,
  if◌then◌else◌,
}
use codex_for_ipad.Prelude.Int.{ℤ, pos, negsuc}
use codex_for_ipad.Prelude.Errno.{
  Errno, eperm, eintr, eagain, enomem, efault, einval, Result, ok, err,
}
use codex_for_ipad.Kernel.Memory.{update, dec}
use codex_for_ipad.Kernel.Signal.{
  Sigset, no_signals, union, without, num_sigs, signal_is_blockable, Siginfo, Sigaction,
  default_sigaction, Sighand, Stack, Task, sigmask_set,
}
use codex_for_ipad.Kernel.Signal.Receive.{is_on_altstack, remove_signal, minsigstksz}

abbrev pub new_sighand : Sighand
new_sighand = record {
  refcount = 1;
  action = λ sig. default_sigaction;
  altstack = 0;
  altstack_size = 0;
  locked = false;
}

-- `room` tells whether `malloc` succeeds.
unfoldable pub sighand_new : Bool → Option Sighand
sighand_new room = if room then some new_sighand else none

unfoldable pub sighand_copy : Bool → Sighand → Option Sighand
sighand_copy room sighand =
    if room then some (record new_sighand { action = sighand.action }) else none

-- Nothing is left once the last reference is gone.
unfoldable pub sighand_release : Sighand → Option Sighand
sighand_release sighand =
    let n = dec sighand.refcount in if n == 0 then none else some (record sighand { refcount = n })

-- How `do_sigaction` ends: an error; the handlers and the old action; or an access in front of the array `action`.
pub data Actions : Type 0 where
  refused : Errno → Actions
  acted : Sighand → Sigaction → Actions
  out_of_bounds : ℤ → Actions

abbrev pub set_action : ℕ → Option Sigaction → Sighand → Sighand
set_action sig none sighand = sighand
set_action sig (some a) sighand = record sighand { action = update sighand.action sig a }

-- `sig` is an `int`, and NUM_SIGS one as well.
unfoldable pub do_sigaction : ℤ → Option Sigaction → Sighand → Actions
do_sigaction (negsuc n) action sighand = out_of_bounds (negsuc n)
do_sigaction (pos sig) action sighand =
    if leb num_sigs sig
    then refused einval
    else if not (signal_is_blockable sig)
    then refused einval
    else acted (set_action sig action sighand) (sighand.action sig)

-- `(int) signum`
abbrev pub to_int : ℕ → ℤ
to_int n = if ltb n (2 ^ 31) then pos n else negsuc (2 ^ 32 - 1 - n)

-- `action` is missing for a null pointer, and `some none` if it cannot be read.
unfoldable pub sys_rt_sigaction : ℕ → Option (Option Sigaction) → ℕ → Sighand → Actions
sys_rt_sigaction signum none sigset_size sighand =
    if not (sigset_size == 8) then refused einval else do_sigaction (to_int signum) none sighand
sys_rt_sigaction signum (some none) sigset_size sighand =
    if not (sigset_size == 8) then refused einval else refused efault
sys_rt_sigaction signum (some (some a)) sigset_size sighand =
    if not (sigset_size == 8) then refused einval else do_sigaction (to_int signum) (some a) sighand

unfoldable pub sys_sigaction : ℕ → Option (Option Sigaction) → Sighand → Actions
sys_sigaction signum action sighand = sys_rt_sigaction signum action 1 sighand

unfoldable pub sigmask_set_temp : Sigset → Task → Task
sigmask_set_temp mask t =
    sigmask_set mask (record t { saved_mask = t.blocked; has_saved_mask = true })

-- SIG_BLOCK_, SIG_UNBLOCK_ and SIG_SETMASK_
unfoldable pub do_sigprocmask : ℕ → Sigset → Task → Task × Option Errno
do_sigprocmask how set t =
    if how == 0
    then (sigmask_set (union t.blocked set) t, none)
    else if how == 1
    then (sigmask_set (without t.blocked set) t, none)
    else if how == 2
    then (sigmask_set set t, none)
    else (t, some einval)

-- The old mask is written first, if it is asked for, so that `old` tells whether that fails.
unfoldable pub sys_rt_sigprocmask :
    ℕ → Option (Option Sigset) → Bool → ℕ → Task → Task × Option Errno
sys_rt_sigprocmask how none old size t =
    if not (size == 8) then (t, some einval) else if old then (t, some efault) else (t, none)
sys_rt_sigprocmask how (some none) old size t =
    if not (size == 8) then (t, some einval) else (t, some efault)
sys_rt_sigprocmask how (some (some set)) old size t =
    if not (size == 8)
    then (t, some einval)
    else if old
    then (t, some efault)
    else do_sigprocmask how set t

-- What is written.
unfoldable pub sys_rt_sigpending : Task → Sigset
sys_rt_sigpending t s = t.pending s && t.blocked s

abbrev pub set_altstack : Stack → Sighand → Sighand × Option Errno
set_altstack ss sighand =
    if ss.disable
    then (record sighand { altstack = 0 }, none)
    else if ltb ss.size minsigstksz
    then (record sighand { locked = true }, some enomem)
    else (record sighand { altstack = ss.stack; altstack_size = ss.size }, none)

-- `old` tells whether the old stack is to be written and that fails; the lock is taken and, on most ways out, given
-- back.
unfoldable pub sys_sigaltstack : Option (Option Stack) → Bool → Task → Task × Option Errno
sys_sigaltstack none old t = if old then (t, some efault) else (t, none)
sys_sigaltstack (some ss) old t =
    if old
    then (t, some efault)
    else if is_on_altstack t.cpu.esp t.sighand
    then (t, some eperm)
    else elim ss [
      | none ↦ (t, some efault)
      | some stack ↦ let r = set_altstack stack t.sighand in (record t { sighand = r.0 }, r.1)
    ]

-- `sys_rt_sigsuspend` up to its wait, which ends with an interruption.
unfoldable pub sys_rt_sigsuspend : Option Sigset → ℕ → Task → Task × Errno
sys_rt_sigsuspend none size t = if not (size == 8) then (t, einval) else (t, efault)
sys_rt_sigsuspend (some mask) size t =
    if not (size == 8) then (t, einval) else (sigmask_set_temp mask t, eintr)

-- `sys_rt_sigtimedwait` up to its wait.
unfoldable pub sigtimedwait_begin : Sigset → Task → Task
sigtimedwait_begin set t = record t { waiting = set }

-- The first entry of the queue whose signal is in the set.
unfoldable pub find_signal : Sigset → List Siginfo → Option Siginfo
find_signal set [] = none
find_signal set (i ∷ q) = if set i.sig then some i else find_signal set q

abbrev pub take_signal : Option Siginfo → Task → Task × Result Siginfo
take_signal none t = (t, err eintr)
take_signal (some i) t = (record t { queue = remove_signal i.sig t.queue }, ok i)

-- The rest of it, behind the wait, which has timed out or has been interrupted.
unfoldable pub sigtimedwait_end : Sigset → Bool → Task → Task × Result Siginfo
sigtimedwait_end set timed_out t =
    let t' = record t { waiting = no_signals } in
    if timed_out then (t', err eagain) else take_signal (find_signal set t.queue) t'
