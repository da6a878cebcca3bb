-- ===== src/Kernel/Signal/Mask.antt =====
-- What the masks of kernel/signal.c can block, and what the calls on signals refuse.
use codex_for_ipad.Prelude.{ℕ, ◌-◌, ◌^◌, ◌≤◌, ◌<◌, ◌≡◌, refl, true, false, some, [], arith, ltb}
use codex_for_ipad.Prelude.Int.{negsuc}
use codex_for_ipad.Prelude.Errno.{enomem}
use codex_for_ipad.Kernel.Signal.{
  Sigset, Siginfo, Sigaction, Sighand, Sigcontext, Stack, Frame, Task, sigkill, unblockable,
  default_action, signal_action, deliver_signal_unlocked, send_signal,
}
use codex_for_ipad.Kernel.Signal.Receive.{
  Host, running, receive_loop, receive_signals, sys_sigreturn, sys_rt_sigreturn, is_on_altstack,
  minsigstksz, enter_handler, handler_blocked,
}
use codex_for_ipad.Kernel.Signal.Calls.{
  do_sigprocmask, sys_rt_sigsuspend, sigmask_set_temp, sys_rt_sigaction, do_sigaction,
  out_of_bounds, sys_sigaltstack,
}

-- No call that sets the mask, and no return from a handler, lets SIGKILL or SIGSTOP be blocked, whatever mask it is
-- given or finds in the frame.
pub masks-unblockable :
    (how size sig : ℕ) (mask : Sigset) (t : Task) (sc : Sigcontext) (high : Sigset) (stack : Stack)
    → unblockable sig ≡ true
    → t.blocked sig ≡ false
    → ((do_sigprocmask how mask t).0.blocked sig ≡ false)
      × ((sys_rt_sigsuspend (some mask) size t).0.blocked sig ≡ false)
      × ((sys_sigreturn (some (sc, high)) t).0.blocked sig ≡ false)
      × ((sys_rt_sigreturn (some (stack, sc, mask)) t).0.blocked sig ≡ false)
unfolding do_sigprocmask sys_rt_sigsuspend sigmask_set_temp sys_sigreturn sys_rt_sigreturn
masks-unblockable how size sig mask t sc high stack u e =
    (ground (arith, u, e), ground (arith, u, e), ground (arith, u, e), ground (arith, u, e))

-- A bug: the mask of an action is taken as it is, so that a handler whose mask has SIGKILL cannot be killed: a
-- SIGKILL that is sent while it runs stays in the queue, and the task goes on.
pub handler_survives_sigkill :
    (h : Host) (t : Task) (i k : Siginfo) (sp : ℕ) (frame : Frame)
    → (t.sighand.action i.sig).mask sigkill ≡ true
    → t.queue ≡ []
    → t.pending sigkill ≡ false
    → t.has_saved_mask ≡ false
    → t.zombie ≡ false
    → t.exiting ≡ false
    → let u = (send_signal false (enter_handler i sp frame t) sigkill k).0 in
      (v : Task) × (receive_signals h u ≡ running v) × (v.pending sigkill ≡ true)
unfolding send_signal deliver_signal_unlocked receive_signals receive_loop enter_handler
    handler_blocked signal_action default_action
handler_survives_sigkill h t i k sp frame masked idle none_pending unsaved alive staying =
    let action = t.sighand.action i.sig in
    let hit : handler_blocked action i.sig t.blocked sigkill ≡ true = ground (arith, masked) in
    rw (idle, none_pending, unsaved, alive, staying) (rw hit (_, refl, refl))

-- A bug: a signal number from 2 ^ 31 on, which is a negative `int`, passes the test for its bound, and the array of
-- the actions is read and written in front of its start.
pub sigaction_negative :
    (signum : ℕ) (action : Sigaction) (sighand : Sighand)
    → 2 ^ 31 ≤ signum
    → signum < 2 ^ 32
    → sys_rt_sigaction signum (some (some action)) 8 sighand
      ≡ out_of_bounds (negsuc (2 ^ 32 - 1 - signum))
unfolding sys_rt_sigaction do_sigaction
sigaction_negative signum action sighand big small =
    let neg : ltb signum (2 ^ 31) ≡ false = ground arith in rw neg refl

-- A bug: `sigaltstack` with a stack that is too small fails with the lock of the handlers taken.
pub sigaltstack_keeps_lock :
    (t : Task) (stack : Stack)
    → is_on_altstack t.cpu.esp t.sighand ≡ false
    → stack.disable ≡ false
    → stack.size < minsigstksz
    → let r = sys_sigaltstack (some (some stack)) false t in
      (r.1 ≡ some enomem) × (r.0.sighand.locked ≡ true)
unfolding sys_sigaltstack
sigaltstack_keeps_lock t stack off enabled small =
    let test : ltb stack.size minsigstksz ≡ true = ground arith in
    rw (off, enabled, test) (refl, refl)
