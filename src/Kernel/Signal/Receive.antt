-- ===== src/Kernel/Signal/Receive.antt =====
-- kernel/signal.c: the frame of a handler, receiving signals, and returning from handlers.
use codex_for_ipad.Prelude.{
  ℕ, ◌+◌, ◌-◌, ◌*◌, ◌%◌, ◌/◌, ◌^◌, Bool, true, false, not, ◌&&◌, ◌||◌, Option, none, some, List, [],
  ◌∷◌, ◌==◌, ltb, leb, if◌then◌else◌,
}
use codex_for_ipad.Prelude.Errno.{efault, Result, ok, err}
use codex_for_ipad.Kernel.Memory.{update}
use codex_for_ipad.Kernel.Signal.{
  Sigset, sigset_add, sigset_del, union, Siginfo, siginfo_nil, Sigaction, default_sigaction,
  sa_siginfo, sa_nodefer, sa_resethand, Sighand, Cpu, collapse_flags, Sigcontext, Stack, Frame,
  sigframe, rt_sigframe, Task, Action, ignore, kill, call_handler, stop, signal_action,
  deliver_signal_unlocked, sigmask_set,
}

-- `xsave_extra` and `fxsave_extra`, the addresses of `sigreturn_trampoline` for `__kernel_sigreturn` and
-- `__kernel_rt_sigreturn`, INT_GPF, and where `user_write` of a frame succeeds.
pub record Host : Type 0 where
  pub xsave_extra : ℕ
  pub fxsave_extra : ℕ
  pub sigreturn : ℕ
  pub rt_sigreturn : ℕ
  pub int_gpf : ℕ
  pub writable : ℕ → Bool

-- A difference of `dword_t`.
abbrev pub sub32 : ℕ → ℕ → ℕ
sub32 a b = (a + (2 ^ 32 - b)) % 2 ^ 32

abbrev pub altstack_end : Sighand → ℕ
altstack_end sighand = (sighand.altstack + sighand.altstack_size) % 2 ^ 32

unfoldable pub is_on_altstack : ℕ → Sighand → Bool
is_on_altstack sp sighand = ltb sighand.altstack sp && leb sp (altstack_end sighand)

unfoldable pub altstack_to_user : ℕ → Sighand → Stack
altstack_to_user esp sighand = record {
  stack = sighand.altstack;
  onstack = is_on_altstack esp sighand;
  disable = sighand.altstack == 0;
  size = sighand.altstack_size;
}

-- The low and the high word of a mask.
abbrev pub low_mask : Sigset → Sigset
low_mask set sig = leb sig 32 && set sig

abbrev pub high_mask : Sigset → Sigset
high_mask set sig = set (sig + 32)

-- The flags of the task are collapsed too, in `enter_handler`. `cr2` keeps what the zeroed frame has unless the last trap was a fault.
unfoldable pub setup_sigcontext : Host → Task → Sigcontext
setup_sigcontext h t = record {
  ax = t.cpu.eax;
  bx = t.cpu.ebx;
  cx = t.cpu.ecx;
  dx = t.cpu.edx;
  di = t.cpu.edi;
  si = t.cpu.esi;
  bp = t.cpu.ebp;
  sp = t.cpu.esp;
  sp_at_signal = t.cpu.esp;
  ip = t.cpu.eip;
  flags = (collapse_flags t.cpu).eflags;
  trapno = t.cpu.trapno;
  cr2 = if t.cpu.trapno == h.int_gpf then t.cpu.segfault_addr else 0;
  oldmask = low_mask t.blocked;
}

abbrev pub retcode : List ℕ
retcode = 88 ∷ 184 ∷ 113 ∷ 0 ∷ 0 ∷ 0 ∷ 205 ∷ 128 ∷ []

abbrev pub rt_retcode : List ℕ
rt_retcode = 184 ∷ 173 ∷ 0 ∷ 0 ∷ 0 ∷ 205 ∷ 128 ∷ 0 ∷ []

unfoldable pub setup_sigframe : Host → Siginfo → Task → Frame
setup_sigframe h info t =
    sigframe h.sigreturn info.sig (setup_sigcontext h t) (high_mask t.blocked) retcode

-- `sizeof` of the frames, and `offsetof` of `info` and `uc`.
abbrev pub sigframe_size : ℕ
sigframe_size = 732

abbrev pub rt_sigframe_size : ℕ
rt_sigframe_size = 268

abbrev pub info_offset : ℕ
info_offset = 16

abbrev pub uc_offset : ℕ
uc_offset = 144

-- `pinfo` and `puc` are filled in when the place of the frame, `sp`, is known.
unfoldable pub setup_rt_sigframe : Host → Siginfo → ℕ → Task → Frame
setup_rt_sigframe h info sp t =
    rt_sigframe h.rt_sigreturn info.sig ((sp + info_offset) % 2 ^ 32) ((sp + uc_offset) % 2 ^ 32)
      info (altstack_to_user t.cpu.esp t.sighand) (setup_sigcontext h t) t.blocked rt_retcode

-- The stack that the handler runs on.
unfoldable pub stack_top : Sighand → ℕ → ℕ
stack_top sighand esp =
    if not (sighand.altstack == 0) && not (is_on_altstack esp sighand)
    then altstack_end sighand
    else esp

-- Room for the state of the floating point unit.
unfoldable pub below_xsave : Host → ℕ → ℕ
below_xsave h sp =
    if h.xsave_extra == 0 then sp else sub32 (sub32 sp h.xsave_extra / 64 * 64) h.fxsave_extra

-- Where a frame of `size` bytes goes.
unfoldable pub frame_sp : Host → Sighand → ℕ → ℕ → ℕ
frame_sp h sighand esp size =
    sub32 ((sub32 (below_xsave h (stack_top sighand esp)) size + 4) % 2 ^ 32 / 16 * 16) 4

unfoldable pub handler_blocked : Sigaction → ℕ → Sigset → Sigset
handler_blocked action sig blocked =
    union (if sa_nodefer action then blocked else sigset_add blocked sig) action.mask

abbrev pub reset_action : Sigaction → ℕ → Sighand → Sighand
reset_action action sig sighand =
    if sa_resethand action
    then record sighand { action = update sighand.action sig default_sigaction }
    else sighand

-- The call of a handler, once its frame has been written at `sp`; writing it has collapsed the flags.
unfoldable pub enter_handler : Siginfo → ℕ → Frame → Task → Task
enter_handler info sp frame t =
    let action = t.sighand.action info.sig in
    let rt = sa_siginfo action in
    record t {
      cpu = record (collapse_flags t.cpu) {
        eax = info.sig;
        eip = action.handler;
        esp = sp;
        edx = if rt then (sp + info_offset) % 2 ^ 32 else t.cpu.edx;
        ecx = if rt then (sp + uc_offset) % 2 ^ 32 else t.cpu.ecx;
      };
      blocked = handler_blocked action info.sig t.blocked;
      frames = (sp, frame) ∷ t.frames;
      sighand = reset_action action info.sig t.sighand;
    }

-- A task that goes on; one whose group exits by a signal; and one that waits for a lock that it holds, `sighand->lock`,
-- in `deliver_signal`.
pub data Received : Type 0 where
  running : Task → Received
  killed : ℕ → Received
  deadlocked : Received

unfoldable pub call_signal_handler : Host → Siginfo → Task → Received
call_signal_handler h info t =
    let rt = sa_siginfo (t.sighand.action info.sig) in
    let sp = frame_sp h t.sighand t.cpu.esp (if rt then rt_sigframe_size else sigframe_size) in
    let frame = if rt then setup_rt_sigframe h info sp t else setup_sigframe h info t in
    if h.writable sp then running (enter_handler info sp frame t) else deadlocked

unfoldable pub act : Host → Siginfo → Task → Action → Received
act h info t ignore = running t
act h info t stop = running (record t { stopped = true; group_exit_code = info.sig * 256 + 127 })
act h info t kill = killed info.sig
act h info t call_handler = call_signal_handler h info t

unfoldable pub receive_signal : Host → Siginfo → Task → Received
receive_signal h info t = act h info t (signal_action t.sighand info.sig)

-- The entry of a signal leaves the queue.
unfoldable pub remove_signal : ℕ → List Siginfo → List Siginfo
remove_signal sig [] = []
remove_signal sig (i ∷ q) = if i.sig == sig then q else i ∷ remove_signal sig q

abbrev pub dequeue : ℕ → Task → Task
dequeue sig t = record t { queue = remove_signal sig t.queue; pending = sigset_del t.pending sig }

abbrev pub and_then : Received → (Task → Received) → Received
and_then (running t) f = f t
and_then (killed sig) f = killed sig
and_then deadlocked f = deadlocked

-- The loop over the queue as it was at its start.
unfoldable pub receive_loop : Host → Sigset → List Siginfo → Task → Received
receive_loop h blocked [] t = running t
receive_loop h blocked (info ∷ q) t =
    let rest = receive_loop h blocked q in
    if blocked info.sig then rest t else and_then (receive_signal h info (dequeue info.sig t)) rest

-- The mask that counts, and the task with the mask that was saved.
abbrev pub effective_mask : Task → Sigset
effective_mask t s = t.blocked s && (not t.has_saved_mask || t.saved_mask s)

abbrev pub restore_mask : Task → Task
restore_mask t = record t {
  blocked = if t.has_saved_mask then t.saved_mask else t.blocked;
  has_saved_mask = false;
}

abbrev pub tell_parent : Bool → Task → Task
tell_parent was_stopped t = record t {
  parent_told = t.parent_told || (not was_stopped && t.stopped);
}

unfoldable pub receive_signals : Host → Task → Received
receive_signals h t =
    and_then (receive_loop h (effective_mask t) t.queue (restore_mask t))
      (λ t'. running (tell_parent t.stopped t'))

-- USE_FLAGS: the bits 0, 2, 4, 6 to 8, 10, 11, 16 and 18.
abbrev pub use_flags : ℕ → Bool
use_flags b =
    b == 0
    || b == 2
    || b == 4
    || b == 6
    || b == 7
    || b == 8
    || b == 10
    || b == 11
    || b == 16
    || b == 18

-- `cf`, `of` and `df_offset` are left as they are.
unfoldable pub restore_sigcontext : Sigcontext → Cpu → Cpu
restore_sigcontext sc cpu = record (collapse_flags cpu) {
  eax = sc.ax;
  ebx = sc.bx;
  ecx = sc.cx;
  edx = sc.dx;
  edi = sc.di;
  esi = sc.si;
  ebp = sc.bp;
  esp = sc.sp;
  eip = sc.ip;
  eflags = λ b. if use_flags b then sc.flags b else (collapse_flags cpu).eflags b;
}

-- `SIGSEGV_`
abbrev pub sigsegv : ℕ
sigsegv = 11

-- MINSIGSTKSZ_
abbrev pub minsigstksz : ℕ
minsigstksz = 2048

abbrev pub join_masks : Sigset → Sigset → Sigset
join_masks low high s = if leb s 32 then low s else high (s - 32)

-- A return fails if `user_get` cannot read the frame.
abbrev pub bad_return : Task → Task × Result ℕ
bad_return t = ((deliver_signal_unlocked true t sigsegv siginfo_nil).0, err efault)

-- What `user_get` reads as the frame below the stack pointer is an argument.
unfoldable pub sys_sigreturn : Option (Sigcontext × Sigset) → Task → Task × Result ℕ
sys_sigreturn none t = bad_return t
sys_sigreturn (some (sc, extramask)) t =
    let cpu = restore_sigcontext sc t.cpu in
    (sigmask_set (join_masks sc.oldmask extramask) (record t { cpu = cpu }), ok cpu.eax)

abbrev pub restore_altstack : ℕ → Stack → Sighand → Sighand
restore_altstack esp stack sighand =
    if not (is_on_altstack esp sighand) && leb minsigstksz stack.size
    then record sighand { altstack = stack.stack; altstack_size = stack.size }
    else sighand

unfoldable pub sys_rt_sigreturn : Option (Stack × Sigcontext × Sigset) → Task → Task × Result ℕ
sys_rt_sigreturn none t = bad_return t
sys_rt_sigreturn (some (stack, sc, sigmask)) t =
    let cpu = restore_sigcontext sc t.cpu in
    (
      sigmask_set sigmask
          (record t { cpu = cpu; sighand = restore_altstack cpu.esp stack t.sighand }),
      ok cpu.eax,
    )
