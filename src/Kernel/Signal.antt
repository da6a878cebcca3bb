-- ===== src/Kernel/Signal.antt =====
-- kernel/signal.c and kernel/signal.h: the signals of a task that is not traced. Sets of signals are given by their
-- bits, and `sig` is the signal itself; memory that a task writes is what it writes there, by address.
pub mod Receive
pub mod Calls
pub mod Pids
pub mod Queue
pub mod Delivered
pub mod Return
pub mod Mask
pub mod Kill
mod Tests
use codex_for_ipad.Prelude.{
  ℕ, zero, suc, ◌+◌, ◌-◌, ◌*◌, ◌%◌, ◌/◌, ◌^◌, Bool, true, false, not, ◌&&◌, ◌||◌, Option, none,
  some, List, [], ◌∷◌, ◌++◌, ◌==◌, ltb, leb, if◌then◌else◌,
}
use codex_for_ipad.Prelude.Int.{ℤ, pos}
use codex_for_ipad.Kernel.Memory.{update}

-- `sigset_t_`, a word of 64 bits
abbrev pub Sigset : Type 0
Sigset = ℕ → Bool

abbrev pub no_signals : Sigset
no_signals s = false

abbrev pub sigset_add : Sigset → ℕ → Sigset
sigset_add set sig = update set sig true

abbrev pub sigset_del : Sigset → ℕ → Sigset
sigset_del set sig = update set sig false

abbrev pub union : Sigset → Sigset → Sigset
union a b s = a s || b s

abbrev pub without : Sigset → Sigset → Sigset
without a b s = a s && not (b s)

abbrev pub num_sigs : ℕ
num_sigs = 64

abbrev pub sigkill : ℕ
sigkill = 9

abbrev pub sigcont : ℕ
sigcont = 18

abbrev pub sigstop : ℕ
sigstop = 19

abbrev pub signal_is_blockable : ℕ → Bool
signal_is_blockable sig = not (sig == sigkill) && not (sig == sigstop)

-- UNBLOCKABLE_MASK
abbrev pub unblockable : Sigset
unblockable sig = sig == sigkill || sig == sigstop

-- `struct siginfo_`, with the words of its union.
pub record Siginfo : Type 0 where
  pub sig : ℕ
  pub code : ℤ
  pub words : List ℕ

-- SIGINFO_NIL
abbrev pub siginfo_nil : Siginfo
siginfo_nil = record { sig = 0; code = pos 128; words = [] }

-- `struct sigaction_`
pub record Sigaction : Type 0 where
  pub handler : ℕ
  pub flags : ℕ
  pub restorer : ℕ
  pub mask : Sigset

-- SIG_DFL_ is 0.
abbrev pub default_sigaction : Sigaction
default_sigaction = record { handler = 0; flags = 0; restorer = 0; mask = no_signals }

-- SA_SIGINFO_, SA_NODEFER_ and SA_RESETHAND_
abbrev pub sa_siginfo : Sigaction → Bool
sa_siginfo a = a.flags / 4 % 2 == 1

abbrev pub sa_nodefer : Sigaction → Bool
sa_nodefer a = a.flags / 2 ^ 30 % 2 == 1

abbrev pub sa_resethand : Sigaction → Bool
sa_resethand a = a.flags / 2 ^ 31 % 2 == 1

-- `struct sighand`; `locked` tells whether a call has left its lock taken.
pub record Sighand : Type 0 where
  pub refcount : ℕ
  pub action : ℕ → Sigaction
  pub altstack : ℕ
  pub altstack_size : ℕ
  pub locked : Bool

-- The registers of `struct cpu_state`, `eflags` by its bits, and what stands for some of them: `df_offset`, the bytes `cf` and `of`, and
-- the result and the operands of an operation, from which a flag is computed while its `_res` or `_ops` is set.
pub record Cpu : Type 0 where
  pub eax : ℕ
  pub ebx : ℕ
  pub ecx : ℕ
  pub edx : ℕ
  pub edi : ℕ
  pub esi : ℕ
  pub ebp : ℕ
  pub esp : ℕ
  pub eip : ℕ
  pub eflags : ℕ → Bool
  pub df_offset : ℕ
  pub cf : ℕ
  pub of : ℕ
  pub res : ℕ
  pub op1 : ℕ
  pub op2 : ℕ
  pub pf_res : Bool
  pub zf_res : Bool
  pub sf_res : Bool
  pub af_ops : Bool
  pub trapno : ℕ
  pub segfault_addr : ℕ

abbrev pub bit : ℕ → ℕ → Bool
bit k n = n / 2 ^ k % 2 == 1

-- Whether the low byte has an even number of bits.
abbrev pub even_parity : ℕ → Bool
even_parity n =
    (n % 2 + n / 2 % 2 + n / 4 % 2 + n / 8 % 2 + n / 16 % 2 + n / 32 % 2 + n / 64 % 2 + n / 128 % 2)
      % 2
    == 0

-- ZF, SF, PF and AF
abbrev pub flag_zf : Cpu → Bool
flag_zf cpu = if cpu.zf_res then cpu.res == 0 else cpu.eflags 6

abbrev pub flag_sf : Cpu → Bool
flag_sf cpu = if cpu.sf_res then leb (2 ^ 31) cpu.res else cpu.eflags 7

abbrev pub flag_pf : Cpu → Bool
flag_pf cpu = if cpu.pf_res then even_parity cpu.res else cpu.eflags 2

-- The fourth bit of `op1 ^ op2 ^ res`
abbrev pub flag_af : Cpu → Bool
flag_af cpu =
    if cpu.af_ops then (cpu.op1 / 16 + cpu.op2 / 16 + cpu.res / 16) % 2 == 1 else cpu.eflags 4

abbrev pub collapsed : Cpu → ℕ → Bool
collapsed cpu b =
    if b == 0
    then bit 0 cpu.cf
    else if b == 1
    then true
    else if b == 2
    then flag_pf cpu
    else if b == 3
    then false
    else if b == 4
    then flag_af cpu
    else if b == 5
    then false
    else if b == 6
    then flag_zf cpu
    else if b == 7
    then flag_sf cpu
    else if b == 9
    then true
    else if b == 11
    then bit 0 cpu.of
    else cpu.eflags b

abbrev pub collapse_flags : Cpu → Cpu
collapse_flags cpu = record cpu {
  eflags = collapsed cpu;
  pf_res = false;
  zf_res = false;
  sf_res = false;
  af_ops = false;
}

-- `struct sigcontext_`, with the low word of the mask, and the flags by their bits.
pub record Sigcontext : Type 0 where
  pub ax : ℕ
  pub bx : ℕ
  pub cx : ℕ
  pub dx : ℕ
  pub di : ℕ
  pub si : ℕ
  pub bp : ℕ
  pub sp : ℕ
  pub sp_at_signal : ℕ
  pub ip : ℕ
  pub flags : ℕ → Bool
  pub trapno : ℕ
  pub cr2 : ℕ
  pub oldmask : Sigset

-- `struct stack_t_`; the flags are SS_ONSTACK_ and SS_DISABLE_.
pub record Stack : Type 0 where
  pub stack : ℕ
  pub onstack : Bool
  pub disable : Bool
  pub size : ℕ

-- `struct sigframe_` and `struct rt_sigframe_`, with the code that a handler without a restorer returns to.
pub data Frame : Type 0 where
  sigframe : (restorer sig : ℕ) (sc : Sigcontext) (extramask : Sigset) (retcode : List ℕ) → Frame
  rt_sigframe :
      (restorer sig pinfo puc : ℕ) (info : Siginfo) (stack : Stack) (mcontext : Sigcontext)
      (sigmask : Sigset) (retcode : List ℕ)
      → Frame

-- The parts of `struct task` and its group that signals change, the frames that have been written to its memory, by
-- address, and whether its parent has been told that it has stopped.
pub record Task : Type 0 where
  pub cpu : Cpu
  pub sighand : Sighand
  pub blocked : Sigset
  pub pending : Sigset
  pub waiting : Sigset
  pub queue : List Siginfo
  pub saved_mask : Sigset
  pub has_saved_mask : Bool
  pub zombie : Bool
  pub exiting : Bool
  pub stopped : Bool
  pub group_exit_code : ℕ
  pub frames : List (ℕ × Frame)
  pub parent_told : Bool

-- SIGNAL_IGNORE, SIGNAL_KILL, SIGNAL_CALL_HANDLER and SIGNAL_STOP
pub data Action : Type 0 where
  ignore kill call_handler stop : Action

-- SIGURG_, SIGCONT_, SIGCHLD_, SIGIO_ and SIGWINCH_; SIGSTOP_, SIGTSTP_, SIGTTIN_ and SIGTTOU_
unfoldable pub default_action : ℕ → Action
default_action sig =
    if sig == 23 || sig == sigcont || sig == 17 || sig == 29 || sig == 28
    then ignore
    else if sig == sigstop || sig == 20 || sig == 21 || sig == 22
    then stop
    else kill

-- SIG_IGN_ is 1.
unfoldable pub signal_action : Sighand → ℕ → Action
signal_action sighand sig =
    let handler = (sighand.action sig).handler in
    if signal_is_blockable sig && handler == 1
    then ignore
    else if signal_is_blockable sig && not (handler == 0)
    then call_handler
    else default_action sig

abbrev pub is_ignore : Action → Bool
is_ignore ignore = true
is_ignore _ = false

abbrev pub pend : ℕ → Siginfo → Task → Task
pend sig info t = record t {
  pending = sigset_add t.pending sig;
  queue = t.queue ++ record info { sig = sig } ∷ [];
}

-- The task, and whether it is interrupted and its waiters woken; `self` tells whether it is the current one.
unfoldable pub deliver_signal_unlocked : Bool → Task → ℕ → Siginfo → Task × Bool
deliver_signal_unlocked self t sig info = if t.pending sig then (t, false) else (
  pend sig info t,
  not (t.blocked sig && not (t.waiting sig) && signal_is_blockable sig) && not self,
)

abbrev pub continue_group : ℕ → Task → Task
continue_group sig t = record t {
  stopped = if sig == sigcont || sig == sigkill then false else t.stopped;
}

unfoldable pub send_signal : Bool → Task → ℕ → Siginfo → Task × Bool
send_signal self t sig info =
    let (t', kick) =
      if is_ignore (signal_action t.sighand sig)
      then (t, false)
      else deliver_signal_unlocked self t sig info in
    if sig == 0
    then (t, false)
    else if t.zombie || t.exiting
    then (t, false)
    else (continue_group sig t', kick)

-- The task, and whether the signal has been sent; it is SIGTTIN_ or SIGTTOU_.
unfoldable pub try_self_signal : Task → ℕ → Task × Bool
try_self_signal t sig =
    if not (is_ignore (signal_action t.sighand sig)) && not (t.blocked sig)
    then ((deliver_signal_unlocked true t sig siginfo_nil).0, true)
    else (t, false)

-- The signal mask, from which the signals that cannot be blocked are taken.
abbrev pub sigmask_set : Sigset → Task → Task
sigmask_set set t = record t { blocked = without set unblockable }
