-- ===== src/Kernel/Signal/Tests.antt =====
-- Runs of the calls of kernel/signal.c, and its theorems there.
use codex_for_ipad.Prelude.{
  ℕ, ◌≡◌, refl, Bool, true, false, ◌&&◌, none, some, List, [], ◌∷◌, arith, ◌==◌, if◌then◌else◌,
}
use codex_for_ipad.Prelude.Int.{pos, negsuc}
use codex_for_ipad.Prelude.Errno.{esrch}
use codex_for_ipad.Kernel.Signal.{
  Sigset, no_signals, Siginfo, Sigaction, default_sigaction, Sighand, Cpu, Sigcontext, Stack,
  sigframe, Task, signal_action, default_action, deliver_signal_unlocked, send_signal, unblockable,
  without,
}
use codex_for_ipad.Kernel.Signal.Receive.{
  Host, Received, running, stack_top, frame_sp, act, call_signal_handler, receive_signal,
  receive_loop, remove_signal, effective_mask, receive_signals, retcode, sys_sigreturn,
  sys_rt_sigreturn,
}
use codex_for_ipad.Kernel.Signal.Calls.{do_sigprocmask, sys_rt_sigsuspend}
use codex_for_ipad.Kernel.Signal.Pids.{Ids, Target, Pids, sys_kill}
use codex_for_ipad.Kernel.Signal.Queue.{IsQueued, filter}
use codex_for_ipad.Kernel.Signal.Delivered.{receive_signals-exact, here, sent, Reaches-IsQueued}
use codex_for_ipad.Kernel.Signal.Return.{
  IsPlaced, frame_sp-IsPlaced, restored, sigreturn-receive_signal,
}
use codex_for_ipad.Kernel.Signal.Mask.{masks-unblockable}
use codex_for_ipad.Kernel.Signal.Kill.{SignalsAll, signal_all, sys_kill-signal_all}

abbrev host : Host
host = record {
  xsave_extra = 0;
  fxsave_extra = 0;
  sigreturn = 4096;
  rt_sigreturn = 4112;
  int_gpf = 13;
  writable = λ a. true;
}

abbrev no_flags : ℕ → Bool
no_flags b = false

abbrev cpu : Cpu
cpu = record {
  eax = 1;
  ebx = 2;
  ecx = 3;
  edx = 4;
  edi = 5;
  esi = 6;
  ebp = 7;
  esp = 1048576;
  eip = 8192;
  eflags = no_flags;
  df_offset = 1;
  cf = 1;
  of = 0;
  res = 0;
  op1 = 0;
  op2 = 0;
  pf_res = false;
  zf_res = true;
  sf_res = false;
  af_ops = false;
  trapno = 0;
  segfault_addr = 0;
}

-- SIGUSR2, 12, has a handler, and SIGALRM, 14, one with SA_SIGINFO.
abbrev actions : ℕ → Sigaction
actions s =
    if s == 12
    then record { handler = 16384; flags = 0; restorer = 0; mask = no_signals }
    else if s == 14
    then record { handler = 20480; flags = 4; restorer = 0; mask = no_signals }
    else default_sigaction

abbrev sighand : Sighand
sighand = record { refcount = 1; action = actions; altstack = 0; altstack_size = 0; locked = false }

-- A task that has blocked SIGUSR1, 10.
abbrev task : Task
task = record {
  cpu = cpu;
  sighand = sighand;
  blocked = λ s. s == 10;
  pending = no_signals;
  waiting = no_signals;
  queue = [];
  saved_mask = no_signals;
  has_saved_mask = false;
  zombie = false;
  exiting = false;
  stopped = false;
  group_exit_code = 0;
  frames = [];
  parent_told = false;
}

abbrev info : ℕ → Siginfo
info s = record { sig = s; code = pos 0; words = [] }

task-IsQueued : IsQueued task
task-IsQueued = record { once = λ s. refl }

-- SIGUSR1 and SIGUSR2 have been sent.
two_sent : Task
two_sent = (send_signal false (send_signal false task 10 (info 10)).0 12 (info 12)).0

Reaches-IsQueued_example : IsQueued two_sent
unfolding two_sent
Reaches-IsQueued_example =
    Reaches-IsQueued (sent (sent here false 10 (info 10)) false 12 (info 12)) task-IsQueued

abbrev task_of : Received → Task
task_of (running u) = u
task_of _ = task

two_left : Task
two_left = task_of (receive_signals host two_sent)

receive_signals-exact_example :
    (two_left.queue ≡ filter (effective_mask two_sent) two_sent.queue)
    × ((s : ℕ) → two_left.pending s ≡ (two_sent.pending s && effective_mask two_sent s))
unfolding two_left two_sent send_signal deliver_signal_unlocked signal_action default_action
    receive_signals receive_loop receive_signal act call_signal_handler remove_signal
receive_signals-exact_example =
    receive_signals-exact host two_sent two_left Reaches-IsQueued_example refl

frame_sp-IsPlaced_example :
    IsPlaced host (stack_top sighand 1048576) 732 (frame_sp host sighand 1048576 732)
unfolding stack_top
frame_sp-IsPlaced_example =
    frame_sp-IsPlaced host sighand 1048576 732 (omega arith) (omega arith) (omega arith)

sigreturn-receive_signal_example :
    (t' : Task) × (sp : ℕ) × (sc : Sigcontext) × (high : Sigset) × (receive_signal host
        (info 12)
        task
      ≡ running t')
    × (t'.frames ≡ (sp, sigframe 4096 12 sc high retcode) ∷ [])
    × (t'.cpu.eip ≡ 16384)
    × ((sys_sigreturn (some (sc, high)) task).0.cpu ≡ restored cpu cpu)
    × ((sys_sigreturn (some (sc, high)) task).0.blocked ≡ without task.blocked unblockable)
unfolding signal_action
sigreturn-receive_signal_example = sigreturn-receive_signal host (info 12) task task refl refl refl

-- SIGKILL has been sent behind SIGUSR1.
kill_sent : Task
kill_sent = (send_signal false (send_signal false task 10 (info 10)).0 9 (info 9)).0

abbrev everything : Sigset
everything s = true

abbrev context : Sigcontext
context = record {
  ax = 0;
  bx = 0;
  cx = 0;
  dx = 0;
  di = 0;
  si = 0;
  bp = 0;
  sp = 0;
  sp_at_signal = 0;
  ip = 0;
  flags = no_flags;
  trapno = 0;
  cr2 = 0;
  oldmask = everything;
}

abbrev no_stack : Stack
no_stack = record { stack = 0; onstack = false; disable = true; size = 0 }

masks-unblockable_example :
    ((do_sigprocmask 2 everything task).0.blocked 19 ≡ false)
    × ((sys_rt_sigsuspend (some everything) 8 task).0.blocked 19 ≡ false)
    × ((sys_sigreturn (some (context, everything)) task).0.blocked 19 ≡ false)
    × ((sys_rt_sigreturn (some (no_stack, context, everything)) task).0.blocked 19 ≡ false)
masks-unblockable_example =
    masks-unblockable 2 8 19 everything task context everything no_stack refl refl

abbrev user : ℕ → Ids
user uid = record { uid = uid; euid = uid; suid = uid }

abbrev group : List Target
group =
    record { self = false; ids = user 0; task = task }
    ∷ record { self = false; ids = user 501; task = task }
    ∷ []

abbrev pids : Pids
pids = record {
  pid = 7;
  pgid = 7;
  ids = user 501;
  groups = λ n. if n == 7 then some group else none;
  tasks = λ n.
      if n == 5
      then some (record {
        tgid = 5;
        leader = true;
        target = record { self = false; ids = user 501; task = task };
      })
      else none;
}

sys_kill-signal_all_example :
    SignalsAll pids 15
    × ((its : List Target)
        → pids.groups 7 ≡ some its
        → sys_kill pids (negsuc 6) 15 ≡ signal_all 7 (user 501) 15 its)
    × (pids.groups 7 ≡ none → sys_kill pids (negsuc 6) 15 ≡ ([], some esrch))
sys_kill-signal_all_example = sys_kill-signal_all pids 15 5 (omega arith)
