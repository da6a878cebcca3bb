-- ===== src/Kernel/Signal/Return.antt =====
-- Where the frame of a handler goes, and what a return from the handler restores, of kernel/signal.c.
use codex_for_ipad.Prelude.{
  ℕ, ◌+◌, ◌-◌, ◌*◌, ◌%◌, ◌/◌, ◌^◌, ◌≤◌, ◌<◌, ◌≡◌, refl, ap, true, false, some, ◌∷◌, arith, ◌==◌,
  leb, if◌then◌else◌, inl, inr, ◌⊎◌, Bool-cases,
}
use codex_for_ipad.Kernel.Signal.{
  Sigset, Siginfo, Sighand, Cpu, collapsed, Sigcontext, Stack, sigframe, rt_sigframe, Task,
  call_handler, signal_action, sa_siginfo, unblockable, without,
}
use codex_for_ipad.Kernel.Signal.Receive.{
  Host, running, sub32, stack_top, below_xsave, frame_sp, sigframe_size, rt_sigframe_size, low_mask,
  high_mask, join_masks, setup_sigcontext, setup_sigframe, setup_rt_sigframe, call_signal_handler,
  enter_handler, act, receive_signal, retcode, rt_retcode, use_flags, restore_sigcontext,
  sys_sigreturn, sys_rt_sigreturn,
}

-- A frame of `size` bytes at `sp` under the top of the stack: its fourth byte is aligned, it does not reach over the
-- top, and at most 15 bytes, or what the floating point unit needs and 78 bytes, are left between.
pub record IsPlaced (h : Host) (top size sp : ℕ) : Type 0 where
  pub aligned : (sp + 4) % 16 ≡ 0
  pub below : sp + size ≤ top
  pub near :
      top ≤ sp + size + (if h.xsave_extra == 0 then 15 else h.xsave_extra + h.fxsave_extra + 78)

placed_at :
    (top size sp : ℕ)
    → 4 ≤ size
    → size + 16 ≤ top
    → top < 2 ^ 32
    → sp ≡ sub32 ((sub32 top size + 4) % 2 ^ 32 / 16 * 16) 4
    → ((sp + 4) % 16 ≡ 0) × (sp + size ≤ top) × (top ≤ sp + size + 15)
placed_at top size sp some_size room top_small e =
    let a : sub32 top size ≡ top - size = omega arith in
    let b : (sub32 top size + 4) % 2 ^ 32 ≡ top - size + 4 = omega arith in
    let c : sp + 4 ≡ (top - size + 4) / 16 * 16 = omega (arith, ap (λ x. x / 16 * 16) b) in
    (omega arith, omega arith, omega arith)

-- A frame of a handler, if it has room under the top of the stack, goes right under it, aligned as the ABI asks for:
-- under the end of the alternative stack if there is one and the task is not on it yet, and under the
-- stack pointer otherwise. Addresses are below 2 ^ 32.
pub frame_sp-IsPlaced :
    (h : Host) (sighand : Sighand) (esp size : ℕ)
    → 4 ≤ size
    → size + h.xsave_extra + h.fxsave_extra + 79 ≤ stack_top sighand esp
    → stack_top sighand esp < 2 ^ 32
    → IsPlaced h (stack_top sighand esp) size (frame_sp h sighand esp size)
unfolding frame_sp below_xsave
frame_sp-IsPlaced h sighand esp size some_size room small =
    let top = stack_top sighand esp in
    elim (Bool-cases (h.xsave_extra == 0)) [
      | inl e ↦
          let p = placed_at top size _ some_size (omega arith) small refl in
          rw e (record { aligned = p.0; below = p.1; near = rw e p.2 })
      | inr e ↦
          let x = sub32 (sub32 top h.xsave_extra / 64 * 64) h.fxsave_extra in
          let a : sub32 top h.xsave_extra ≡ top - h.xsave_extra = omega arith in
          let b : x ≡ (top - h.xsave_extra) / 64 * 64 - h.fxsave_extra =
            omega (arith, ap (λ x. x / 64 * 64) a) in
          let p = placed_at x size _ some_size (omega arith) (omega arith) refl in
          rw e
            (record { aligned = p.0; below = omega (arith, p.1); near = rw e (omega (arith, p.2)) })
    ]

-- What a return from a handler makes of the processor, `now`, when the handler was called at `then_cpu`: the registers are
-- again those of then, and the bits of USE_FLAGS in `eflags` are the flags of then, none of which is left to be computed.
-- All else is as it is now, and so are `cf`, `of` and `df_offset`.
abbrev pub restored : Cpu → Cpu → Cpu
restored then_cpu now = record now {
  eax = then_cpu.eax;
  ebx = then_cpu.ebx;
  ecx = then_cpu.ecx;
  edx = then_cpu.edx;
  edi = then_cpu.edi;
  esi = then_cpu.esi;
  ebp = then_cpu.ebp;
  esp = then_cpu.esp;
  eip = then_cpu.eip;
  eflags = λ b. if use_flags b then collapsed then_cpu b else collapsed now b;
  pf_res = false;
  zf_res = false;
  sf_res = false;
  af_ops = false;
}

join_split : (set : Sigset) → join_masks (low_mask set) (high_mask set) ≡ set
join_split set i s = part s (Bool-cases (leb s 32)) i
  where
    part :
        (s : ℕ)
        → ((leb s 32 ≡ true) ⊎ (leb s 32 ≡ false))
        → join_masks (low_mask set) (high_mask set) s ≡ set s
    part s (inl e) = rw e refl
    part s (inr e) = let same : s - 32 + 32 ≡ s = ground arith in rw e (ap set same)

-- A handler without SA_SIGINFO that has been called and then returns, by `sigreturn` of the frame that its call has
-- written: the registers and the signal mask are again what they were, but for SIGKILL and SIGSTOP, which are never blocked,
-- and the word `eflags` has the flags of USE_FLAGS that were set at the call. `cf`, `of` and `df_offset`, which stand for the
-- carry, the overflow and the direction while the task runs, are those of the task at the return, `u`, which may have done
-- anything else in between.
pub sigreturn-receive_signal :
    (h : Host) (info : Siginfo) (t u : Task)
    → signal_action t.sighand info.sig ≡ call_handler
    → sa_siginfo (t.sighand.action info.sig) ≡ false
    → h.writable (frame_sp h t.sighand t.cpu.esp sigframe_size) ≡ true
    → (t' : Task) × (sp : ℕ) × (sc : Sigcontext) × (high : Sigset) × (receive_signal h info t
        ≡ running t')
      × (t'.frames ≡ (sp, sigframe h.sigreturn info.sig sc high retcode) ∷ t.frames)
      × (t'.cpu.eip ≡ (t.sighand.action info.sig).handler)
      × ((sys_sigreturn (some (sc, high)) u).0.cpu ≡ restored t.cpu u.cpu)
      × ((sys_sigreturn (some (sc, high)) u).0.blocked ≡ without t.blocked unblockable)
unfolding receive_signal act call_signal_handler enter_handler setup_sigframe setup_sigcontext
    sys_sigreturn restore_sigcontext
sigreturn-receive_signal h info t u calls plain room =
    rw (calls, plain, room)
      (_, _, _, _, refl, refl, refl, refl, ap (λ m. without m unblockable) (join_split t.blocked))

-- The same for a handler with SA_SIGINFO, which returns by `rt_sigreturn`.
pub rt_sigreturn-receive_signal :
    (h : Host) (info : Siginfo) (t u : Task)
    → signal_action t.sighand info.sig ≡ call_handler
    → sa_siginfo (t.sighand.action info.sig) ≡ true
    → h.writable (frame_sp h t.sighand t.cpu.esp rt_sigframe_size) ≡ true
    → (t' : Task) × (sp pinfo puc : ℕ) × (stack : Stack) × (sc : Sigcontext) × (mask : Sigset)
      × (receive_signal h info t ≡ running t')
      × (t'.frames
          ≡ (sp, rt_sigframe h.rt_sigreturn info.sig pinfo puc info stack sc mask rt_retcode)
            ∷ t.frames)
      × (t'.cpu.eip ≡ (t.sighand.action info.sig).handler)
      × ((sys_rt_sigreturn (some (stack, sc, mask)) u).0.cpu ≡ restored t.cpu u.cpu)
      × ((sys_rt_sigreturn (some (stack, sc, mask)) u).0.blocked ≡ without t.blocked unblockable)
unfolding receive_signal act call_signal_handler enter_handler setup_rt_sigframe setup_sigcontext
    sys_rt_sigreturn restore_sigcontext
rt_sigreturn-receive_signal h info t u calls rt room =
    rw (calls, rt, room) (_, _, _, _, _, _, _, refl, refl, refl, refl, refl)
