-- ===== src/Kernel/Signal/Delivered.antt =====
-- Which signals of kernel/signal.c are received, and which stay.
use codex_for_ipad.Prelude.{
  ℕ, ◌≤◌, ◌≡◌, refl, ◌∙◌, ap, Bool, true, false, ◌&&◌, ◌||◌, Option, none, some, List, [], ◌∷◌,
  arith, ◌==◌, if◌then◌else◌, inl, inr, Bool-cases,
}
use codex_for_ipad.Kernel.Signal.{
  Sigset, Siginfo, Sigcontext, Stack, Task, deliver_signal_unlocked, send_signal, try_self_signal,
  siginfo_nil,
}
use codex_for_ipad.Kernel.Signal.Receive.{
  Host, running, receive_loop, effective_mask, restore_mask, tell_parent, receive_signals,
  sys_sigreturn, sys_rt_sigreturn, sigsegv,
}
use codex_for_ipad.Kernel.Signal.Calls.{do_sigprocmask, find_signal, sigtimedwait_end}
use codex_for_ipad.Kernel.Signal.Queue.{
  times, IsQueued, filter, and_then_running, deliver-IsQueued, send_signal-IsQueued,
  try_self_signal-IsQueued, receive_loop-IsLeft, times-remove,
}

-- `receive_signals` takes exactly the signals that are not blocked: if the task goes on, what stays in the queue, in
-- its order, are the entries of the signals that count as blocked, and just these stay pending. A signal
-- counts as blocked if the mask has it and, if a mask has been saved, the saved one has it as well. The queue has
-- exactly one entry for each pending signal before, which `sigtimedwait`, alone, does not keep.
pub receive_signals-exact :
    (h : Host) (t u : Task)
    → IsQueued t
    → receive_signals h t ≡ running u
    → (u.queue ≡ filter (effective_mask t) t.queue)
      × ((s : ℕ) → u.pending s ≡ (t.pending s && effective_mask t s))
unfolding receive_signals
receive_signals-exact h t u v e =
    let b = effective_mask t in
    let (w, e1, e2) =
      and_then_running (receive_loop h b t.queue (restore_mask t))
        (λ t'. running (tell_parent t.stopped t')) u e in
    let left = receive_loop-IsLeft h b t.queue [] (restore_mask t) w refl (λ s f. refl) e1 in
    let q : u.queue ≡ w.queue = ground (arith, e2) in
    let p : u.pending ≡ w.pending = ground (arith, e2) in
    (q ∙ left.queue, λ s. ap (λ f. f s) p ∙ left.pending s ∙ pending_left s (b s) (v.once s))
  where
    pending_left :
        (s : ℕ) (b : Bool)
        → times s t.queue ≡ (if t.pending s then 1 else 0)
        → (t.pending s && (b || times s t.queue == 0)) ≡ (t.pending s && b)
    pending_left s b once = ground arith

filter-times :
    (b : Sigset) (q : List Siginfo) (s : ℕ) → times s (filter b q) ≡ (if b s then times s q else 0)
filter-times b [] s = ground arith
filter-times b (i ∷ q) s = elim (Bool-cases (i.sig == s)) [
  | inl e ↦ let same : i.sig ≡ s = ground arith in ground (arith, filter-times b q s, ap b same)
  | inr e ↦ ground (arith, filter-times b q s)
]

receive_signals-IsQueued :
    (h : Host) (t u : Task) → IsQueued t → receive_signals h t ≡ running u → IsQueued u
receive_signals-IsQueued h t u v e =
    let x = receive_signals-exact h t u v e in
    record {
      once = λ s.
          ap (times s) x.0
          ∙ filter-times (effective_mask t) t.queue s
          ∙ ground (arith, v.once s, x.1 s);
    }

-- What happens to the signals of a task, but for `sigtimedwait`: others or itself send one, it receives those that are not
-- blocked, it changes its mask, and it returns from a handler.
pub data Reaches : Task → Task → Type 0 where
  here : {t : Task} → Reaches t t
  sent :
      {s t : Task}
      → Reaches s t
      → (self : Bool) (sig : ℕ) (info : Siginfo) → Reaches s (send_signal self t sig info).0
  delivered :
      {s t : Task}
      → Reaches s t
      → (self : Bool) (sig : ℕ) (info : Siginfo)
      → Reaches s (deliver_signal_unlocked self t sig info).0
  self_sent : {s t : Task} → Reaches s t → (sig : ℕ) → Reaches s (try_self_signal t sig).0
  received :
      {s t : Task}
      → Reaches s t
      → (h : Host) (u : Task) → receive_signals h t ≡ running u
      → Reaches s u
  masked :
      {s t : Task} → Reaches s t → (how : ℕ) (set : Sigset) → Reaches s (do_sigprocmask how set t).0
  returned :
      {s t : Task}
      → Reaches s t
      → (frame : Option (Sigcontext × Sigset)) → Reaches s (sys_sigreturn frame t).0
  rt_returned :
      {s t : Task}
      → Reaches s t
      → (frame : Option (Stack × Sigcontext × Sigset)) → Reaches s (sys_rt_sigreturn frame t).0

mask-IsQueued :
    (how : ℕ) (set : Sigset) (t : Task) → IsQueued t → IsQueued (do_sigprocmask how set t).0
unfolding do_sigprocmask
mask-IsQueued how set t v = record { once = λ s. ground (arith, v.once s) }

return-IsQueued :
    (frame : Option (Sigcontext × Sigset)) (t : Task)
    → IsQueued t
    → IsQueued (sys_sigreturn frame t).0
unfolding sys_sigreturn
return-IsQueued none t v = deliver-IsQueued true t sigsegv siginfo_nil v
return-IsQueued (some (sc, extramask)) t v = record { once = v.once }

rt_return-IsQueued :
    (frame : Option (Stack × Sigcontext × Sigset)) (t : Task)
    → IsQueued t
    → IsQueued (sys_rt_sigreturn frame t).0
unfolding sys_rt_sigreturn
rt_return-IsQueued none t v = deliver-IsQueued true t sigsegv siginfo_nil v
rt_return-IsQueued (some (stack, sc, sigmask)) t v = record { once = v.once }

-- In every state of a task that sending and delivering signals, `receive_signals`, `sigprocmask` and returning from handlers
-- lead to, in any order and without `sigtimedwait`, the queue has exactly one entry for each pending signal and none for
-- others, if it has at the start.
pub Reaches-IsQueued : {s t : Task} → Reaches s t → IsQueued s → IsQueued t
Reaches-IsQueued here v = v
Reaches-IsQueued (sent r self sig info) v =
    send_signal-IsQueued self _ sig info (Reaches-IsQueued r v)
Reaches-IsQueued (delivered r self sig info) v =
    deliver-IsQueued self _ sig info (Reaches-IsQueued r v)
Reaches-IsQueued (self_sent r sig) v = try_self_signal-IsQueued _ sig (Reaches-IsQueued r v)
Reaches-IsQueued (received r h u e) v = receive_signals-IsQueued h _ u (Reaches-IsQueued r v) e
Reaches-IsQueued (masked r how set) v = mask-IsQueued how set _ (Reaches-IsQueued r v)
Reaches-IsQueued (returned r frame) v = return-IsQueued frame _ (Reaches-IsQueued r v)
Reaches-IsQueued (rt_returned r frame) v = rt_return-IsQueued frame _ (Reaches-IsQueued r v)

find_signal-found :
    (set : Sigset) (q : List Siginfo) (i : Siginfo) → find_signal set q ≡ some i → 1 ≤ times i.sig q
unfolding find_signal
find_signal-found set [] i e = cc
find_signal-found set (j ∷ q) i e = elim (Bool-cases (set j.sig)) [
  | inl hit ↦
      let same : j ≡ i = ground (arith, e) in
      let sig : j.sig ≡ i.sig = ap (λ k. k.sig) same in ground arith
  | inr miss ↦ ground (arith, find_signal-found set q i (rw miss at e))
]

-- A bug: a signal that `sigtimedwait` takes from the queue stays pending, so that every later one of that signal is
-- lost: it is not queued, and the task is not interrupted.
pub sigtimedwait_loses :
    (set : Sigset) (t : Task) (i : Siginfo)
    → IsQueued t
    → find_signal set t.queue ≡ some i
    → let u = (sigtimedwait_end set false t).0 in
      (times i.sig u.queue ≡ 0)
      × ((self : Bool) (info : Siginfo) → deliver_signal_unlocked self u i.sig info ≡ (u, false))
unfolding sigtimedwait_end deliver_signal_unlocked
sigtimedwait_loses set t i v e =
    let found = find_signal-found set t.queue i e in
    let pending : t.pending i.sig ≡ true = ground (arith, v.once i.sig) in
    let sole : times i.sig t.queue ≡ 1 = ground (arith, v.once i.sig) in
    rw e (ground (arith, times-remove i.sig i.sig t.queue), λ self info. rw pending refl)
