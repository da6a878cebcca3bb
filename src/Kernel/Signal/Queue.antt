-- ===== src/Kernel/Signal/Queue.antt =====
-- The queue of the signals of a task, of kernel/signal.c.
use codex_for_ipad.Prelude.{
  ℕ, ◌+◌, ◌-◌, ◌≡◌, refl, sym, ◌∙◌, ap, Bool, true, false, ◌&&◌, ◌||◌, List, [], ◌∷◌, ◌++◌, arith,
  ◌==◌, if◌then◌else◌, inl, inr, Bool-cases,
}
use codex_for_ipad.Kernel.Signal.{
  Sigset, Siginfo, Task, Action, ignore, kill, call_handler, stop, signal_action,
  deliver_signal_unlocked, send_signal, try_self_signal, siginfo_nil,
}
use codex_for_ipad.Kernel.Signal.Receive.{
  Host, Received, running, killed, deadlocked, call_signal_handler, enter_handler, act,
  receive_signal, remove_signal, dequeue, and_then, receive_loop,
}

-- How many entries of a queue are of a signal.
abbrev pub times : ℕ → List Siginfo → ℕ
times s [] = 0
times s (i ∷ q) = (if i.sig == s then 1 else 0) + times s q

-- The queue has one entry for each signal that is pending, and no others.
pub record IsQueued (t : Task) : Type 0 where
  pub once : (s : ℕ) → times s t.queue ≡ (if t.pending s then 1 else 0)

pub times-append : (s : ℕ) (q r : List Siginfo) → times s (q ++ r) ≡ times s q + times s r
times-append s [] r = omega arith
times-append s (i ∷ q) r = omega (arith, times-append s q r)

pub times-remove :
    (sig s : ℕ) (q : List Siginfo)
    → times s (remove_signal sig q) ≡ (if sig == s then times s q - 1 else times s q)
unfolding remove_signal
times-remove sig s [] = ground arith
times-remove sig s (i ∷ q) = ground (arith, times-remove sig s q)

pub deliver-IsQueued :
    (self : Bool) (t : Task) (sig : ℕ) (info : Siginfo)
    → IsQueued t
    → IsQueued (deliver_signal_unlocked self t sig info).0
unfolding deliver_signal_unlocked
deliver-IsQueued self t sig info v = record {
  once = λ s.
      ground (arith, v.once s, v.once sig, times-append s t.queue (record info { sig = sig } ∷ []));
}

pub send_signal-IsQueued :
    (self : Bool) (t : Task) (sig : ℕ) (info : Siginfo)
    → IsQueued t
    → IsQueued (send_signal self t sig info).0
unfolding send_signal
send_signal-IsQueued self t sig info v =
    let d = deliver-IsQueued self t sig info v in
    record { once = λ s. ground (arith, v.once s, d.once s) }

pub try_self_signal-IsQueued :
    (t : Task) (sig : ℕ) → IsQueued t → IsQueued (try_self_signal t sig).0
unfolding try_self_signal
try_self_signal-IsQueued t sig v =
    let d = deliver-IsQueued true t sig siginfo_nil v in
    record { once = λ s. ground (arith, v.once s, d.once s) }

-- Receiving a signal changes neither the queue nor the pending signals.
act-queue :
    (h : Host) (info : Siginfo) (t u : Task) (a : Action)
    → act h info t a ≡ running u
    → (u.queue ≡ t.queue) × (u.pending ≡ t.pending)
unfolding act call_signal_handler enter_handler
act-queue h info t u ignore e = ground (arith, e)
act-queue h info t u kill e = cc
act-queue h info t u call_handler e = ground (arith, e)
act-queue h info t u stop e = ground (arith, e)

pub receive_signal-queue :
    (h : Host) (info : Siginfo) (t u : Task)
    → receive_signal h info t ≡ running u
    → (u.queue ≡ t.queue) × (u.pending ≡ t.pending)
unfolding receive_signal
receive_signal-queue h info t u e = act-queue h info t u (signal_action t.sighand info.sig) e

pub and_then_running :
    (r : Received) (f : Task → Received) (u : Task)
    → and_then r f ≡ running u
    → (t : Task) × (r ≡ running t) × (f t ≡ running u)
and_then_running (running t) f u e = (t, refl, e)
and_then_running (killed sig) f u e = cc
and_then_running deadlocked f u e = cc

-- The entries of the signals of a set.
abbrev pub filter : Sigset → List Siginfo → List Siginfo
filter set [] = []
filter set (i ∷ q) = if set i.sig then i ∷ filter set q else filter set q

remove_behind :
    (sig : ℕ) (kept q : List Siginfo) (i : Siginfo)
    → i.sig ≡ sig
    → times sig kept ≡ 0
    → remove_signal sig (kept ++ i ∷ q) ≡ kept ++ q
unfolding remove_signal
remove_behind sig [] q i e h = ground arith
remove_behind sig (k ∷ kept) q i e h = ground (arith, remove_behind sig kept q i e)

append_one : (kept q : List Siginfo) (i : Siginfo) → (kept ++ i ∷ []) ++ q ≡ kept ++ i ∷ q
append_one [] q i = refl
append_one (k ∷ kept) q i = ap (◌∷◌ k) (append_one kept q i)

-- What the loop leaves of the entries `q`, behind those that it has passed over.
pub record IsLeft (b : Sigset) (kept q : List Siginfo) (t u : Task) : Type 0 where
  pub queue : u.queue ≡ kept ++ filter b q
  pub pending : (s : ℕ) → u.pending s ≡ (t.pending s && (b s || times s q == 0))

dequeued-IsLeft :
    (b : Sigset) (kept q : List Siginfo) (i : Siginfo) (t v u : Task)
    → b i.sig ≡ false
    → v.pending ≡ (dequeue i.sig t).pending
    → IsLeft b kept q v u
    → IsLeft b kept (i ∷ q) t u
dequeued-IsLeft b kept q i t v u e p h = record {
  queue = rw e h.queue;
  pending = λ s. ground (arith, h.pending s, ap (λ f. f s) p);
}

passed-IsLeft :
    (b : Sigset) (kept q : List Siginfo) (i : Siginfo) (t u : Task)
    → b i.sig ≡ true
    → IsLeft b (kept ++ i ∷ []) q t u
    → IsLeft b kept (i ∷ q) t u
passed-IsLeft b kept q i t u e h = record {
  queue = rw e (h.queue ∙ append_one kept (filter b q) i);
  pending = λ s. ground (arith, h.pending s, ap b);
}

pub receive_loop-IsLeft :
    (h : Host) (b : Sigset) (q kept : List Siginfo) (t u : Task)
    → t.queue ≡ kept ++ q
    → ((s : ℕ) → b s ≡ false → times s kept ≡ 0)
    → receive_loop h b q t ≡ running u
    → IsLeft b kept q t u
unfolding receive_loop
receive_loop-IsLeft h b [] kept t u e out r = record {
  queue = ground (arith, e);
  pending = λ s. ground arith;
}
receive_loop-IsLeft h b (i ∷ q) kept t u e out r = elim (Bool-cases (b i.sig)) [
  | inl hit ↦ passed-IsLeft b kept q i t u hit (
      receive_loop-IsLeft h b q (kept ++ i ∷ []) t u (e ∙ sym (append_one kept q i))
        (λ s f. ground (arith, times-append s kept (i ∷ []), out s)) (rw hit at r))
  | inr miss ↦
      let (v, e1, e2) =
        and_then_running (receive_signal h i (dequeue i.sig t)) (receive_loop h b q) u
          (rw miss at r) in
      let same = receive_signal-queue h i (dequeue i.sig t) v e1 in
      dequeued-IsLeft b kept q i t v u miss same.1 (
        receive_loop-IsLeft h b q kept v u
          (same.0 ∙ ap (remove_signal i.sig) e ∙ remove_behind i.sig kept q i refl (out i.sig miss))
          out e2)
]
