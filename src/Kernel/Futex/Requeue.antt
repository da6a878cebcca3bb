-- ===== src/Kernel/Futex/Requeue.antt =====
-- What requeueing from a futex of kernel/futex.c to another does to the queues.
pub mod Queues
pub mod Moved
pub mod Itself
use codex_for_ipad.Prelude.{
  ℕ, zero, suc, ◌+◌, ◌-◌, ◌*◌, ◌%◌, ◌^◌, ◌≤◌, ◌<◌, ◌≡◌, refl, sym, ◌∙◌, ap, ◌⊎◌, ◌≢◌, Bool, true,
  false, not, ◌&&◌, Option, none, some, List, [], ◌∷◌, ◌++◌, arith, ◌==◌, ltb, leb, if◌then◌else◌,
  length, take, drop, inl, inr, Option-cases, Bool-cases, ==_iff,
}
use mathlib.Core.Path.{subst}
use codex_for_ipad.Prelude.Int.{ℤ, pos}
use codex_for_ipad.Kernel.Memory.{update, inc, dec}
use codex_for_ipad.Kernel.Futex.{
  Futex, FutexWait, Table, list_remove, futex_put, futex_get_unlocked, Caller, Outcome, returned,
}
use codex_for_ipad.Kernel.Futex.Calls.{
  next_entry, first_entry, requeue_one, requeue_loop, requeue_got, wake_queue, wakelike_got,
  futex_wakelike, matches,
}
use codex_for_ipad.Kernel.Futex.Counts.{one_if, first_entry-times}
use codex_for_ipad.Kernel.Futex.Invariant.{IsTable, hold, IsGot, get-IsGot, put-IsTable}
use codex_for_ipad.Kernel.Futex.Steps.{wake_queue-IsTable, requeue_loop-IsTable}
use codex_for_ipad.Kernel.Futex.Safety.{no_refs, table}
use codex_for_ipad.Kernel.Futex.View.{queue_at, IsAt, IsAt-queue}
use codex_for_ipad.Kernel.Futex.Change.{
  IsAlike, IsAlike-queue_at, IsAt-unique, nowhere-queue_at, put-queue_at, got-queue_at,
}
use codex_for_ipad.Kernel.Futex.Wake.{
  IsWoken, IsWake, get_room, got-IsAt, queue_woken, put_notified,
}

next_first : (w : ℕ) (q : List ℕ) → next_entry w (w ∷ q) ≡ first_entry q
unfolding next_entry
next_first w [] = refl
next_first w (x ∷ q) = ground arith

-- `k` rounds of the loop that requeues from `p`, whose queue is `q`, to another futex `p2`: from `s` to `t`.
pub record IsRequeued (k p p2 : ℕ) (q : List ℕ) (s t : Table) (moved : ℕ) : Type 0 where
  pub count : moved ≡ length (take k q)
  pub left : (t.futexes p).queue ≡ drop k q
  pub arrived : (t.futexes p2).queue ≡ (s.futexes p2).queue ++ take k q
  pub others : (r : ℕ) → r ≢ p → r ≢ p2 → (t.futexes r).queue ≡ (s.futexes r).queue
  pub refs : (r : ℕ) → r ≢ p → r ≢ p2 → (t.futexes r).refcount ≡ (s.futexes r).refcount
  pub mems : (r : ℕ) → (t.futexes r).mem ≡ (s.futexes r).mem
  pub addrs : (r : ℕ) → (t.futexes r).addr ≡ (s.futexes r).addr
  pub told : t.notified ≡ s.notified

-- One round, for the first wait of the queue.
record IsRound (p p2 w : ℕ) (q : List ℕ) (s t : Table) : Type 0 where
  pub left : (t.futexes p).queue ≡ q
  pub arrived : (t.futexes p2).queue ≡ (s.futexes p2).queue ++ w ∷ []
  pub others : (r : ℕ) → r ≢ p → r ≢ p2 → (t.futexes r).queue ≡ (s.futexes r).queue
  pub refs : (r : ℕ) → r ≢ p → r ≢ p2 → (t.futexes r).refcount ≡ (s.futexes r).refcount
  pub mems : (r : ℕ) → (t.futexes r).mem ≡ (s.futexes r).mem
  pub addrs : (r : ℕ) → (t.futexes r).addr ≡ (s.futexes r).addr
  pub told : t.notified ≡ s.notified

requeue_one-IsRound :
    (p p2 w : ℕ) (q : List ℕ) (s : Table)
    → p ≢ p2
    → (s.futexes p).queue ≡ w ∷ q
    → IsRound p p2 w q s (requeue_one p p2 w s)
unfolding requeue_one list_remove
requeue_one-IsRound p p2 w q s apart e =
    let head : list_remove w (s.futexes p).queue ≡ q = rw e (ground arith) in
    record {
      left = ground (arith, head);
      arrived = ground arith;
      others = λ r a b. ground arith;
      refs = λ r a b. ground arith;
      mems = λ r. ground arith;
      addrs = λ r. ground arith;
      told = refl;
    }

append_one : (xs ys : List ℕ) (w : ℕ) → (xs ++ w ∷ []) ++ ys ≡ xs ++ w ∷ ys
append_one [] ys w = refl
append_one (x ∷ xs) ys w = ap (◌∷◌ x) (append_one xs ys w)

append_none : (xs : List ℕ) → xs ++ [] ≡ xs
append_none [] = refl
append_none (x ∷ xs) = ap (◌∷◌ x) (append_none xs)

still-IsRequeued :
    (k p p2 : ℕ) (q : List ℕ) (s : Table)
    → (s.futexes p).queue ≡ q
    → take k q ≡ []
    → drop k q ≡ q
    → IsRequeued k p p2 q s s 0
still-IsRequeued k p p2 q s e t d = record {
  count = rw t refl;
  left = e ∙ sym d;
  arrived = rw t (sym (append_none (s.futexes p2).queue));
  others = λ r a b. refl;
  refs = λ r a b. refl;
  mems = λ r. refl;
  addrs = λ r. refl;
  told = refl;
}

pub requeue_loop-IsRequeued :
    (k p p2 : ℕ) (q : List ℕ) (s : Table)
    → p ≢ p2
    → (s.futexes p).queue ≡ q
    → let r = requeue_loop k p p2 (first_entry q) s in IsRequeued k p p2 q s r.0 r.1
unfolding requeue_loop
requeue_loop-IsRequeued zero p p2 q s apart e = still-IsRequeued 0 p p2 q s e refl refl
requeue_loop-IsRequeued (suc k) p p2 [] s apart e = still-IsRequeued (suc k) p p2 [] s e refl refl
requeue_loop-IsRequeued (suc k) p p2 (w ∷ q) s apart e =
    let one = requeue_one-IsRound p p2 w q s apart e in
    let u = requeue_one p p2 w s in
    let ih = requeue_loop-IsRequeued k p p2 q u apart one.left in
    let next : next_entry w (s.futexes p).queue ≡ first_entry q = rw e (next_first w q) in
    rw next (record {
      count = ap suc ih.count;
      left = ih.left;
      arrived = ih.arrived ∙ rw one.arrived (append_one (s.futexes p2).queue (take k q) w);
      others = λ r a b. ih.others r a b ∙ one.others r a b;
      refs = λ r a b. ih.refs r a b ∙ one.refs r a b;
      mems = λ r. ih.mems r ∙ one.mems r;
      addrs = λ r. ih.addrs r ∙ one.addrs r;
      told = ih.told ∙ one.told;
    })
