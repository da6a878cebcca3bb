-- ===== src/Kernel/Futex/Requeue/Moved.antt =====
-- What a call of kernel/futex.c that requeues does to the queues.
use codex_for_ipad.Kernel.Futex.Requeue.Queues.{two-queue_at, requeued-IsAlike}
use codex_for_ipad.Prelude.{
  ℕ, ◌+◌, ◌%◌, ◌^◌, ◌<◌, ◌≡◌, refl, sym, ◌∙◌, ap, ◌≢◌, Bool, true, false, ◌&&◌, some, List, ◌++◌,
  arith, ◌==◌, if◌then◌else◌, length, take, drop,
}
use codex_for_ipad.Kernel.Futex.Requeue.{IsRequeued, requeue_loop-IsRequeued}
use mathlib.Core.Path.{subst}
use codex_for_ipad.Prelude.Int.{ℤ, pos}
use codex_for_ipad.Kernel.Futex.{Table, futex_put, Caller, returned}
use codex_for_ipad.Kernel.Futex.Calls.{
  first_entry, requeue_loop, requeue_got, wake_queue, wakelike_got, futex_wakelike, matches,
}
use codex_for_ipad.Kernel.Futex.Counts.{first_entry-times}
use codex_for_ipad.Kernel.Futex.Invariant.{IsTable, hold, IsGot, get-IsGot, put-IsTable}
use codex_for_ipad.Kernel.Futex.Steps.{wake_queue-IsTable, requeue_loop-IsTable}
use codex_for_ipad.Kernel.Futex.Safety.{no_refs}
use codex_for_ipad.Kernel.Futex.View.{queue_at, IsAt, IsAt-queue}
use codex_for_ipad.Kernel.Futex.Change.{put-queue_at, got-queue_at}
use codex_for_ipad.Kernel.Futex.Wake.{
  IsWoken, IsWake, get_room, got-IsAt, wake_queue-IsAt, queue_woken, put_notified,
}

-- What a requeue does: as a wake at the address, and then up to `requeue_max` of the waits that stay there go behind
-- those at the other one.
pub record IsRequeue (m : ℕ → Bool) (wake_max requeue_max mem addr addr2 : ℕ) (s t : Table) (r : ℤ)
    : Type 0 where
  pub kept : List ℕ
  pub woken : List ℕ
  pub split : IsWoken m wake_max (queue_at s mem addr) kept woken
  pub result : r ≡ pos ((length woken + length (take requeue_max kept)) % 2 ^ 32)
  pub told : t.notified ≡ woken ++ s.notified
  pub queues :
      (m a : ℕ)
      → queue_at t m a ≡ (
          if m == mem && a == addr
          then drop requeue_max kept
          else if m == mem && a == addr2
          then queue_at s mem addr2 ++ take requeue_max kept
          else queue_at s m a)

module _ (mem addr addr2 p p2 k : ℕ) (s r u : Table) (kept : List ℕ)
    (v : IsTable (hold p no_refs) r) (at : IsAt r mem addr p) (kept_at : queue_at r mem addr ≡ kept)
    (g : IsGot (hold p no_refs) mem addr2 r (some p2, u)) (apart : addr ≢ addr2) where
  first-IsAt : IsAt u mem addr p
  first-IsAt =
      let used : 0 < (u.futexes p).refcount = ground (arith, g.0.counted p) in
      let same = g.6 p at.used used in
      record {
        used = used;
        same_mem = sym same.0 ∙ at.same_mem;
        same_addr = sym same.1 ∙ at.same_addr;
      }

  first_queue : (u.futexes p).queue ≡ kept
  first_queue =
      sym (IsAt-queue u mem addr p g.0 first-IsAt)
      ∙ got-queue_at (hold p no_refs) mem addr2 p2 r u v g mem addr
      ∙ kept_at

  two_futexes : p ≢ p2
  two_futexes e =
      let a = first-IsAt.same_addr in apart (sym a ∙ ap (λ x. (u.futexes x).addr) e ∙ g.2)

  abbrev looped : Table × ℕ
  looped = requeue_loop k p p2 (first_entry (u.futexes p).queue) u

  loop-IsTable : IsTable (hold p2 (hold p no_refs)) looped.0
  loop-IsTable =
      requeue_loop-IsTable (hold p2 (hold p no_refs)) k p p2 _ u (λ q. ground arith) (ground arith)
        (ground arith) (λ y e. first_entry-times y (u.futexes p).queue e) g.0

  loop-IsRequeued : IsRequeued k p p2 kept u looped.0 looped.1
  loop-IsRequeued =
      subst
        (λ q.
          IsRequeued k p p2 kept u (requeue_loop k p p2 (first_entry q) u).0
            (requeue_loop k p p2 (first_entry q) u).1)
        (sym first_queue) (requeue_loop-IsRequeued k p p2 kept u two_futexes first_queue)

  pub put_both-queue_at :
      (m a : ℕ)
      → queue_at (futex_put p (futex_put p2 looped.0)) m a ≡ (
          if m == mem && a == addr
          then drop k kept
          else if m == mem && a == addr2
          then queue_at r mem addr2 ++ take k kept
          else queue_at r m a)
  put_both-queue_at m a =
      let h = loop-IsRequeued in
      let at2 = got-IsAt (hold p no_refs) mem addr2 p2 r u v g in
      put-queue_at no_refs p (futex_put p2 looped.0) (λ q. omega arith)
        (put-IsTable (hold p no_refs) p2 looped.0 (λ q. ground arith) loop-IsTable) m a
      ∙ put-queue_at (hold p no_refs) p2 looped.0 (λ q. ground arith) loop-IsTable m a
      ∙ two-queue_at u looped.0 mem addr addr2 p p2
          (requeued-IsAlike no_refs k p p2 kept u looped.0 looped.1 g.0 loop-IsTable h) first-IsAt
          at2.0 h.others g.0 loop-IsTable m a
      ∙ rw (h.left, h.arrived, at2.1, got-queue_at (hold p no_refs) mem addr2 p2 r u v g m a) refl

nested_if :
    (b b2 : Bool) (d e kept y z : List ℕ)
    → z ≡ (if b then kept else y)
    → (if b then d else if b2 then e else z) ≡ (if b then d else if b2 then e else y)
nested_if true b2 d e kept y z h = refl
nested_if false true d e kept y z h = refl
nested_if false false d e kept y z h = h

requeue_got-IsRequeue :
    (m : ℕ → Bool) (wake_max mem addr addr2 p p2 k n : ℕ) (s r u : Table)
    → IsTable (hold p no_refs) r
    → IsAt r mem addr p
    → (w : IsWake m wake_max mem addr s r (pos (n % 2 ^ 32))) → n ≡ length w.woken
    → IsGot (hold p no_refs) mem addr2 r (some p2, u)
    → addr ≢ addr2
    → (t : Table) × (x : ℤ) × (requeue_got p k n (some p2, u) ≡ returned t x)
      × IsRequeue m wake_max k mem addr addr2 s t x
unfolding requeue_got
requeue_got-IsRequeue m wake_max mem addr addr2 p p2 k n s r u v at w count g apart =
    let kept_at : queue_at r mem addr ≡ w.kept = w.queues mem addr ∙ ground arith in
    let other : queue_at r mem addr2 ≡ queue_at s mem addr2 = w.queues mem addr2 ∙ ground arith in
    let h = loop-IsRequeued mem addr addr2 p p2 k s r u w.kept v at kept_at g apart in
    (
      _,
      _,
      refl,
      record {
        kept = w.kept;
        woken = w.woken;
        split = w.split;
        result = rw (count, h.count) refl;
        told = put_notified p _ ∙ put_notified p2 _ ∙ h.told ∙ g.7 ∙ w.notified;
        queues = λ m a.
            put_both-queue_at mem addr addr2 p p2 k s r u w.kept v at kept_at g apart m a
            ∙ rw other (
                nested_if (m == mem && a == addr) (m == mem && a == addr2) (drop k w.kept)
                  (queue_at s mem addr2 ++ take k w.kept) w.kept (queue_at s m a) (queue_at r m a)
                  (w.queues m a));
      },
    )

-- FUTEX_REQUEUE to another address, with memory for both futexes: waits are woken as by FUTEX_WAKE; of those that stay,
-- the first `requeue_max` go, in their order, behind the waits at the other address; the call returns how
-- many were woken or moved, and no other queue changes.
pub futex_wakelike-IsRequeue :
    (c : Caller) (uaddr addr2 wake_max requeue_max bitset : ℕ) (s : Table)
    → uaddr ≢ addr2
    → c.room ≡ true
    → c.room2 ≡ true
    → wake_max < 2 ^ 32
    → IsTable no_refs s
    → (t : Table) × (r : ℤ) × (futex_wakelike c 3 uaddr wake_max requeue_max addr2 bitset s
        ≡ returned t r)
      × IsRequeue (matches s bitset) wake_max requeue_max c.mem uaddr addr2 s t r
unfolding futex_wakelike wakelike_got
futex_wakelike-IsRequeue c uaddr addr2 wake_max requeue_max bitset s apart room room2 small v =
    let (p, u, e) = get_room c.mem uaddr s in
    let g =
      subst (IsGot no_refs c.mem uaddr s) e
        (get-IsGot no_refs true c.mem uaddr s (λ q. omega arith) v) in
    let (w, few) = queue_woken no_refs c.mem uaddr p wake_max bitset s u small v g in
    let r = wake_queue p wake_max bitset u in
    let kept = wake_queue-IsTable (hold p no_refs) p wake_max bitset u g.0 in
    let at =
      wake_queue-IsAt p wake_max bitset c.mem uaddr u (got-IsAt no_refs c.mem uaddr p s u v g).0 in
    let (p2, u2, e2) = get_room c.mem addr2 r.0 in
    let g2 =
      subst (IsGot (hold p no_refs) c.mem addr2 r.0) e2
        (get-IsGot (hold p no_refs) true c.mem addr2 r.0 (λ q. ground arith) kept) in
    rw (room, room2, e, e2)
      (requeue_got-IsRequeue (matches s bitset) wake_max c.mem uaddr addr2 p p2 requeue_max r.1 s
        r.0 u2 kept at w few g2 apart)
