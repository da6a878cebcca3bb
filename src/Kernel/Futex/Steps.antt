-- ===== src/Kernel/Futex/Steps.antt =====
-- The parts of the calls of kernel/futex.c keep the invariant.
use codex_for_ipad.Prelude.{
  ℕ, zero, suc, ◌+◌, ◌^◌, ◌≤◌, ◌<◌, ◌≡◌, refl, Bool, Option, none, some, List, [], ◌∷◌, arith,
  if◌then◌else◌, length,
}
use codex_for_ipad.Kernel.Futex.{Table, set_futex, list_remove, enqueue, wake_loop, futex_wait_end}
use codex_for_ipad.Kernel.Futex.Calls.{next_entry, requeue_one, requeue_loop, wake_queue, matches}
use codex_for_ipad.Kernel.Futex.Counts.{
  times, times-append, times-remove, users-le, users-remove, users-positive, users-update,
  next_entry-times,
}
use codex_for_ipad.Kernel.Futex.Invariant.{IsTable, hold, put-IsTable}

length-remove : (w : ℕ) (ws : List ℕ) → length (list_remove w ws) ≤ length ws
unfolding list_remove
length-remove w [] = omega arith
length-remove w (x ∷ xs) = ground (arith, length-remove w xs)

wake_loop-times :
    (m : ℕ → Bool) (wake_max woken : ℕ) (ws : List ℕ) (w : ℕ)
    → times w (wake_loop m wake_max woken ws).0 ≤ times w ws
unfolding wake_loop
wake_loop-times m wake_max woken [] w = omega arith
wake_loop-times m wake_max woken (x ∷ xs) w =
    ground (arith, wake_loop-times m wake_max (if m x then suc woken else woken) xs w)

module _ (held : ℕ → ℕ) where
  -- The reference of the call becomes the one of the wait, which is new.
  pub enqueue-IsTable :
      (w p bitset : ℕ) (s : Table)
      → times w s.live ≡ 0
      → length s.live + 5 < 2 ^ 32
      → IsTable (hold p held) s
      → IsTable held (enqueue w p bitset s)
  enqueue-IsTable w p bitset s new room v = record {
    counted = λ q. ground (
      arith,
      v.counted q,
      users-update s.waits w (record { futex = p; bitset = bitset }) s.live q,
    );
    queued = λ q x.
        ground (arith, v.queued q x, v.queued q w, times-append x (s.futexes p).queue (w ∷ []));
    once = λ x. ground (arith, v.once x);
    chained = λ q. ground (arith, v.chained q);
    keyed = λ q r a b m d. ground (arith, v.keyed q r);
    fresh = λ q le. ground (arith, v.fresh q);
    sound = v.sound;
    few = ground arith;
  }

  -- A wait that ends leaves its futex, whether it was woken or not.
  pub wait_end-IsTable :
      (w : ℕ) (s : Table)
      → ((q : ℕ) → held q ≤ 2)
      → 0 < times w s.live
      → IsTable held s
      → IsTable held (futex_wait_end w s)
  unfolding futex_wait_end
  wait_end-IsTable w s small live v =
      let p = (s.waits w).futex in
      let t =
        set_futex p (record (s.futexes p) { queue = list_remove w (s.futexes p).queue })
          (record s { live = list_remove w s.live }) in
      put-IsTable held p t small (record {
        counted = λ q. ground (arith, v.counted q, users-remove s.waits w s.live q live);
        queued = λ q x. ground (
          arith,
          v.queued q x,
          v.once w,
          times-remove w x (s.futexes p).queue,
          times-remove w x s.live,
        );
        once = λ x. ground (arith, v.once x, times-remove w x s.live);
        chained = λ q. ground (arith, v.chained q);
        keyed = λ q r a b m d. ground (arith, v.keyed q r);
        fresh = λ q le. ground (arith, v.fresh q);
        sound = v.sound;
        few = omega (arith, v.few, length-remove w s.live);
      })

  pub wake_queue-IsTable :
      (p wake_max bitset : ℕ) (s : Table)
      → IsTable held s
      → IsTable held (wake_queue p wake_max bitset s).0
  unfolding wake_queue
  wake_queue-IsTable p wake_max bitset s v =
      let q = (s.futexes p).queue in
      record {
        counted = λ q. ground (arith, v.counted q);
        queued =
            λ r w. ground (arith, v.queued r w, wake_loop-times (matches s bitset) wake_max 0 q w);
        once = v.once;
        chained = λ q. ground (arith, v.chained q);
        keyed = λ q r a b m d. ground (arith, v.keyed q r);
        fresh = λ q le. ground (arith, v.fresh q);
        sound = v.sound;
        few = v.few;
      }

  -- A wait in the queue of `p` goes to `p2` with its reference; the assertion on the reference that the call keeps holds.
  pub requeue_one-IsTable :
      (p p2 w : ℕ) (s : Table)
      → ((q : ℕ) → held q ≤ 2)
      → 0 < held p
      → 0 < held p2
      → 0 < times w (s.futexes p).queue
      → IsTable held s
      → IsTable held (requeue_one p p2 w s)
  unfolding requeue_one
  requeue_one-IsTable p p2 w s small mine mine2 waits v =
      let on : (s.waits w).futex ≡ p = ground (arith, v.queued p w) in
      let live : times w s.live ≡ 1 = ground (arith, v.queued p w, v.once w) in
      let bound : (s.futexes p).refcount + 1 < 2 ^ 32 =
        ground (arith, v.counted p, small p, v.few, users-le s.waits s.live p) in
      let bound2 : (s.futexes p2).refcount + 1 < 2 ^ 32 =
        ground (arith, v.counted p2, small p2, v.few, users-le s.waits s.live p2) in
      let moved = λ (q : ℕ). users-update s.waits w (record (s.waits w) { futex = p2 }) s.live q in
      let used : 1 < (s.futexes p).refcount =
        ground (arith, v.counted p, moved p, users-positive s.waits w s.live p) in
      record {
        counted = λ q. ground (arith, v.counted q, moved q, used);
        queued = λ q x. ground (
          arith,
          v.queued q x,
          v.queued q w,
          v.once w,
          times-remove w x (s.futexes p).queue,
          times-append x (list_remove w (s.futexes p).queue) (w ∷ []),
          times-append x (s.futexes p2).queue (w ∷ []),
        );
        once = v.once;
        chained = λ q. ground (arith, v.chained q, used, v.counted p2);
        keyed = λ q r a b m d. ground (arith, v.keyed q r, used, v.counted p2);
        fresh = λ q le. ground (arith, v.fresh q, used, v.counted p2);
        sound = ground (arith, v.sound, used);
        few = v.few;
      }

  one_queue :
      (p p2 w y : ℕ) (s : Table)
      → 0 < times y (list_remove w (s.futexes p).queue)
      → 0 < times y ((requeue_one p p2 w s).futexes p).queue
  unfolding requeue_one
  one_queue p p2 w y s h =
      ground (arith, times-append y (list_remove w (s.futexes p).queue) (w ∷ []))

  pub requeue_loop-IsTable :
      (k p p2 : ℕ) (cursor : Option ℕ) (s : Table)
      → ((q : ℕ) → held q ≤ 2)
      → 0 < held p
      → 0 < held p2
      → ((y : ℕ) → cursor ≡ some y → 0 < times y (s.futexes p).queue)
      → IsTable held s
      → IsTable held (requeue_loop k p p2 cursor s).0
  unfolding requeue_loop
  requeue_loop-IsTable zero p p2 cursor s small mine mine2 at v = v
  requeue_loop-IsTable (suc k) p p2 none s small mine mine2 at v = v
  requeue_loop-IsTable (suc k) p p2 (some w) s small mine mine2 at v =
      let q = (s.futexes p).queue in
      let single : times w q ≤ 1 = ground (arith, v.queued p w, v.once w) in
      requeue_loop-IsTable k p p2 (next_entry w q) (requeue_one p p2 w s) small mine mine2
        (λ y e. one_queue p p2 w y s (next_entry-times w y q e single))
        (requeue_one-IsTable p p2 w s small mine mine2 (at w refl) v)
