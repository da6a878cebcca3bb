-- ===== src/Kernel/Futex/Requeue/Itself.antt =====
-- Requeueing to the same address in kernel/futex.c.
use codex_for_ipad.Prelude.{
  ℕ, zero, suc, ◌+◌, ◌%◌, ◌^◌, ◌≡◌, refl, ap, some, List, [], ◌∷◌, ◌++◌, arith,
}
use codex_for_ipad.Prelude.Int.{pos}
use codex_for_ipad.Kernel.Futex.{Table, list_remove, futex_put, returned}
use codex_for_ipad.Kernel.Futex.Calls.{
  next_entry, first_entry, requeue_one, requeue_loop, requeue_got,
}

next_second : (w x : ℕ) (q : List ℕ) → next_entry w (w ∷ x ∷ q) ≡ some x
unfolding next_entry
next_second w x q = ground arith

own_queue :
    (p w : ℕ) (q : List ℕ) (s : Table)
    → (s.futexes p).queue ≡ w ∷ q
    → ((requeue_one p p w s).futexes p).queue ≡ q ++ w ∷ []
unfolding requeue_one list_remove
own_queue p w q s e =
    let head : list_remove w (s.futexes p).queue ≡ q = rw e (ground arith) in ground (arith, head)

around :
    (k p w x : ℕ) (q : List ℕ) (s : Table)
    → (s.futexes p).queue ≡ w ∷ x ∷ q
    → (requeue_loop k p p (some w) s).1 ≡ k
unfolding requeue_loop
around zero p w x q s e = refl
around (suc k) p w x [] s e =
    let next : next_entry w (s.futexes p).queue ≡ some x = rw e (next_second w x []) in
    rw next (ap suc (around k p x w [] (requeue_one p p w s) (own_queue p w (x ∷ []) s e)))
around (suc k) p w x (y ∷ q) s e =
    let next : next_entry w (s.futexes p).queue ≡ some x = rw e (next_second w x (y ∷ q)) in
    rw next
      (ap suc (around k p x y (q ++ w ∷ []) (requeue_one p p w s) (own_queue p w (x ∷ y ∷ q) s e)))

-- A bug: FUTEX_REQUEUE to the address that it requeues from goes around the queue, if two or more waits stay there: it
-- goes `requeue_max` rounds and returns that number, however few waits there are.
pub requeue_to_itself :
    (k p w x : ℕ) (q : List ℕ) (s : Table)
    → (s.futexes p).queue ≡ w ∷ x ∷ q
    → (t : Table) × (requeue_got p k 0 (some p, s) ≡ returned t (pos (k % 2 ^ 32)))
unfolding requeue_got
requeue_to_itself k p w x q s e =
    let r = requeue_loop k p p (first_entry (s.futexes p).queue) s in
    let rounds : r.1 ≡ k = rw e (around k p w x q s e) in
    let same : 0 + r.1 ≡ k = omega (arith, rounds) in
    (_, ap (λ n. returned (futex_put p (futex_put p r.0)) (pos (n % 2 ^ 32))) same)
