-- ===== src/Kernel/Eventfd/Tests.antt =====
-- Runs of kernel/eventfd.c, and its theorems there.
use codex_for_ipad.Prelude.{◌+◌, ◌≡◌, refl, false, [], ◌∷◌, arith}
use codex_for_ipad.Kernel.Eventfd.{Counter, woken, done, read_loop, eventfd_read}
use codex_for_ipad.Kernel.Eventfd.Sums.{Ledger, reads, writes, run, IsBounded, run-IsBounded}

abbrev counter : Counter
counter = record { val = 5; nonblock = false }

-- A read that waits until another task has written 3.
wait_run :
    eventfd_read 8 (woken 3 ∷ []) (record counter { val = 0 }) ≡ done (record counter { val = 0 }) 3
unfolding eventfd_read read_loop
wait_run = refl

abbrev ledger : Ledger
ledger = record { counter = counter; taken = 0; given = 0 }

run-IsBounded_example :
    let l = run (writes 2 ∷ reads ∷ writes 4 ∷ []) ledger in
    IsBounded l.counter × (l.taken + l.counter.val + 0 ≡ 0 + 5 + l.given)
run-IsBounded_example = run-IsBounded (writes 2 ∷ reads ∷ writes 4 ∷ []) ledger (omega arith)
