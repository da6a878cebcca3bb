-- ===== src/Kernel/Eventfd/Sums.antt =====
-- What kernel/eventfd.c counts.
use codex_for_ipad.Prelude.{ℕ, ◌+◌, ◌<◌, ◌≡◌, refl, ◌≢◌, ◌↔◌, true, false, List, [], ◌∷◌, arith}
use codex_for_ipad.Kernel.Eventfd.{
  Counter, done, failed, waiting, uint64_max, read_loop, write_loop, eventfd_read, eventfd_write,
  eventfd_poll,
}

-- Calls that other tasks and this one make one after the other; a call that would wait is left out.
pub data Op : Type 0 where
  reads : Op
  writes : ℕ → Op

-- The counter behind the calls, the sum of the values read, and the sum of the values written.
pub record Ledger : Type 0 where
  pub counter : Counter
  pub taken : ℕ
  pub given : ℕ

pub step : Op → Ledger → Ledger
step reads l = elim (eventfd_read 8 [] l.counter) [
  | done c v ↦ record l { counter = c; taken = l.taken + v }
  | failed e ↦ l
  | waiting ↦ l
]
step (writes n) l = elim (eventfd_write 8 n [] l.counter) [
  | done c v ↦ record l { counter = c; given = l.given + n }
  | failed e ↦ l
  | waiting ↦ l
]

pub run : List Op → Ledger → Ledger
run [] l = l
run (op ∷ ops) l = run ops (step op l)

-- A counter's value stays below 2 ^ 64 - 1.
abbrev pub IsBounded : Counter → Type 0
IsBounded c = c.val < uint64_max

step-IsBounded :
    (op : Op) (l : Ledger)
    → IsBounded l.counter
    → IsBounded (step op l).counter
      × ((step op l).taken + (step op l).counter.val + l.given
          ≡ l.taken + l.counter.val + (step op l).given)
unfolding step eventfd_read eventfd_write read_loop write_loop
step-IsBounded reads l b = ground arith
step-IsBounded (writes n) l b = ground arith

-- A counter never overflows, and no event is lost or made up: what is read by any sequence of reads and
-- writes, plus what is left, is what was there plus what the writes that succeeded have added. The
-- value at the start is below 2 ^ 64 - 1.
pub run-IsBounded :
    (ops : List Op) (l : Ledger)
    → IsBounded l.counter
    → IsBounded (run ops l).counter
      × ((run ops l).taken + (run ops l).counter.val + l.given
          ≡ l.taken + l.counter.val + (run ops l).given)
unfolding run
run-IsBounded [] l b = (b, refl)
run-IsBounded (op ∷ ops) l b =
    let one = step-IsBounded op l b in
    let ih = run-IsBounded ops (step op l) one.0 in (ih.0, omega (arith, one.1, ih.1))

-- `poll` tells the truth: a read of a blocking counter would not wait exactly if POLL_READ is reported,
-- and a write of 1 would not exactly if POLL_WRITE is. The value is below 2 ^ 64 - 1.
pub poll-ready :
    (c : Counter)
    → IsBounded c
    → c.nonblock ≡ false
    → (((eventfd_poll c).0 ≡ true) ↔ (eventfd_read 8 [] c ≢ waiting))
      × (((eventfd_poll c).1 ≡ true) ↔ (eventfd_write 8 1 [] c ≢ waiting))
unfolding eventfd_poll eventfd_read eventfd_write read_loop write_loop
poll-ready c b blocking = ground (arith, blocking)
