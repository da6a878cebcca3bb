-- ===== src/Kernel/Futex/Safety.antt =====
-- What holds of the futexes of kernel/futex.c in every state that calls lead to.
use codex_for_ipad.Prelude.{
  ℕ, ◌+◌, ◌^◌, ◌<◌, ◌≡◌, refl, Bool, true, ◌&&◌, Option, none, some, [], arith, ◌==◌, length, inl,
  inr, Bool-cases, not, ◌||◌, ◌%◌,
}
use codex_for_ipad.Prelude.Errno.{Result, ok, err}
use codex_for_ipad.Kernel.Futex.{
  Table, assertion, futex_put, futex_get_unlocked, Timespec, Caller, Outcome, returned, waiting,
  wait_loaded, wait_got, futex_wait, futex_wait_end,
}
use codex_for_ipad.Kernel.Futex.Calls.{
  first_entry, requeue_loop, requeue_got, wake_queue, wakelike_got, futex_wakelike, futex_switch,
  read_timeout, sys_futex, command, is_wait, is_wake, clock_realtime,
}
use codex_for_ipad.Kernel.Futex.Counts.{times, users, times-none, first_entry-times}
use codex_for_ipad.Kernel.Futex.Invariant.{IsTable, hold, IsGot, get-IsGot, put-IsTable}
use codex_for_ipad.Kernel.Futex.Steps.{
  enqueue-IsTable, wait_end-IsTable, wake_queue-IsTable, requeue_loop-IsTable,
}

-- The table behind a call.
abbrev pub table : Outcome → Table
table (returned s r) = s
table (waiting s timeout) = s

abbrev pub no_refs : ℕ → ℕ
no_refs p = 0

-- A wait that can be queued: its task is in no other wait, and there are fewer than 2 ^ 32 - 5 waits.
abbrev pub IsIdle : ℕ → Table → Type 0
IsIdle w s = (times w s.live ≡ 0) × (length s.live + 5 < 2 ^ 32)

pub asserted-IsTable :
    (held : ℕ → ℕ) (b : Bool) (s : Table) → b ≡ true → IsTable held s → IsTable held (assertion b s)
asserted-IsTable held b s e v = record {
  counted = v.counted;
  queued = v.queued;
  once = v.once;
  chained = v.chained;
  keyed = v.keyed;
  fresh = v.fresh;
  sound = ground (arith, e, v.sound);
  few = v.few;
}

loaded-IsTable :
    (w val bitset p : ℕ) (t : Option Timespec) (s : Table) (word : Option ℕ)
    → IsIdle w s
    → IsTable (hold p no_refs) s
    → IsTable no_refs (table (wait_loaded w val bitset t p s word))
unfolding wait_loaded
loaded-IsTable w val bitset p t s none idle v = put-IsTable no_refs p s (λ q. omega arith) v
loaded-IsTable w val bitset p t s (some tmp) idle v = elim (Bool-cases (tmp == val)) [
  | inl e ↦ rw e (enqueue-IsTable no_refs w p bitset s idle.0 idle.1 v)
  | inr e ↦ rw e (put-IsTable no_refs p s (λ q. omega arith) v)
]

got_wait-IsTable :
    (c : Caller) (addr val bitset : ℕ) (t : Option Timespec) (s : Table) (g : Option ℕ × Table)
    → IsIdle c.wait s
    → IsGot no_refs c.mem addr s g
    → IsTable no_refs (table (wait_got c val bitset t g))
unfolding wait_got
got_wait-IsTable c addr val bitset t s (none, u) idle got = got.0
got_wait-IsTable c addr val bitset t s (some p, u) idle got =
    let b = (u.futexes p).mem == c.mem in
    loaded-IsTable c.wait val bitset p t (assertion b u) (c.load (u.futexes p).addr) (rw got.4 idle)
      (asserted-IsTable (hold p no_refs) b u (ground (arith, got.1)) got.0)

wait-IsTable :
    (c : Caller) (uaddr val : ℕ) (t : Option Timespec) (bitset : ℕ) (absolute realtime : Bool)
    (s : Table)
    → IsIdle c.wait s
    → IsTable no_refs s
    → IsTable no_refs (table (futex_wait c uaddr val t bitset absolute realtime s))
unfolding futex_wait
wait-IsTable c uaddr val t bitset absolute realtime s idle v =
    got_wait-IsTable c uaddr val bitset _ s (futex_get_unlocked c.room c.mem uaddr s) idle
      (get-IsGot no_refs c.room c.mem uaddr s (λ q. omega arith) v)

requeue_got-IsTable :
    (mem addr p k woken : ℕ) (s : Table) (g : Option ℕ × Table)
    → IsTable (hold p no_refs) s
    → IsGot (hold p no_refs) mem addr s g
    → IsTable no_refs (table (requeue_got p k woken g))
unfolding requeue_got
requeue_got-IsTable mem addr p k woken s (none, u) v got =
    put-IsTable no_refs p u (λ q. omega arith) got.0
requeue_got-IsTable mem addr p k woken s (some p2, u) v got =
    let start = first_entry (u.futexes p).queue in
    let r = requeue_loop k p p2 start u in
    put-IsTable no_refs p (futex_put p2 r.0) (λ q. omega arith)
      (put-IsTable (hold p no_refs) p2 r.0 (λ q. ground arith)
        (requeue_loop-IsTable (hold p2 (hold p no_refs)) k p p2 start u (λ q. ground arith)
          (ground arith) (ground arith) (λ y e. first_entry-times y (u.futexes p).queue e) got.0))

wakelike_got-IsTable :
    (c : Caller) (addr op wake_max requeue_max requeue_addr bitset : ℕ) (s : Table)
    (g : Option ℕ × Table)
    → IsGot no_refs c.mem addr s g
    → IsTable no_refs (table (wakelike_got c op wake_max requeue_max requeue_addr bitset g))
unfolding wakelike_got
wakelike_got-IsTable c addr op wake_max requeue_max requeue_addr bitset s (none, u) got = got.0
wakelike_got-IsTable c addr op wake_max requeue_max requeue_addr bitset s (some p, u) got =
    let r = wake_queue p wake_max bitset u in
    let v = wake_queue-IsTable (hold p no_refs) p wake_max bitset u got.0 in
    elim (Bool-cases (op == 3)) [
      | inl e ↦ rw e (
          requeue_got-IsTable c.mem requeue_addr p requeue_max r.1 r.0
            (futex_get_unlocked c.room2 c.mem requeue_addr r.0) v
            (get-IsGot (hold p no_refs) c.room2 c.mem requeue_addr r.0 (λ q. ground arith) v))
      | inr e ↦ rw e (put-IsTable no_refs p r.0 (λ q. omega arith) v)
    ]

wakelike-IsTable :
    (c : Caller) (op uaddr wake_max requeue_max requeue_addr bitset : ℕ) (s : Table)
    → IsTable no_refs s
    → IsTable no_refs (table (futex_wakelike c op uaddr wake_max requeue_max requeue_addr bitset s))
unfolding futex_wakelike
wakelike-IsTable c op uaddr wake_max requeue_max requeue_addr bitset s v =
    wakelike_got-IsTable c uaddr op wake_max requeue_max requeue_addr bitset s
      (futex_get_unlocked c.room c.mem uaddr s)
      (get-IsGot no_refs c.room c.mem uaddr s (λ q. omega arith) v)

-- A call that leaves a well-formed table.
record IsKept (o : Outcome) : Type 0 where
  pub kept : IsTable no_refs (table o)

switch-IsKept :
    (c : Caller) (uaddr op val val2 uaddr2 val3 : ℕ) (s : Table) (t : Result Timespec)
    → IsIdle c.wait s
    → IsTable no_refs s
    → IsKept (futex_switch c uaddr op val val2 uaddr2 val3 s t)
unfolding futex_switch
switch-IsKept c uaddr op val val2 uaddr2 val3 s (err e) idle v = record { kept = v }
switch-IsKept c uaddr op val val2 uaddr2 val3 s (ok t) idle v =
    elim (Bool-cases (is_wait (command op))) [
      | inl e ↦ rw e (record { kept = wait-IsTable c uaddr val _ _ _ _ s idle v })
      | inr e ↦ elim (Bool-cases (is_wake (command op))) [
        | inl f ↦ rw (e, f) (record { kept = wakelike-IsTable c _ uaddr val 0 0 _ s v })
        | inr f ↦ elim (Bool-cases (command op == 3)) [
          | inl g ↦
              rw (e, f, g) (record { kept = wakelike-IsTable c _ uaddr val val2 uaddr2 _ s v })
          | inr g ↦ rw (e, f, g) (record { kept = v })
        ]
      ]
    ]

sys_futex-IsKept :
    (c : Caller) (uaddr op val val2 uaddr2 val3 : ℕ) (s : Table)
    → IsIdle c.wait s
    → IsTable no_refs s
    → IsKept (sys_futex c uaddr op val val2 uaddr2 val3 s)
unfolding sys_futex
sys_futex-IsKept c uaddr op val val2 uaddr2 val3 s idle v =
    let cmd = command op in
    let go = switch-IsKept c uaddr op val val2 uaddr2 val3 s (read_timeout c cmd val2) idle v in
    elim (Bool-cases (not (uaddr % 4 == 0))) [
      | inl e ↦ rw e (record { kept = v })
      | inr e ↦ elim (Bool-cases (clock_realtime op && not (cmd == 9))) [
        | inl f ↦ rw (e, f) (record { kept = v })
        | inr f ↦ elim (Bool-cases ((cmd == 9 || cmd == 10) && val3 == 0)) [
          | inl g ↦ rw (e, f, g) (record { kept = v })
          | inr g ↦ rw (e, f, g) go
        ]
      ]
    ]

-- What the tasks do with the futexes: calls of `futex` by tasks that are in no wait, and the ends of waits,
-- woken or not, in any order.
pub data Reaches : Table → Table → Type 0 where
  here : {s : Table} → Reaches s s
  call :
      {s t : Table}
      → Reaches s t
      → (c : Caller) (uaddr op val val2 uaddr2 val3 : ℕ) → IsIdle c.wait t
      → Reaches s (table (sys_futex c uaddr op val val2 uaddr2 val3 t))
  wait_end :
      {s t : Table} → Reaches s t → (w : ℕ) → 0 < times w t.live → Reaches s (futex_wait_end w t)

-- The table of futexes stays well formed, whatever calls of futex the tasks make and however their waits
-- end, in any order: the reference count of each futex is the number of the waits on it, queued waits
-- are waits on their futex, no futex is there twice for an address, the hash table has just those with a
-- reference, and no assertion fails. Fewer than 2 ^ 32 - 5 tasks wait at a time.
pub Reaches-IsTable : {s t : Table} → Reaches s t → IsTable no_refs s → IsTable no_refs t
Reaches-IsTable here v = v
Reaches-IsTable (call r c uaddr op val val2 uaddr2 val3 idle) v =
    (sys_futex-IsKept c uaddr op val val2 uaddr2 val3 _ idle (Reaches-IsTable r v)).kept
Reaches-IsTable (wait_end r w live) v =
    wait_end-IsTable no_refs w _ (λ q. omega arith) live (Reaches-IsTable r v)

abbrev pub no_futexes : Table
no_futexes = record {
  futexes = λ p. record { refcount = 0; mem = 0; addr = 0; queue = [] };
  chain = [];
  next = 0;
  waits = λ w. record { futex = 0; bitset = 0 };
  live = [];
  notified = [];
  asserts = true;
}

pub no_futexes-IsTable : IsTable no_refs no_futexes
no_futexes-IsTable = record {
  counted = λ p. refl;
  queued = λ p w. ground arith;
  once = λ w. ground arith;
  chained = λ p. refl;
  keyed = λ p q a b. absurd (omega arith);
  fresh = λ p le. refl;
  sound = refl;
  few = omega arith;
}

-- Once no task waits, no futex is left over: from the empty table, any sequence of calls of futex and of
-- ends of waits after which no wait is left leaves the hash table empty, and no assertion has failed.
pub no_futex_left :
    {t : Table} → Reaches no_futexes t → t.live ≡ [] → (t.chain ≡ []) × (t.asserts ≡ true)
no_futex_left {t} r idle =
    let v = Reaches-IsTable r no_futexes-IsTable in (times-none t.chain (λ p. unused p v), v.sound)
  where
    unused : (p : ℕ) → IsTable no_refs t → times p t.chain ≡ 0
    unused p v =
        let none_on : users t.waits t.live p ≡ 0 = rw idle refl in
        ground (arith, v.chained p, v.counted p, none_on)
