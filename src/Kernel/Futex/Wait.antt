-- ===== src/Kernel/Futex/Wait.antt =====
-- What waiting on a futex of kernel/futex.c does to the queues, how long it waits, and what `futex` refuses.
use codex_for_ipad.Prelude.{
  ℕ, ◌+◌, ◌-◌, ◌*◌, ◌<◌, ◌≡◌, refl, ◌∙◌, ap, ◌⊎◌, ◌≢◌, Bool, true, ◌&&◌, Option, none, some, [],
  ◌∷◌, ◌++◌, arith, ◌==◌, ltb, if◌then◌else◌, inl, inr, Bool-cases, ==_iff,
}
use mathlib.Core.Path.{subst}
use codex_for_ipad.Prelude.Int.{pos, ◌+ℤ◌, ◌-ℤ◌}
use codex_for_ipad.Prelude.Errno.{failure, efault, eagain}
use codex_for_ipad.Kernel.Futex.{
  Table, assertion, Timespec, until, Caller, Outcome, returned, waiting, enqueue, wait_loaded,
  wait_got, futex_wait,
}
use codex_for_ipad.Kernel.Futex.Invariant.{IsTable, hold, IsGot, get-IsGot}
use codex_for_ipad.Kernel.Futex.Steps.{enqueue-IsTable}
use codex_for_ipad.Kernel.Futex.Safety.{no_refs, asserted-IsTable, IsIdle}
use codex_for_ipad.Kernel.Futex.View.{queue_at, IsAt, IsAt-queue, asserted-queue_at}
use codex_for_ipad.Kernel.Futex.Change.{IsAlike, one-queue_at, put-queue_at, got-queue_at}
use codex_for_ipad.Kernel.Futex.Wake.{get_room, got-IsAt}

-- A wait that is queued behind those at the address, since the word there has the value that is expected; and a call
-- that fails and leaves the queues alone, since the word cannot be read or has another value.
abbrev pub IsWaited : Caller → ℕ → ℕ → Table → Outcome → Type 0
IsWaited c uaddr val s (waiting t timeout) =
    (c.load uaddr ≡ some val)
    × ((m a : ℕ)
        → queue_at t m a ≡ (
            if m == c.mem && a == uaddr
            then queue_at s c.mem uaddr ++ c.wait ∷ []
            else queue_at s m a))
IsWaited c uaddr val s (returned t r) =
    (((c.load uaddr ≡ none) × (r ≡ failure efault))
      ⊎ ((x : ℕ) × (c.load uaddr ≡ some x) × (x ≢ val) × (r ≡ failure eagain)))
    × ((m a : ℕ) → queue_at t m a ≡ queue_at s m a)

enqueue-IsAlike : (w p bitset : ℕ) (s : Table) → IsAlike s (enqueue w p bitset s)
enqueue-IsAlike w p bitset s = record {
  used = λ q. ground arith;
  unused = λ q. ground arith;
  mems = λ q. ground arith;
  addrs = λ q. ground arith;
}

loaded-IsWaited :
    (c : Caller) (uaddr val bitset p : ℕ) (t : Option Timespec) (s u : Table) (word : Option ℕ)
    → IsIdle c.wait u
    → IsTable (hold p no_refs) u
    → IsAt u c.mem uaddr p
    → ((m a : ℕ) → queue_at u m a ≡ queue_at s m a)
    → c.load uaddr ≡ word
    → IsWaited c uaddr val s (wait_loaded c.wait val bitset t p u word)
unfolding wait_loaded
loaded-IsWaited c uaddr val bitset p t s u none idle v at same l =
    (inl (l, refl), λ m a. put-queue_at no_refs p u (λ q. omega arith) v m a ∙ same m a)
loaded-IsWaited c uaddr val bitset p t s u (some x) idle v at same l =
    elim (Bool-cases (x == val)) [
      | inl e ↦ rw e (
        l ∙ ap some ((==_iff x val).0 e),
        λ m a.
            one-queue_at u (enqueue c.wait p bitset u) c.mem uaddr p
              ((u.futexes p).queue ++ c.wait ∷ []) (enqueue-IsAlike c.wait p bitset u) at
              (λ q. ground arith) v (enqueue-IsTable no_refs c.wait p bitset u idle.0 idle.1 v) m a
            ∙ rw (← IsAt-queue u c.mem uaddr p v at, same m a, same c.mem uaddr) refl,
      )
      | inr e ↦ rw e (
        inr (x, l, ground arith, refl),
        λ m a. put-queue_at no_refs p u (λ q. omega arith) v m a ∙ same m a,
      )
    ]

-- FUTEX_WAIT, with memory for a futex, by a task that is in no other wait: if the word at the address has the value
-- that is expected, the wait is queued behind those that are there and no other queue changes;
-- otherwise the call fails, with EFAULT if the word cannot be read and with EAGAIN if it differs, and
-- changes no queue.
pub futex_wait-IsWaited :
    (c : Caller) (uaddr val : ℕ) (timeout : Option Timespec) (bitset : ℕ) (absolute realtime : Bool)
    (s : Table)
    → c.room ≡ true
    → IsIdle c.wait s
    → IsTable no_refs s
    → IsWaited c uaddr val s (futex_wait c uaddr val timeout bitset absolute realtime s)
unfolding futex_wait wait_got
futex_wait-IsWaited c uaddr val timeout bitset absolute realtime s room idle v =
    let (p, u, e) = get_room c.mem uaddr s in
    let g =
      subst (IsGot no_refs c.mem uaddr s) e
        (get-IsGot no_refs true c.mem uaddr s (λ q. omega arith) v) in
    let same = got-queue_at no_refs c.mem uaddr p s u v g in
    let at = got-IsAt no_refs c.mem uaddr p s u v g in
    let b = (u.futexes p).mem == c.mem in
    rw (room, e)
      (loaded-IsWaited c uaddr val bitset p _ s (assertion b u) (c.load (u.futexes p).addr)
        (rw g.4 idle) (asserted-IsTable (hold p no_refs) b u (ground (arith, g.1)) g.0)
        (record { used = at.0.used; same_mem = g.1; same_addr = g.2 })
        (λ m a. asserted-queue_at b u m a ∙ same m a) (rw g.2 refl))

-- The time to wait for an absolute timeout is exact: from the time `now` it is the difference, and nothing for a timeout
-- that has passed; its nanoseconds stay below 10 ^ 9. Neither time is negative, and the nanoseconds of
-- both are below 10 ^ 9.
pub until-exact :
    (now_sec now_nsec sec nsec : ℕ)
    → now_nsec < 1000000000
    → nsec < 1000000000
    → let r =
        until
          (record { tv_sec = pos now_sec; tv_nsec = pos now_nsec })
          (record { tv_sec = pos sec; tv_nsec = pos nsec }) in
      (s : ℕ) × (n : ℕ) × (r ≡ record { tv_sec = pos s; tv_nsec = pos n })
      × (n < 1000000000)
      × (s * 1000000000 + n ≡ sec * 1000000000 + nsec - (now_sec * 1000000000 + now_nsec))
unfolding until ◌+ℤ◌ ◌-ℤ◌
until-exact now_sec now_nsec sec nsec a b = elim (Bool-cases (ltb nsec now_nsec)) [
  | inl e ↦ elim (Bool-cases (ltb now_sec sec)) [
    | inl f ↦
        (sec - now_sec - 1, nsec + 1000000000 - now_nsec, ground arith, ground arith, ground arith)
    | inr f ↦ (0, 0, ground arith, ground arith, ground arith)
  ]
  | inr e ↦ elim (Bool-cases (ltb sec now_sec)) [
    | inl f ↦ (0, 0, ground arith, ground arith, ground arith)
    | inr f ↦ (sec - now_sec, nsec - now_nsec, ground arith, ground arith, ground arith)
  ]
]
