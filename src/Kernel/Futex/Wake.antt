-- ===== src/Kernel/Futex/Wake.antt =====
-- What waiting, waking and requeueing on a futex of kernel/futex.c do to the queues.
use codex_for_ipad.Prelude.{
  ℕ, zero, suc, ◌+◌, ◌%◌, ◌^◌, ◌≤◌, ◌<◌, ◌≡◌, refl, sym, ◌∙◌, ap, ◌⊎◌, ◌≢◌, Bool, true, false, not,
  ◌&&◌, some, List, [], ◌∷◌, ◌++◌, arith, ◌==◌, leb, if◌then◌else◌, length, inl, inr, Option-cases,
  Bool-cases,
}
use mathlib.Core.Path.{subst}
use codex_for_ipad.Prelude.Int.{ℤ, pos}
use codex_for_ipad.Kernel.Futex.{
  Table, find_futex, futex_put, futex_get_unlocked, Caller, returned, wake_loop, overlap, get_found,
}
use codex_for_ipad.Kernel.Futex.Calls.{wake_queue, wakelike_got, futex_wakelike, matches}
use codex_for_ipad.Kernel.Futex.Invariant.{IsTable, hold, IsGot, get-IsGot}
use codex_for_ipad.Kernel.Futex.Steps.{wake_queue-IsTable}
use codex_for_ipad.Kernel.Futex.Safety.{no_refs}
use codex_for_ipad.Kernel.Futex.View.{queue_at, IsAt, IsAt-queue}
use codex_for_ipad.Kernel.Futex.Change.{IsAlike, one-queue_at, put-queue_at, got-queue_at}

abbrev pub filter : (ℕ → Bool) → List ℕ → List ℕ
filter m [] = []
filter m (w ∷ ws) = if m w then w ∷ filter m ws else filter m ws

-- `woken` are the first waits of the queue `q` that match, in its order: those of a first part of it, which ends where
-- `wake_max` are found or the queue ends. The others stay, in their order.
pub record IsWoken (m : ℕ → Bool) (wake_max : ℕ) (q kept woken : List ℕ) : Type 0 where
  pub first : List ℕ
  pub rest : List ℕ
  pub whole : q ≡ first ++ rest
  pub woken_first : woken ≡ filter m first
  pub kept_rest : kept ≡ filter (λ w. not (m w)) first ++ rest
  pub most : length woken ≤ wake_max
  pub enough : (length woken ≡ wake_max) ⊎ (rest ≡ [])

wake_loop-IsWoken :
    (m : ℕ → Bool) (k n : ℕ) (q : List ℕ)
    → IsWoken m k q (wake_loop m (n + k) n q).0 (wake_loop m (n + k) n q).1
unfolding wake_loop
wake_loop-IsWoken m k n [] = record {
  first = [];
  rest = [];
  whole = refl;
  woken_first = refl;
  kept_rest = refl;
  most = omega arith;
  enough = inr refl;
}
wake_loop-IsWoken m zero n (w ∷ q) =
    let stop : leb (n + 0) n ≡ true = ground arith in
    rw stop (record {
      first = [];
      rest = w ∷ q;
      whole = refl;
      woken_first = refl;
      kept_rest = refl;
      most = omega arith;
      enough = inl refl;
    })
wake_loop-IsWoken m (suc k) n (w ∷ q) =
    let go : leb (n + suc k) n ≡ false = ground arith in
    elim (Bool-cases (m w)) [
      | inl e ↦
          let ih = wake_loop-IsWoken m k (suc n) q in
          let same : suc n + k ≡ n + suc k = omega arith in
          let ih' =
            subst (λ x. IsWoken m k q (wake_loop m x (suc n) q).0 (wake_loop m x (suc n) q).1) same
              ih in
          rw (go, e)
            (record {
              first = w ∷ ih'.first;
              rest = ih'.rest;
              whole = ap (◌∷◌ w) ih'.whole;
              woken_first = rw e (ap (◌∷◌ w) ih'.woken_first);
              kept_rest = rw e ih'.kept_rest;
              most = omega (arith, ih'.most);
              enough = ground (arith, ih'.enough);
            })
      | inr e ↦
          let ih = wake_loop-IsWoken m (suc k) n q in
          rw (go, e)
            (record {
              first = w ∷ ih.first;
              rest = ih.rest;
              whole = ap (◌∷◌ w) ih.whole;
              woken_first = rw e ih.woken_first;
              kept_rest = rw e (ap (◌∷◌ w) ih.kept_rest);
              most = ih.most;
              enough = ih.enough;
            })
    ]

wake_start :
    (m : ℕ → Bool) (k : ℕ) (q : List ℕ) → IsWoken m k q (wake_loop m k 0 q).0 (wake_loop m k 0 q).1
wake_start m k q =
    let same : 0 + k ≡ k = omega arith in
    subst (λ x. IsWoken m k q (wake_loop m x 0 q).0 (wake_loop m x 0 q).1) same
      (wake_loop-IsWoken m k 0 q)

pub get_room :
    (mem addr : ℕ) (s : Table)
    → (p : ℕ) × (t : Table) × (futex_get_unlocked true mem addr s ≡ (some p, t))
unfolding futex_get_unlocked get_found
get_room mem addr s = elim (Option-cases (find_futex s.futexes mem addr s.chain)) [
  | inl e ↦ rw e (_, _, refl)
  | inr (p, e) ↦ rw e (_, _, refl)
]

-- The futex that `futex_get_unlocked` has given is the one of the address, and its queue is the one there.
pub got-IsAt :
    (held : ℕ → ℕ) (mem addr p : ℕ) (s t : Table)
    → IsTable held s
    → IsGot held mem addr s (some p, t)
    → IsAt t mem addr p × ((t.futexes p).queue ≡ queue_at s mem addr)
got-IsAt held mem addr p s t v g =
    let at : IsAt t mem addr p = record {
      used = ground (arith, g.0.counted p);
      same_mem = g.1;
      same_addr = g.2;
    } in
    (at, sym (IsAt-queue t mem addr p g.0 at) ∙ got-queue_at held mem addr p s t v g mem addr)

wake_queue-IsAlike :
    (p wake_max bitset : ℕ) (s : Table) → IsAlike s (wake_queue p wake_max bitset s).0
unfolding wake_queue
wake_queue-IsAlike p wake_max bitset s = record {
  used = λ q. ground arith;
  unused = λ q. ground arith;
  mems = λ q. ground arith;
  addrs = λ q. ground arith;
}

pub wake_queue-IsAt :
    (p wake_max bitset mem addr : ℕ) (s : Table)
    → IsAt s mem addr p
    → IsAt (wake_queue p wake_max bitset s).0 mem addr p
wake_queue-IsAt p wake_max bitset mem addr s at =
    let a = wake_queue-IsAlike p wake_max bitset s in
    record {
      used = a.used p at.used;
      same_mem = a.mems p ∙ at.same_mem;
      same_addr = a.addrs p ∙ at.same_addr;
    }

-- What a wake does at an address: `t` is the table behind it, which returns `r`.
pub record IsWake (m : ℕ → Bool) (wake_max mem addr : ℕ) (s t : Table) (r : ℤ) : Type 0 where
  pub kept : List ℕ
  pub woken : List ℕ
  pub split : IsWoken m wake_max (queue_at s mem addr) kept woken
  pub result : r ≡ pos (length woken)
  pub notified : t.notified ≡ woken ++ s.notified
  pub queues : (m a : ℕ) → queue_at t m a ≡ (if m == mem && a == addr then kept else queue_at s m a)

pub queue_woken :
    (held : ℕ → ℕ) (mem addr p wake_max bitset : ℕ) (s u : Table)
    → wake_max < 2 ^ 32
    → IsTable held s
    → IsGot held mem addr s (some p, u)
    → let r = wake_queue p wake_max bitset u in
      (w : IsWake (matches s bitset) wake_max mem addr s r.0 (pos (r.1 % 2 ^ 32))) × (r.1
        ≡ length w.woken)
unfolding wake_queue
queue_woken held mem addr p wake_max bitset s u small v g =
    let at = got-IsAt held mem addr p s u v g in
    let q = (u.futexes p).queue in
    let loop = wake_loop (matches u bitset) wake_max 0 q in
    let woken = wake_start (matches u bitset) wake_max q in
    let few : length loop.1 < 2 ^ 32 = omega (arith, woken.most) in
    (
      record {
        kept = loop.0;
        woken = loop.1;
        split =
            subst (λ x. IsWoken (matches s bitset) wake_max x loop.0 loop.1) at.1
              (subst (λ x. IsWoken (λ w. overlap 32 (x w).bitset bitset) wake_max q loop.0 loop.1)
                g.3 woken);
        result = ap pos (omega arith);
        notified = ap (λ x. loop.1 ++ x) g.7;
        queues = λ m a.
            one-queue_at u _ mem addr p loop.0 (wake_queue-IsAlike p wake_max bitset u) at.0
              (λ r. ground arith) g.0 (wake_queue-IsTable (hold p held) p wake_max bitset u g.0) m a
            ∙ ap (λ x. if m == mem && a == addr then loop.0 else x)
                (got-queue_at held mem addr p s u v g m a);
      },
      refl,
    )

pub put_notified : (p : ℕ) (s : Table) → (futex_put p s).notified ≡ s.notified
unfolding futex_put
put_notified p s = ground arith

-- FUTEX_WAKE and FUTEX_WAKE_BITSET, with memory for a futex: the first waits of the queue at the address that share a
-- bit with the bitset are notified and leave the queue, as many as are asked for or as there are; the call
-- returns their number, the others stay in their order, and no other queue changes.
pub futex_wakelike-IsWake :
    (c : Caller) (op uaddr wake_max bitset : ℕ) (s : Table)
    → op ≢ 3
    → c.room ≡ true
    → wake_max < 2 ^ 32
    → IsTable no_refs s
    → (t : Table) × (r : ℤ) × (futex_wakelike c op uaddr wake_max 0 0 bitset s ≡ returned t r)
      × IsWake (matches s bitset) wake_max c.mem uaddr s t r
unfolding futex_wakelike wakelike_got
futex_wakelike-IsWake c op uaddr wake_max bitset s wakes room small v =
    let (p, u, e) = get_room c.mem uaddr s in
    let g =
      subst (IsGot no_refs c.mem uaddr s) e
        (get-IsGot no_refs true c.mem uaddr s (λ q. omega arith) v) in
    let test : (op == 3) ≡ false = ground arith in
    let (w, few) = queue_woken no_refs c.mem uaddr p wake_max bitset s u small v g in
    let r = wake_queue p wake_max bitset u in
    let kept = wake_queue-IsTable (hold p no_refs) p wake_max bitset u g.0 in
    rw (room, e, test)
      (
        _,
        _,
        refl,
        record {
          kept = w.kept;
          woken = w.woken;
          split = w.split;
          result = w.result;
          notified = put_notified p r.0 ∙ w.notified;
          queues = λ m a. put-queue_at no_refs p r.0 (λ q. omega arith) kept m a ∙ w.queues m a;
        },
      )
