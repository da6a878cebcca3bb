-- ===== src/Kernel/Futex/Change.antt =====
-- How the parts of the calls of kernel/futex.c change the queues.
use codex_for_ipad.Prelude.{
  ℕ, ◌≤◌, ◌<◌, ◌≡◌, sym, ◌∙◌, ap, ◌⊎◌, true, false, ◌&&◌, some, List, [], arith, ◌==◌,
  if◌then◌else◌, inl, inr, Option-cases, Bool-cases,
}
use codex_for_ipad.Kernel.Futex.{Table, find_futex, futex_put}
use codex_for_ipad.Kernel.Futex.Invariant.{IsTable, hold, IsGot, put-IsTable, empty_queue}
use codex_for_ipad.Kernel.Futex.View.{
  queue_at, IsAt, IsSame, find_futex-IsAt, IsAt-find_futex, IsAt-queue, missing-queue,
  IsSame-queue_at,
}

-- The same futexes are used, for the same addresses.
pub record IsAlike (s t : Table) : Type 0 where
  pub used : (q : ℕ) → 0 < (s.futexes q).refcount → 0 < (t.futexes q).refcount
  pub unused : (q : ℕ) → (s.futexes q).refcount ≡ 0 → (t.futexes q).refcount ≡ 0
  pub mems : (q : ℕ) → (t.futexes q).mem ≡ (s.futexes q).mem
  pub addrs : (q : ℕ) → (t.futexes q).addr ≡ (s.futexes q).addr

module _ (s t : Table) (m : IsAlike s t) where
  still : (mem addr q : ℕ) → IsAt s mem addr q → IsAt t mem addr q
  still mem addr q a = record {
    used = m.used q a.used;
    same_mem = m.mems q ∙ a.same_mem;
    same_addr = m.addrs q ∙ a.same_addr;
  }

  back : (mem addr q : ℕ) → IsAt t mem addr q → IsAt s mem addr q
  back mem addr q a = record {
    used = let k = a.used in ground (arith, k, m.unused q);
    same_mem = sym (m.mems q) ∙ a.same_mem;
    same_addr = sym (m.addrs q) ∙ a.same_addr;
  }

  -- The queue of an address, if it is `l` for the futex there, or if `l` is empty and none is there.
  pub IsAlike-queue_at :
      {held held' : ℕ → ℕ}
      → IsTable held s
      → IsTable held' t
      → (mem addr : ℕ) (l : List ℕ) → ((q : ℕ) → IsAt s mem addr q → (t.futexes q).queue ≡ l)
      → (((q : ℕ) → IsAt s mem addr q → ⊥) → [] ≡ l)
      → queue_at t mem addr ≡ l
  IsAlike-queue_at v w mem addr l there nowhere =
      elim (Option-cases (find_futex t.futexes mem addr t.chain)) [
        | inl e ↦
            missing-queue t mem addr e
            ∙ nowhere (λ q a. let f = IsAt-find_futex t mem addr q w (still mem addr q a) in cc)
        | inr (q, e) ↦
            let b = find_futex-IsAt t mem addr q w e in
            IsAt-queue t mem addr q w b ∙ there q (back mem addr q b)
      ]

-- The one futex of an address.
pub IsAt-unique :
    {held : ℕ → ℕ} (s : Table) (mem addr p q : ℕ)
    → IsTable held s
    → IsAt s mem addr p
    → IsAt s mem addr q
    → p ≡ q
IsAt-unique s mem addr p q v a b =
    v.keyed p q a.used b.used (a.same_mem ∙ sym b.same_mem) (a.same_addr ∙ sym b.same_addr)

pub nowhere-queue_at :
    {held : ℕ → ℕ} (s : Table) (mem addr : ℕ)
    → IsTable held s
    → ((q : ℕ) → IsAt s mem addr q → ⊥)
    → queue_at s mem addr ≡ []
nowhere-queue_at s mem addr v none_at =
    elim (Option-cases (find_futex s.futexes mem addr s.chain)) [
      | inl e ↦ missing-queue s mem addr e
      | inr (q, e) ↦ absurd (none_at q (find_futex-IsAt s mem addr q v e))
    ]

-- If the queue of just one futex changes, just the queue of its address does.
pub one-queue_at :
    {held held' : ℕ → ℕ} (s t : Table) (mem addr p : ℕ) (l : List ℕ)
    → IsAlike s t
    → IsAt s mem addr p
    → ((q : ℕ) → (t.futexes q).queue ≡ (if q == p then l else (s.futexes q).queue))
    → IsTable held s
    → IsTable held' t
    → (m a : ℕ) → queue_at t m a ≡ (if m == mem && a == addr then l else queue_at s m a)
one-queue_at s t mem addr p l alike at queues v w m a = elim (Bool-cases (m == mem && a == addr)) [
  | inl e ↦
      let here : IsAt s m a p = record {
        used = at.used;
        same_mem = at.same_mem ∙ ground arith;
        same_addr = at.same_addr ∙ ground arith;
      } in
      rw e (
        IsAlike-queue_at s t alike v w m a l
          (λ q b. queues q ∙ (let one = IsAt-unique s m a q p v b here in ground (arith, one)))
          (λ none_at. absurd (none_at p here)))
  | inr e ↦ rw e (
      IsAlike-queue_at s t alike v w m a (queue_at s m a)
        (λ q b. queues q ∙ other q b (Bool-cases (q == p)) e)
        (λ none_at. sym (nowhere-queue_at s m a v none_at)))
]
  where
    other :
        (q : ℕ)
        → IsAt s m a q
        → (((q == p) ≡ true) ⊎ ((q == p) ≡ false))
        → (m == mem && a == addr) ≡ false
        → (if q == p then l else (s.futexes q).queue) ≡ queue_at s m a
    other q b (inl f) e =
        let x = at.same_mem in
        let y = at.same_addr in
        let x' = b.same_mem in
        let y' = b.same_addr in
        let one : q ≡ p = ground arith in
        absurd (ground (arith, ap (λ r. (s.futexes r).mem) one, ap (λ r. (s.futexes r).addr) one))
    other q b (inr f) e = rw f (sym (IsAt-queue s m a q v b))

-- Calls that leave all queues alone have no effect on those that the table stands for.
module _ (held held' : ℕ → ℕ) (s t : Table) where
  pub untouched-queue_at :
      IsTable held s
      → IsTable held' t
      → ((q : ℕ) → (t.futexes q).queue ≡ (s.futexes q).queue)
      → ((q : ℕ)
          → 0 < (s.futexes q).refcount
          → 0 < (t.futexes q).refcount
          → ((s.futexes q).mem ≡ (t.futexes q).mem) × ((s.futexes q).addr ≡ (t.futexes q).addr))
      → (mem addr : ℕ) → queue_at t mem addr ≡ queue_at s mem addr
  untouched-queue_at v w queues keys mem addr = sym (IsSame-queue_at s t v w same mem addr)
    where
      same : (q : ℕ) → IsSame s t q
      same q = record {
        both = λ a b. let k = keys q a b in (k.0, k.1, sym (queues q));
        before = λ z. sym (queues q) ∙ empty_queue held' q t z w;
        after = λ z. queues q ∙ empty_queue held q s z v;
      }

pub put-queue_at :
    (held : ℕ → ℕ) (p : ℕ) (s : Table)
    → ((q : ℕ) → held q ≤ 2)
    → IsTable (hold p held) s
    → (mem addr : ℕ) → queue_at (futex_put p s) mem addr ≡ queue_at s mem addr
unfolding futex_put
put-queue_at held p s small v =
    untouched-queue_at (hold p held) held s (futex_put p s) v (put-IsTable held p s small v)
      (λ q. ground arith) (λ q a b. ground arith)

pub got-queue_at :
    (held : ℕ → ℕ) (mem addr p : ℕ) (s t : Table)
    → IsTable held s
    → IsGot held mem addr s (some p, t)
    → (m a : ℕ) → queue_at t m a ≡ queue_at s m a
got-queue_at held mem addr p s t v g = untouched-queue_at held (hold p held) s t v g.0 g.5 g.6
