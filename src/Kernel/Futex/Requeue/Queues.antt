-- ===== src/Kernel/Futex/Requeue/Queues.antt =====
-- The queues of two tables that differ in those of two futexes.
use codex_for_ipad.Prelude.{
  ℕ, ◌≡◌, sym, ◌∙◌, ap, ◌≢◌, true, false, ◌&&◌, List, arith, ◌==◌, if◌then◌else◌, inl, inr,
  Bool-cases,
}
use codex_for_ipad.Kernel.Futex.Requeue.{IsRequeued}
use codex_for_ipad.Kernel.Futex.{Table}
use codex_for_ipad.Kernel.Futex.Invariant.{IsTable, hold}
use codex_for_ipad.Kernel.Futex.View.{queue_at, IsAt, IsAt-queue}
use codex_for_ipad.Kernel.Futex.Change.{IsAlike, IsAlike-queue_at, IsAt-unique, nowhere-queue_at}

same_address : (m a mem addr : ℕ) → (m == mem && a == addr) ≡ true → (m ≡ mem) × (a ≡ addr)
same_address m a mem addr e = (ground arith, ground arith)

-- If the queues of just two futexes change, just those of their addresses do.
pub two-queue_at :
    {held held' : ℕ → ℕ} (s t : Table) (mem addr addr2 p p2 : ℕ)
    → IsAlike s t
    → IsAt s mem addr p
    → IsAt s mem addr2 p2
    → ((r : ℕ) → r ≢ p → r ≢ p2 → (t.futexes r).queue ≡ (s.futexes r).queue)
    → IsTable held s
    → IsTable held' t
    → (m a : ℕ)
    → queue_at t m a ≡ (
        if m == mem && a == addr
        then (t.futexes p).queue
        else if m == mem && a == addr2
        then (t.futexes p2).queue
        else queue_at s m a)
two-queue_at s t mem addr addr2 p p2 alike at at2 others v w m a =
    elim (Bool-cases (m == mem && a == addr)) [
      | inl e ↦
          let k = same_address m a mem addr e in
          let here : IsAt s m a p = record {
            used = at.used;
            same_mem = at.same_mem ∙ sym k.0;
            same_addr = at.same_addr ∙ sym k.1;
          } in
          rw e (at_one p here)
      | inr e ↦ elim (Bool-cases (m == mem && a == addr2)) [
        | inl f ↦
            let k = same_address m a mem addr2 f in
            let here : IsAt s m a p2 = record {
              used = at2.used;
              same_mem = at2.same_mem ∙ sym k.0;
              same_addr = at2.same_addr ∙ sym k.1;
            } in
            rw (e, f) (at_one p2 here)
        | inr f ↦
            rw (e, f)
              (IsAlike-queue_at s t alike v w m a (queue_at s m a)
                (λ q b.
                  others q (not_there at b e) (not_there at2 b f) ∙ sym (IsAt-queue s m a q v b))
                (λ none_at. sym (nowhere-queue_at s m a v none_at)))
      ]
    ]
  where
    at_one : (r : ℕ) → IsAt s m a r → queue_at t m a ≡ (t.futexes r).queue
    at_one r here =
        IsAlike-queue_at s t alike v w m a (t.futexes r).queue
          (λ q b. ap (λ x. (t.futexes x).queue) (IsAt-unique s m a q r v b here))
          (λ none_at. absurd (none_at r here))

    not_there : {d r q : ℕ} → IsAt s mem d r → IsAt s m a q → (m == mem && a == d) ≡ false → q ≢ r
    not_there x b e one =
        let x1 = x.same_mem in
        let x2 = x.same_addr in
        let b1 = b.same_mem in
        let b2 = b.same_addr in
        absurd (ground (arith, ap (λ r. (s.futexes r).mem) one, ap (λ r. (s.futexes r).addr) one))

-- The futexes that requeueing leaves, which holds references to both futexes.
pub requeued-IsAlike :
    (held : ℕ → ℕ) (k p p2 : ℕ) (q : List ℕ) (s t : Table) (moved : ℕ)
    → IsTable (hold p2 (hold p held)) s
    → IsTable (hold p2 (hold p held)) t
    → IsRequeued k p p2 q s t moved
    → IsAlike s t
requeued-IsAlike held k p p2 q s t moved v w h = record {
  used = λ r u. ground (arith, h.refs r, w.counted r);
  unused = λ r u. ground (arith, h.refs r, v.counted r);
  mems = h.mems;
  addrs = h.addrs;
}
