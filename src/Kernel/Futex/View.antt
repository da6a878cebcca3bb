-- ===== src/Kernel/Futex/View.antt =====
-- What the table of kernel/futex.c stands for: for each address of an address space, the queue of waits there.
use codex_for_ipad.Prelude.{
  ℕ, ◌<◌, ◌≡◌, refl, sym, ◌∙◌, Bool, Option, none, some, List, [], arith, ltb, inl, inr,
  Option-cases, Bool-cases,
}
use codex_for_ipad.Kernel.Futex.{Table, assertion, find_futex}
use codex_for_ipad.Kernel.Futex.Counts.{find_futex-found, find_futex-missing}
use codex_for_ipad.Kernel.Futex.Invariant.{IsTable}

abbrev pub queue_of : Table → Option ℕ → List ℕ
queue_of s none = []
queue_of s (some p) = (s.futexes p).queue

-- The queue of the waits at an address.
pub queue_at : Table → ℕ → ℕ → List ℕ
queue_at s mem addr = queue_of s (find_futex s.futexes mem addr s.chain)

pub asserted-queue_at :
    (b : Bool) (s : Table) (mem addr : ℕ) → queue_at (assertion b s) mem addr ≡ queue_at s mem addr
unfolding queue_at
asserted-queue_at b s mem addr = refl

-- The futex `p` is the one of an address.
pub record IsAt (s : Table) (mem addr p : ℕ) : Type 0 where
  pub used : 0 < (s.futexes p).refcount
  pub same_mem : (s.futexes p).mem ≡ mem
  pub same_addr : (s.futexes p).addr ≡ addr

pub missing-queue :
    (s : Table) (mem addr : ℕ)
    → find_futex s.futexes mem addr s.chain ≡ none
    → queue_at s mem addr ≡ []
unfolding queue_at
missing-queue s mem addr e = rw e refl

module _ {held : ℕ → ℕ} where
  pub find_futex-IsAt :
      (s : Table) (mem addr p : ℕ)
      → IsTable held s
      → find_futex s.futexes mem addr s.chain ≡ some p
      → IsAt s mem addr p
  find_futex-IsAt s mem addr p v e =
      let f = find_futex-found s.futexes mem addr p s.chain e in
      record { used = ground (arith, f.0, v.chained p); same_mem = f.1; same_addr = f.2 }

  pub IsAt-find_futex :
      (s : Table) (mem addr p : ℕ)
      → IsTable held s
      → IsAt s mem addr p
      → find_futex s.futexes mem addr s.chain ≡ some p
  IsAt-find_futex s mem addr p v a = elim (Option-cases (find_futex s.futexes mem addr s.chain)) [
    | inl e ↦
        let gone = find_futex-missing s.futexes mem addr p s.chain e a.same_mem a.same_addr in
        absurd (ground (arith, v.chained p, a.used, gone))
    | inr (q, e) ↦
        let b = find_futex-IsAt s mem addr q v e in
        let same : q ≡ p =
          v.keyed q p b.used a.used (b.same_mem ∙ sym a.same_mem) (b.same_addr ∙ sym a.same_addr) in
        rw e (rw same refl)
  ]

  pub IsAt-queue :
      (s : Table) (mem addr p : ℕ)
      → IsTable held s
      → IsAt s mem addr p
      → queue_at s mem addr ≡ (s.futexes p).queue
  unfolding queue_at
  IsAt-queue s mem addr p v a = rw (IsAt-find_futex s mem addr p v a) refl

-- Futexes of two tables that both are used are the same, and one that is used in just one has no waits.
pub record IsSame (s t : Table) (p : ℕ) : Type 0 where
  pub both :
      0 < (s.futexes p).refcount
      → 0 < (t.futexes p).refcount
      → ((s.futexes p).mem ≡ (t.futexes p).mem)
        × ((s.futexes p).addr ≡ (t.futexes p).addr)
        × ((s.futexes p).queue ≡ (t.futexes p).queue)
  pub before : (t.futexes p).refcount ≡ 0 → (s.futexes p).queue ≡ []
  pub after : (s.futexes p).refcount ≡ 0 → (t.futexes p).queue ≡ []

swap : (s t : Table) (p : ℕ) → IsSame s t p → IsSame t s p
swap s t p same = record {
  both = λ a b. let h = same.both b a in (sym h.0, sym h.1, sym h.2);
  before = same.after;
  after = same.before;
}

module _ {held held' : ℕ → ℕ} where
  one_side :
      (s t : Table)
      → IsTable held s
      → IsTable held' t
      → ((p : ℕ) → IsSame s t p)
      → (mem addr : ℕ) → find_futex t.futexes mem addr t.chain ≡ none
      → queue_at s mem addr ≡ []
  one_side s t v w same mem addr e = elim (Option-cases (find_futex s.futexes mem addr s.chain)) [
    | inl f ↦ missing-queue s mem addr f
    | inr (p, f) ↦
        let a = find_futex-IsAt s mem addr p v f in
        IsAt-queue s mem addr p v a ∙ (same p).before (gone p a)
  ]
    where
      gone : (p : ℕ) → IsAt s mem addr p → (t.futexes p).refcount ≡ 0
      gone p a = elim (Bool-cases (ltb 0 (t.futexes p).refcount)) [
        | inl u ↦
            let h = (same p).both a.used (ground arith) in
            let out =
              find_futex-missing t.futexes mem addr p t.chain e (sym h.0 ∙ a.same_mem)
                (sym h.1 ∙ a.same_addr) in
            absurd (ground (arith, w.chained p, out))
        | inr u ↦ ground arith
      ]

module _ {held : ℕ → ℕ} where
  unused :
      (s t : Table) (mem addr p q : ℕ)
      → IsTable held s
      → ((p : ℕ) → IsSame s t p)
      → IsAt s mem addr p
      → IsAt t mem addr q
      → (t.futexes p).refcount ≡ 0
      → (s.futexes q).refcount ≡ 0
  unused s t mem addr p q v same a b z = elim (Bool-cases (ltb 0 (s.futexes q).refcount)) [
    | inl u ↦
        let h = (same q).both (ground arith) b.used in
        let one : p ≡ q =
          v.keyed p q a.used (ground arith) (a.same_mem ∙ sym b.same_mem ∙ sym h.0)
            (a.same_addr ∙ sym b.same_addr ∙ sym h.1) in
        absurd (let k = b.used in ground (arith, k, one, z))
    | inr u ↦ ground arith
  ]

module _ {held held' : ℕ → ℕ} where
  both_sides :
      (s t : Table) (mem addr p q : ℕ)
      → IsTable held s
      → IsTable held' t
      → ((p : ℕ) → IsSame s t p)
      → IsAt s mem addr p
      → IsAt t mem addr q
      → (s.futexes p).queue ≡ (t.futexes q).queue
  both_sides s t mem addr p q v w same a b = elim (Bool-cases (ltb 0 (t.futexes p).refcount)) [
    | inl u ↦
        let h = (same p).both a.used (ground arith) in
        let one : p ≡ q =
          w.keyed p q (ground arith) b.used (sym h.0 ∙ a.same_mem ∙ sym b.same_mem)
            (sym h.1 ∙ a.same_addr ∙ sym b.same_addr) in
        h.2 ∙ rw one refl
    | inr u ↦
        let z : (t.futexes p).refcount ≡ 0 = ground arith in
        (same p).before z ∙ sym ((same q).after (unused s t mem addr p q v same a b z))
  ]

  -- Two tables whose futexes are the same have the same queues.
  pub IsSame-queue_at :
      (s t : Table)
      → IsTable held s
      → IsTable held' t
      → ((p : ℕ) → IsSame s t p)
      → (mem addr : ℕ) → queue_at s mem addr ≡ queue_at t mem addr
  IsSame-queue_at s t v w same mem addr =
      elim (Option-cases (find_futex t.futexes mem addr t.chain)) [
        | inl e ↦ one_side s t v w same mem addr e ∙ sym (missing-queue t mem addr e)
        | inr (q, e) ↦
            let b = find_futex-IsAt t mem addr q w e in
            elim (Option-cases (find_futex s.futexes mem addr s.chain)) [
              | inl f ↦
                  missing-queue s mem addr f
                  ∙ sym (one_side t s w v (λ p. swap s t p (same p)) mem addr f)
              | inr (p, f) ↦
                  let a = find_futex-IsAt s mem addr p v f in
                  IsAt-queue s mem addr p v a
                  ∙ both_sides s t mem addr p q v w same a b
                  ∙ sym (IsAt-queue t mem addr q w b)
            ]
      ]
