-- ===== src/Kernel/Futex/Invariant.antt =====
-- The invariant of kernel/futex.c.
use codex_for_ipad.Prelude.{
  ℕ, ◌+◌, ◌^◌, ◌≤◌, ◌<◌, ◌≡◌, refl, Bool, true, false, Option, none, some, [], arith, ◌==◌, ltb,
  if◌then◌else◌, length, inl, inr, Option-cases,
}
use codex_for_ipad.Kernel.Memory.{inc}
use codex_for_ipad.Kernel.Futex.{
  Table, find_futex, set_refcount, new_futex, get_found, futex_get_unlocked, futex_put,
}
use codex_for_ipad.Kernel.Futex.Counts.{
  one_if, times, users, times-remove, times-none, users-le, used_none, find_futex-found,
  find_futex-missing,
}

-- The table between two steps, when the running call holds `held p` references to the futex `p`.
pub record IsTable (held : ℕ → ℕ) (s : Table) : Type 0 where
  pub counted : (p : ℕ) → (s.futexes p).refcount ≡ held p + users s.waits s.live p
  pub queued :
      (p w : ℕ)
      → times w (s.futexes p).queue ≤ (if (s.waits w).futex == p then times w s.live else 0)
  pub once : (w : ℕ) → times w s.live ≤ 1
  pub chained : (p : ℕ) → times p s.chain ≡ (if ltb 0 (s.futexes p).refcount then 1 else 0)
  pub keyed :
      (p q : ℕ)
      → 0 < (s.futexes p).refcount
      → 0 < (s.futexes q).refcount
      → (s.futexes p).mem ≡ (s.futexes q).mem
      → (s.futexes p).addr ≡ (s.futexes q).addr
      → p ≡ q
  pub fresh : (p : ℕ) → s.next ≤ p → (s.futexes p).refcount ≡ 0
  pub sound : s.asserts ≡ true
  pub few : length s.live + 4 < 2 ^ 32

abbrev pub hold : ℕ → (ℕ → ℕ) → ℕ → ℕ
hold p held q = held q + one_if p q

module _ (held : ℕ → ℕ) where
  found-IsTable :
      (p : ℕ) (s : Table)
      → ((q : ℕ) → held q ≤ 2)
      → 0 < times p s.chain
      → IsTable held s
      → IsTable (hold p held) (set_refcount p (inc (s.futexes p).refcount) s)
  found-IsTable p s small live v =
      let bound : (s.futexes p).refcount + 1 < 2 ^ 32 =
        omega (arith, v.counted p, small p, v.few, users-le s.waits s.live p) in
      let used : 0 < (s.futexes p).refcount = ground (arith, v.chained p) in
      record {
        counted = λ q. ground (arith, v.counted q);
        queued = λ q w. ground (arith, v.queued q w);
        once = v.once;
        chained = λ q. ground (arith, v.chained q);
        keyed = λ q r a b m d. ground (arith, v.keyed q r);
        fresh = λ q le. ground (arith, v.fresh q);
        sound = v.sound;
        few = v.few;
      }

  new-IsTable :
      (mem addr : ℕ) (s : Table)
      → find_futex s.futexes mem addr s.chain ≡ none
      → IsTable held s
      → IsTable (hold s.next held) (new_futex true mem addr s).1
  new-IsTable mem addr s missing v =
      let n = s.next in
      let unused : (s.futexes n).refcount ≡ 0 = v.fresh n (omega arith) in
      let apart = λ (q : ℕ) (m : (s.futexes q).mem ≡ mem) (d : (s.futexes q).addr ≡ addr).
        find_futex-missing s.futexes mem addr q s.chain missing m d in
      record {
        counted = λ q. ground (arith, v.counted q, unused);
        queued = λ q w. ground (arith, v.queued q w);
        once = v.once;
        chained = λ q. ground (arith, v.chained q, unused);
        keyed =
            λ q r a b m d. ground (arith, v.keyed q r, apart q, apart r, v.chained q, v.chained r);
        fresh = λ q le. ground (arith, v.fresh q);
        sound = v.sound;
        few = v.few;
      }

  -- What `futex_get_unlocked` gives, for the futex of an address: a reference to it, or nothing new.
  abbrev pub IsGot : ℕ → ℕ → Table → Option ℕ × Table → Type 0
  IsGot mem addr s (none, t) = IsTable held t × (t ≡ s)
  IsGot mem addr s (some p, t) =
      IsTable (hold p held) t
      × ((t.futexes p).mem ≡ mem)
      × ((t.futexes p).addr ≡ addr)
      × (t.waits ≡ s.waits)
      × (t.live ≡ s.live)
      × ((q : ℕ) → (t.futexes q).queue ≡ (s.futexes q).queue)
      × ((q : ℕ)
          → 0 < (s.futexes q).refcount
          → 0 < (t.futexes q).refcount
          → ((s.futexes q).mem ≡ (t.futexes q).mem) × ((s.futexes q).addr ≡ (t.futexes q).addr))
      × (t.notified ≡ s.notified)

  pub empty_queue :
      (p : ℕ) (s : Table) → (s.futexes p).refcount ≡ 0 → IsTable held s → (s.futexes p).queue ≡ []
  empty_queue p s zero_refs v = times-none (s.futexes p).queue (λ w. unqueued w)
    where
      unused : users s.waits s.live p ≡ 0
      unused = omega (arith, v.counted p)

      unqueued : (w : ℕ) → times w (s.futexes p).queue ≡ 0
      unqueued w = ground (arith, v.queued p w, used_none s.waits w s.live p unused)

  pub get-IsGot :
      (room : Bool) (mem addr : ℕ) (s : Table)
      → ((q : ℕ) → held q ≤ 2)
      → IsTable held s
      → IsGot mem addr s (futex_get_unlocked room mem addr s)
  unfolding futex_get_unlocked get_found
  get-IsGot room mem addr s small v = elim (Option-cases (find_futex s.futexes mem addr s.chain)) [
    | inl e ↦ rw e (made room e)
    | inr (p, e) ↦
        let f = find_futex-found s.futexes mem addr p s.chain e in
        rw e (
          found-IsTable p s small f.0 v,
          ground (arith, f.1),
          ground (arith, f.2),
          refl,
          refl,
          λ q. ground arith,
          λ q a b. ground arith,
          refl,
        )
  ]
    where
      made :
          (room : Bool)
          → find_futex s.futexes mem addr s.chain ≡ none
          → IsGot mem addr s (new_futex room mem addr s)
      made false e = (v, refl)
      made true e = (
        new-IsTable mem addr s e v,
        ground arith,
        ground arith,
        refl,
        refl,
        λ q. ground (arith, empty_queue s.next s (v.fresh s.next (omega arith)) v),
        λ q a b. ground (arith, v.fresh q),
        refl,
      )

  -- Giving up a reference; the assertion that nothing waits on a futex that is freed holds.
  pub put-IsTable :
      (p : ℕ) (s : Table)
      → ((q : ℕ) → held q ≤ 2)
      → IsTable (hold p held) s
      → IsTable held (futex_put p s)
  unfolding futex_put
  put-IsTable p s small v =
      let bound : (s.futexes p).refcount < 2 ^ 32 =
        ground (arith, v.counted p, small p, v.few, users-le s.waits s.live p) in
      let used : 0 < (s.futexes p).refcount = ground (arith, v.counted p) in
      record {
        counted = λ q. ground (arith, v.counted q);
        queued = λ q w. ground (arith, v.queued q w);
        once = ground (arith, v.once);
        chained = λ q. ground (arith, v.chained q, times-remove p q s.chain);
        keyed = λ q r a b m d. ground (arith, v.keyed q r);
        fresh = λ q le. ground (arith, v.fresh q);
        sound = ground (arith, v.sound, last);
        few = ground (arith, v.few);
      }
    where
      last : (s.futexes p).refcount ≡ 1 → (s.futexes p).queue ≡ []
      last one =
          times-none (s.futexes p).queue
            (λ w. ground (arith, v.queued p w, v.counted p, used_none s.waits w s.live p))
