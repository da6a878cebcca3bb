-- ===== src/Kernel/Group/Pids.antt =====
-- kernel/task.c: which pid `task_create_` finds.
use codex_for_ipad.Prelude.{
  ℕ, zero, suc, ◌+◌, ◌-◌, ◌≤◌, ◌<◌, ◌≡◌, refl, true, false, ◌⊎◌, inl, inr, Bool-cases, some, arith,
  ◌==◌, ltb, if◌then◌else◌,
}
use codex_for_ipad.Kernel.Group.{Sys, max_pid, pid_empty, next_pid}

-- The pid behind one, in a circle.
abbrev pub next : ℕ → ℕ
next cur = if ltb max_pid (cur + 1) then 1 else cur + 1

-- How many steps lead from one pid to another.
abbrev pub steps : ℕ → ℕ → ℕ
steps cur p = if ltb cur p then p - cur else p + max_pid - cur

-- The first free pid behind `cur`.
pub record IsNext (s : Sys) (cur p : ℕ) : Type 0 where
  pub free : pid_empty s p ≡ true
  pub low : 0 < p
  pub high : p ≤ max_pid
  pub first : (q : ℕ) → 0 < q → q ≤ max_pid → steps cur q < steps cur p → pid_empty s q ≡ false

next-steps :
    (cur p : ℕ)
    → cur ≤ max_pid
    → 0 < p
    → p ≤ max_pid
    → (p ≡ next cur) ⊎ (steps cur p ≡ steps (next cur) p + 1)
next-steps cur p a b c = elim (Bool-cases (p == next cur)) [
  | inl e ↦ inl (ground (arith, e))
  | inr e ↦ inr (ground (arith, e))
]

next-range : (cur : ℕ) → cur ≤ max_pid → (0 < next cur) × (next cur ≤ max_pid)
next-range cur a = (ground arith, ground arith)

-- What the loop finds in `k` rounds.
pub record Finds (k : ℕ) (s : Sys) (cur : ℕ) : Type 0 where
  pub pid : ℕ
  pub found : next_pid k s cur ≡ some pid
  pub is_next : IsNext s cur pid

here : (s : Sys) (cur : ℕ) → cur ≤ max_pid → pid_empty s (next cur) ≡ true → IsNext s cur (next cur)
here s cur a e =
    let r = next-range cur a in
    record {
      free = e;
      low = r.0;
      high = r.1;
      first = λ q b c d. absurd (ground (arith, a, b, c, d));
    }

further :
    (s : Sys) (cur p : ℕ)
    → cur ≤ max_pid
    → pid_empty s (next cur) ≡ false
    → IsNext s (next cur) p
    → IsNext s cur p
further s cur p a e n = record {
  free = n.free;
  low = n.low;
  high = n.high;
  first = λ q b c d. elim (next-steps cur q a b c) [
    | inl f ↦ rw f e
    | inr f ↦ elim (next-steps cur p a n.low n.high) [
      | inl g ↦ let k = n.free in let h = rw g at k in absurd cc
      | inr g ↦ n.first q b c (omega (arith, f, g, d))
    ]
  ];
}

next_pid-Finds :
    (k : ℕ) (s : Sys) (cur p : ℕ)
    → pid_empty s p ≡ true
    → cur ≤ max_pid
    → 0 < p
    → p ≤ max_pid
    → steps cur p ≤ k
    → Finds k s cur
unfolding next_pid
next_pid-Finds zero s cur p e a b c d = absurd (ground arith)
next_pid-Finds (suc k) s cur p e a b c d = elim (Bool-cases (pid_empty s (next cur))) [
  | inl f ↦ record { pid = next cur; found = rw f refl; is_next = here s cur a f }
  | inr f ↦ elim (next-steps cur p a b c) [
    | inl g ↦ let h = rw g at e in absurd cc
    | inr g ↦
        let r = next-range cur a in
        let rest = next_pid-Finds k s (next cur) p e r.1 b c (omega (arith, g, d)) in
        record {
          pid = rest.pid;
          found = rw (f, rest.found) refl;
          is_next = further s cur rest.pid a f rest.is_next;
        }
  ]
]

-- The loop of `task_create_` that looks for a pid comes to an end if there is a free one, after at most one round through
-- the table, with the first free pid behind the last that was given, in a circle.
pub next_pid-IsNext :
    (s : Sys) (cur p : ℕ)
    → pid_empty s p ≡ true
    → cur ≤ max_pid
    → 0 < p
    → p ≤ max_pid
    → Finds max_pid s cur
next_pid-IsNext s cur p e a b c = next_pid-Finds max_pid s cur p e a b c (ground arith)
