-- ===== src/Kernel/Signal/Kill.antt =====
-- Who may signal whom, of kernel/signal.c.
use codex_for_ipad.Prelude.{
  ℕ, zero, suc, ◌+◌, ◌-◌, ◌≤◌, ◌==◌, ◌≡◌, refl, Bool, true, false, not, ◌||◌, Option, none, some,
  List, [], ◌∷◌, map, arith, ◌<◌, leb, if◌then◌else◌, inl, inr, ◌⊎◌, Bool-cases,
}
use mathlib.Core.Path.{subst}
use codex_for_ipad.Prelude.Int.{pos, negsuc}
use codex_for_ipad.Prelude.Errno.{Errno, eperm, esrch}
use codex_for_ipad.Kernel.Signal.{send_signal}
use codex_for_ipad.Kernel.Group.{max_pid}
use codex_for_ipad.Kernel.Signal.Pids.{
  Found, with_leader, leaders, Ids, Target, may_kill, user_info, kill_task, kill_loop, kill_group,
  kill_everything, Pids, kill_target, do_kill, sys_kill,
}

-- Whether any of some tasks may be signalled.
abbrev pub any_may : Ids → List Target → Bool
any_may me [] = false
any_may me (it ∷ its) = may_kill me it.ids || any_may me its

-- A task that gets the signal, if it may be signalled.
abbrev pub signalled : ℕ → Ids → ℕ → Target → Target
signalled pid me sig it =
    if may_kill me it.ids
    then record it { task = (send_signal it.self it.task sig (user_info pid me)).0 }
    else it

kill_task-signalled :
    (pid : ℕ) (me : Ids) (it : Target) (sig : ℕ)
    → kill_task pid me it sig
      ≡ (signalled pid me sig it, if may_kill me it.ids then none else some eperm)
unfolding kill_task
kill_task-signalled pid me it sig = elim (Bool-cases (may_kill me it.ids)) [
  | inl e ↦ rw e refl
  | inr e ↦ rw e refl
]

loop_done :
    (pid : ℕ) (me : Ids) (sig : ℕ) (its : List Target)
    → kill_loop pid me sig none its ≡ (map (signalled pid me sig) its, none)
unfolding kill_loop
loop_done pid me sig [] = refl
loop_done pid me sig (it ∷ its) =
    rw (kill_task-signalled pid me it sig, loop_done pid me sig its) refl

loop_open :
    (pid : ℕ) (me : Ids) (sig : ℕ) (its : List Target)
    → kill_loop pid me sig (some eperm) its
      ≡ (map (signalled pid me sig) its, if any_may me its then none else some eperm)
unfolding kill_loop
loop_open pid me sig [] = refl
loop_open pid me sig (it ∷ its) = elim (Bool-cases (may_kill me it.ids)) [
  | inl e ↦ rw (kill_task-signalled pid me it sig, e, loop_done pid me sig its) refl
  | inr e ↦ rw (kill_task-signalled pid me it sig, e, loop_open pid me sig its) refl
]

-- What signalling some tasks leaves of them, and its error.
abbrev pub signal_all : ℕ → Ids → ℕ → List Target → List Target × Option Errno
signal_all pid me sig its =
    (map (signalled pid me sig) its, if any_may me its then none else some eperm)

pub data Among (it : Target) : List Target → Type 0 where
  first : {its : List Target} → Among it (it ∷ its)
  later : {that : Target} {its : List Target} → Among it its → Among it (that ∷ its)

-- The leader of a thread group, but not the current task, with a pid from `low` up to below `high`.
pub record IsLeader (tasks : ℕ → Option Found) (low high p : ℕ) (it : Target) : Type 0 where
  pub found : Found
  pub is_found : tasks p ≡ some found
  pub leader : found.leader ≡ true
  pub other : found.target.self ≡ false
  pub same : found.target ≡ it
  pub above : low ≤ p
  pub below : p < high

-- All those leaders, and no other tasks.
pub record AreLeaders (tasks : ℕ → Option Found) (low high : ℕ) (its : List Target) : Type 0 where
  pub complete : (p : ℕ) (it : Target) → IsLeader tasks low high p it → Among it its
  pub sound : (it : Target) → Among it its → (p : ℕ) × IsLeader tasks low high p it

wider :
    (tasks : ℕ → Option Found) (low low' high p : ℕ) (it : Target)
    → low ≤ low'
    → IsLeader tasks low' high p it
    → IsLeader tasks low high p it
wider tasks low low' high p it h l = record {
  found = l.found;
  is_found = l.is_found;
  leader = l.leader;
  other = l.other;
  same = l.same;
  above = omega (arith, h, l.above);
  below = l.below;
}

with_leader-first :
    (f : Found) (it : Target) (its : List Target)
    → f.leader ≡ true
    → f.target.self ≡ false
    → f.target ≡ it
    → Among it (with_leader (some f) its)
with_leader-first f it its leader other same =
    let test : (f.target.self || not f.leader) ≡ false = ground (arith, leader, other) in
    subst (λ x. Among x (with_leader (some f) its)) same (rw test first)

leaders_found :
    (tasks : ℕ → Option Found) (k i p : ℕ) (it : Target)
    → IsLeader tasks i (i + k) p it
    → Among it (leaders tasks k i)
unfolding leaders
leaders_found tasks zero i p it l = absurd (omega (arith, l.above, l.below))
leaders_found tasks (suc k) i p it l = elim (Bool-cases (i == p)) [
  | inl e ↦
      let same : p ≡ i = ground (arith, e) in
      let here = l.is_found in
      let present : tasks i ≡ some l.found = rw same at here in
      rw present (with_leader-first l.found it _ l.leader l.other l.same)
  | inr e ↦ skip (tasks i) (
      leaders_found tasks k (i + 1) p it (record {
        found = l.found;
        is_found = l.is_found;
        leader = l.leader;
        other = l.other;
        same = l.same;
        above = ground (arith, e, l.above);
        below = omega (arith, l.below);
      }))
]
  where
    skip :
        (o : Option Found)
        → Among it (leaders tasks k (i + 1))
        → Among it (with_leader o (leaders tasks k (i + 1)))
    skip none a = a
    skip (some f) a = elim (Bool-cases (f.target.self || not f.leader)) [
      | inl e ↦ rw e a
      | inr e ↦ rw e (later a)
    ]

Among-cases :
    (it that : Target) (its : List Target) → Among it (that ∷ its) → (that ≡ it) ⊎ Among it its
Among-cases it _ its first = inl refl
Among-cases it that its (later a) = inr a

with_leader-only :
    (tasks : ℕ → Option Found) (i high : ℕ) (it : Target) (its : List Target) (o : Option Found)
    → i < high
    → tasks i ≡ o
    → (Among it its → (p : ℕ) × IsLeader tasks (i + 1) high p it)
    → Among it (with_leader o its)
    → (p : ℕ) × IsLeader tasks i high p it
with_leader-only tasks i high it its none h e ih a =
    let r = ih a in (r.0, wider tasks i (i + 1) high r.0 it (omega arith) r.1)
with_leader-only tasks i high it its (some f) h e ih a =
    elim (Bool-cases (f.target.self || not f.leader)) [
      | inl g ↦ let r = ih (rw g at a) in (r.0, wider tasks i (i + 1) high r.0 it (omega arith) r.1)
      | inr g ↦ elim (Among-cases it f.target its (rw g at a)) [
        | inl same ↦ (
          i,
          record {
            found = f;
            is_found = e;
            leader = ground (arith, g);
            other = ground (arith, g);
            same = same;
            above = omega arith;
            below = h;
          },
        )
        | inr b ↦ let r = ih b in (r.0, wider tasks i (i + 1) high r.0 it (omega arith) r.1)
      ]
    ]

leaders_only :
    (tasks : ℕ → Option Found) (k i high : ℕ) (it : Target)
    → i + k ≡ high
    → Among it (leaders tasks k i)
    → (p : ℕ) × IsLeader tasks i high p it
unfolding leaders
leaders_only tasks zero i high it e a = elim a [ ]
leaders_only tasks (suc k) i high it e a =
    with_leader-only tasks i high it (leaders tasks k (i + 1)) (tasks i) (omega arith) refl
      (leaders_only tasks k (i + 1) high it (omega arith)) a

leaders-AreLeaders :
    (tasks : ℕ → Option Found) (k i : ℕ) → AreLeaders tasks i (i + k) (leaders tasks k i)
leaders-AreLeaders tasks k i = record {
  complete = leaders_found tasks k i;
  sound = λ it a. leaders_only tasks k i (i + k) it refl a;
}

-- What `kill` of all tasks does to those that it may reach.
pub record SignalsAll (w : Pids) (sig : ℕ) : Type 0 where
  pub reached : List Target
  pub are_leaders : AreLeaders w.tasks 2 max_pid reached
  pub result : sys_kill w (negsuc 0) sig ≡ signal_all w.pid w.ids sig reached

-- `kill` of all tasks reaches every task but the current one that leads a thread group, has a pid from 2 up to below MAX_PID
-- and may be signalled by the caller, and no other; `kill` of a group reaches every leader in it that the caller may signal,
-- and no other. Each fails, with EPERM, only if there is none such, and with ESRCH if there is no such group. The signal is
-- below 64.
pub sys_kill-signal_all :
    (w : Pids) (sig n : ℕ)
    → sig < 64
    → SignalsAll w sig
      × ((its : List Target)
          → w.groups (suc (suc n)) ≡ some its
          → sys_kill w (negsuc (suc n)) sig ≡ signal_all w.pid w.ids sig its)
      × (w.groups (suc (suc n)) ≡ none → sys_kill w (negsuc (suc n)) sig ≡ ([], some esrch))
unfolding sys_kill do_kill kill_target kill_everything kill_group
sys_kill-signal_all w sig n small =
    let test : leb 64 sig ≡ false = ground arith in
    let its = leaders w.tasks (max_pid - 2) 2 in
    (
      record {
        reached = its;
        are_leaders = leaders-AreLeaders w.tasks (max_pid - 2) 2;
        result = rw test (loop_open w.pid w.ids sig its);
      },
      λ its e. rw (test, e) (rw (loop_open w.pid w.ids sig its) refl),
      λ e. rw (test, e) refl,
    )

-- A bug: `kill` of pid 0, which means the caller's group, signals all tasks if that is the group 1.
pub kill_own_group :
    (w : Pids) (sig : ℕ) → w.pgid ≡ 1 → sys_kill w (pos 0) sig ≡ sys_kill w (negsuc 0) sig
unfolding sys_kill do_kill
kill_own_group w sig one = rw one refl
