-- ===== src/Kernel/Group/Setsid.antt =====
-- kernel/group.c: what `task_setsid` does.
use codex_for_ipad.Prelude.{
  ℕ, ◌≡◌, ◌≢◌, ◌⊎◌, refl, sym, ◌∙◌, Bool-cases, Option, none, some, inl, inr, arith, ◌==◌,
  if◌then◌else◌, ◌||◌,
}
use codex_for_ipad.Prelude.Errno.{eperm, Result, ok, err}
use codex_for_ipad.Kernel.Memory.{update}
use codex_for_ipad.Kernel.Group.{
  Sys, Tty, returns, Entry, missing, outside, entry, is_nil, leave_session, leave_pgroup,
  enter_session, enter_pgroup, pid_get,
}
use codex_for_ipad.Kernel.Group.Sessions.{
  leave_tty, leave_terminal, drop_tty, task_leave_session, new_session, task_setsid,
}
use codex_for_ipad.Kernel.Group.Links.{
  some_injective, returned, IsLinked, leave_pgroup-IsLinked, leave_pgroup-none, leave_pgroup-IsSame,
  leave_pgroup-session, enter_pgroup-IsLinked, leave_session-IsLinked, leave_session-none,
  leave_session-IsSame, enter_session-IsLinked,
}

-- What is left when a group has left its session and its terminal. The terminal has no session any more if the group was the
-- last of the session.
pub record HasLeft (s : Sys) (g : ℕ) (u : Sys) : Type 0 where
  pub leader : (u.groups g).leader ≡ (s.groups g).leader
  pub alone : (u.groups g).session ≡ none
  pub untied : (u.groups g).tty ≡ none
  pub others : (h : ℕ) → h ≢ g → u.groups h ≡ s.groups h
  pub terminal :
      (y : ℕ)
      → (s.groups g).tty ≡ some y
      → (u.ttys y).session ≡ (if is_nil (u.session (s.groups g).sid) then 0 else (s.ttys y).session)
  pub is_linked : IsLinked u

-- Giving up the terminal leaves the lists alone.
drop_tty-HasLeft :
    (s : Sys) (g y : ℕ) (terminals : ℕ → Tty)
    → IsLinked s
    → (s.groups g).session ≡ none
    → (s.groups g).tty ≡ some y
    → (terminals y).session
      ≡ (if is_nil (s.session (s.groups g).sid) then 0 else (s.ttys y).session)
    → HasLeft s g (drop_tty g y (record s { ttys = terminals }))
drop_tty-HasLeft s g y terminals i a e k = record {
  leader = ground arith;
  alone = ground (arith, a);
  untied = ground arith;
  others = λ h d. ground (arith, d);
  terminal =
      λ z f. let same : y ≡ z = some_injective (sym e ∙ f) in rw (sym same) (ground (arith, k));
  is_linked = record {
    sessions = λ h q. ground (arith, i.sessions h q, i.sessions g q);
    pgroups = λ h q. ground (arith, i.pgroups h q, i.pgroups g q);
  };
}

leave_tty-HasLeft :
    (s : Sys) (g y : ℕ) (found : Entry) (u : Sys)
    → IsLinked s
    → (s.groups g).session ≡ none
    → (s.groups g).tty ≡ some y
    → leave_tty g y found s ≡ some u
    → HasLeft s g u
unfolding leave_tty
leave_tty-HasLeft s g y missing u i a e h = absurd cc
leave_tty-HasLeft s g y outside u i a e h = absurd cc
leave_tty-HasLeft s g y entry u i a e h = elim (Bool-cases (is_nil (s.session (s.groups g).sid))) [
  | inl f ↦
      let gone = update s.ttys y (record (s.ttys y) { session = 0 }) in
      let k : drop_tty g y (record s { ttys = gone }) ≡ u = some_injective (rw f at h) in
      rw (sym k) (drop_tty-HasLeft s g y gone i a e (ground (arith, f)))
  | inr f ↦
      let k : drop_tty g y s ≡ u = some_injective (rw f at h) in
      rw (sym k) (drop_tty-HasLeft s g y s.ttys i a e (ground (arith, f)))
]

leave_terminal-HasLeft :
    (s : Sys) (g : ℕ) (o : Option ℕ) (u : Sys)
    → IsLinked s
    → (s.groups g).session ≡ none
    → (s.groups g).tty ≡ o
    → leave_terminal g o s ≡ some u
    → HasLeft s g u
unfolding leave_terminal
leave_terminal-HasLeft s g none u i a e h =
    let k : s ≡ u = some_injective h in
    rw (sym k) (record {
      leader = refl;
      alone = a;
      untied = e;
      others = λ h d. refl;
      terminal = λ y f. absurd cc;
      is_linked = i;
    })
leave_terminal-HasLeft s g (some y) u i a e h =
    leave_tty-HasLeft s g y (pid_get s (s.groups g).sid) u i a e h

-- The group of a new session, in the lists of the calling task's pid, with no terminal.
pub record Started (s : Sys) (g pid sid : ℕ) (u : Sys) : Type 0 where
  pub sid_is : (u.groups g).sid ≡ sid
  pub pgid_is : (u.groups g).pgid ≡ sid
  pub in_session : (u.groups g).session ≡ some pid
  pub in_pgroup : (u.groups g).pgroup ≡ some pid
  pub untied : (u.groups g).tty ≡ none
  pub others : (h : ℕ) → h ≢ g → u.groups h ≡ s.groups h
  pub terminal :
      (y : ℕ)
      → (s.groups g).tty ≡ some y
      → ((u.ttys y).session ≡ 0) ⊎ ((u.ttys y).session ≡ (s.ttys y).session)
  pub is_linked : IsLinked u

pub task_leave_session-HasLeft :
    (s : Sys) (g : ℕ) (u : Sys) → IsLinked s → task_leave_session g s ≡ some u → HasLeft s g u
unfolding task_leave_session
task_leave_session-HasLeft s g u i h =
    let same = leave_session-IsSame g (s.groups g).session s in
    let left =
      leave_terminal-HasLeft (leave_session g (s.groups g).session s) g _ u
        (leave_session-IsLinked g s i) (leave_session-none g s) refl h in
    record {
      leader = left.leader ∙ same.leader;
      alone = left.alone;
      untied = left.untied;
      others = λ k d. left.others k d ∙ same.others k d;
      terminal = λ y f. let k = left.terminal y (same.tty ∙ f) in rw (same.sid, same.ttys) at k;
      is_linked = left.is_linked;
    }

start-Started :
    (s : Sys) (g pid sid : ℕ) (v : Sys)
    → HasLeft s g v
    → (let w = enter_session g pid sid v in
        Started s g pid sid (enter_pgroup g pid sid (leave_pgroup g (w.groups g).pgroup w)))
unfolding enter_session enter_pgroup
start-Started s g pid sid v left =
    let w = enter_session g pid sid v in
    let same = leave_pgroup-IsSame g (w.groups g).pgroup w in
    let linked = enter_session-IsLinked g pid sid v left.alone left.is_linked in
    let session = leave_pgroup-session g (w.groups g).pgroup w in
    record {
      sid_is = ground (arith, same.sid);
      pgid_is = ground arith;
      in_session = ground (arith, session);
      in_pgroup = ground arith;
      untied = ground (arith, same.tty, left.untied);
      others = λ h d. let a = same.others h d in let b = left.others h d in ground (arith, d, a, b);
      terminal = λ y f.
          let k = left.terminal y f in
          rw same.ttys (elim (Bool-cases (is_nil (v.session (s.groups g).sid))) [
            | inl e ↦ inl (rw e at k)
            | inr e ↦ inr (rw e at k)
          ]);
      is_linked =
          enter_pgroup-IsLinked g pid sid _ (leave_pgroup-none g w)
            (leave_pgroup-IsLinked g w linked);
    }

-- An error with nothing changed, or the id of the session that the group has started: the pid of its leader.
abbrev pub IsSetsid : Sys → ℕ → ℕ → Result ℕ → Sys → Type 0
IsSetsid s g pid (err e) u = u ≡ s
IsSetsid s g pid (ok n) u = (n ≡ (s.groups g).leader) × Started s g pid n u

new_session-IsSetsid :
    (s : Sys) (g pid : ℕ) (o : Option Sys) (r : Result ℕ) (u : Sys)
    → IsLinked s
    → task_leave_session g s ≡ o
    → new_session g pid (s.groups g).leader o ≡ returns r u
    → IsSetsid s g pid r u
unfolding new_session
new_session-IsSetsid s g pid none r u i e h = absurd cc
new_session-IsSetsid s g pid (some v) r u i e h =
    let start =
      start-Started s g pid (s.groups g).leader v (task_leave_session-HasLeft s g v i e) in
    let k = returned (ok (s.groups g).leader) r _ u h in rw (sym k.0, sym k.1) (refl, start)

-- When `task_setsid` returns with an error, nothing is changed. Otherwise the group has the pid of its leader as its session
-- and as its process group, is in the two lists of the calling task's pid and in no other, and has no terminal; the
-- terminal that it had has lost its session or kept it; no other group is changed, and all lists agree with the links.
pub task_setsid-IsSetsid :
    (s : Sys) (g pid : ℕ) (r : Result ℕ) (u : Sys)
    → IsLinked s
    → task_setsid g pid s ≡ returns r u
    → IsSetsid s g pid r u
unfolding task_setsid
task_setsid-IsSetsid s g pid r u i h =
    let sid = (s.groups g).leader in
    elim (Bool-cases ((s.groups g).pgid == sid || (s.groups g).sid == sid)) [
      | inl e ↦ let k = returned (err eperm) r s u (rw e at h) in rw (sym k.0, sym k.1) refl
      | inr e ↦ new_session-IsSetsid s g pid (task_leave_session g s) r u i refl (rw e at h)
    ]
