-- ===== src/Kernel/Group/Setpgid.antt =====
-- kernel/group.c: what `sys_setpgid` does to a group, and to which.
use codex_for_ipad.Prelude.{
  ℕ, ◌≡◌, ◌≢◌, ◌⊎◌, refl, sym, true, Bool-cases, Option, none, some, Option-cases, List, [], ◌∷◌,
  inl, inr, arith, ◌==◌, if◌then◌else◌, ◌||◌,
}
use codex_for_ipad.Prelude.Errno.{Errno, eperm, esrch, Result, ok, err}
use codex_for_ipad.Kernel.Group.{
  Sys, Task, returns, fault, Entry, missing, outside, entry, is_child, remove_pgroup, leave_pgroup,
  enter_pgroup, change_pgid, change_checks, join_check, join_entry, setpgid_task, setpgid_entry,
  sys_setpgid, pid_get,
}
use codex_for_ipad.Kernel.Group.Links.{
  returned, IsLinked, leave_pgroup-IsLinked, leave_pgroup-none, leave_pgroup-IsSame,
  enter_pgroup-IsLinked,
}

-- The group `g` has the process group `pgid`, and is in the list of `p` if it had another one.
pub record Changed (s : Sys) (g p pgid : ℕ) (u : Sys) : Type 0 where
  pub pgid_is : (u.groups g).pgid ≡ pgid
  pub sid_is : (u.groups g).sid ≡ (s.groups g).sid
  pub leader_is : (u.groups g).leader ≡ (s.groups g).leader
  pub others : (h : ℕ) → h ≢ g → u.groups h ≡ s.groups h
  pub listed : ((s.groups g).pgid ≡ pgid) ⊎ ((u.groups g).pgroup ≡ some p)
  pub is_linked : IsLinked u

stays : (s : Sys) (g p pgid : ℕ) → IsLinked s → (s.groups g).pgid ≡ pgid → Changed s g p pgid s
stays s g p pgid i e = record {
  pgid_is = e;
  sid_is = refl;
  leader_is = refl;
  others = λ h d. refl;
  listed = inl e;
  is_linked = i;
}

moves :
    (s : Sys) (g p pgid : ℕ)
    → IsLinked s
    → Changed s g p pgid (enter_pgroup g p pgid (leave_pgroup g (s.groups g).pgroup s))
unfolding enter_pgroup
moves s g p pgid i =
    let same = leave_pgroup-IsSame g (s.groups g).pgroup s in
    record {
      pgid_is = ground arith;
      sid_is = ground (arith, same.sid);
      leader_is = ground (arith, same.leader);
      others = λ h d. let k = same.others h d in ground (arith, k, d);
      listed = inr (ground arith);
      is_linked =
          enter_pgroup-IsLinked g p pgid _ (leave_pgroup-none g s) (leave_pgroup-IsLinked g s i);
    }

no_return : {A : Type 0} (q : Result ℕ) (u : Sys) → fault ≡ returns q u → A
no_return q u h = absurd cc

change_pgid-Changed :
    (g id pgid : ℕ) (s : Sys) (r : Result ℕ) (u : Sys)
    → IsLinked s
    → change_pgid g id pgid s ≡ returns r u
    → (r ≡ ok 0) × Changed s g id pgid u
unfolding change_pgid remove_pgroup leave_pgroup
change_pgid-Changed g id pgid s r u i h = elim (Bool-cases ((s.groups g).pgid == pgid)) [
  | inl e ↦
      let k = returned (ok 0) r s u (rw e at h) in
      (sym k.0, rw (sym k.1) (stays s g id pgid i (ground (arith, e))))
  | inr e ↦ elim (Option-cases (s.groups g).pgroup) [
    | inl f ↦ no_return r u (rw (e, f) at h)
    | inr (p, f) ↦
        let m = moves s g id pgid i in
        let k = returned (ok 0) r _ u (rw (e, f) at h) in (sym k.0, rw (sym k.1) (rw f at m))
  ]
]

-- A process group whose first member is in the session of the task.
pub record Meets (s : Sys) (t : Task) (pgid : ℕ) : Type 0 where
  pub first : ℕ
  pub rest : List ℕ
  pub members : s.pgroup pgid ≡ first ∷ rest
  pub same : (s.groups t.group).sid ≡ (s.groups first).sid

abbrev pub SameSession : Sys → Task → ℕ → ℕ → Type 0
SameSession s t id pgid = (id ≡ pgid) ⊎ Meets s t pgid

-- Who may change, and to which process group: the task itself or a child of it, if it leads no session; and only the own
-- one, or one whose first member is in the same session.
pub record MayJoin (s : Sys) (cur id pgid : ℕ) (t : Task) : Type 0 where
  pub found : s.tasks id ≡ some t
  pub own : (id ≡ cur) ⊎ (is_child cur t.parent ≡ true)
  pub no_leader : (s.groups t.group).sid ≢ (s.groups t.group).leader
  pub same_session : SameSession s t id pgid

pub record Joined (s : Sys) (cur id pgid : ℕ) (u : Sys) : Type 0 where
  pub task : Task
  pub allowed : MayJoin s cur id pgid task
  pub changed : Changed s task.group id pgid u

-- What a call returns: an error, with nothing changed, or 0 with the task's group changed.
abbrev pub IsSetpgid : Sys → ℕ → ℕ → ℕ → Result ℕ → Sys → Type 0
IsSetpgid s cur id pgid (err e) u = u ≡ s
IsSetpgid s cur id pgid (ok n) u = (n ≡ 0) × Joined s cur id pgid u

module _ (s : Sys) (cur id pgid : ℕ) (r : Result ℕ) (u : Sys) where
  refuses : (e : Errno) → returns (err e) s ≡ returns r u → IsSetpgid s cur id pgid r u
  refuses e h = let k = returned (err e) r s u h in rw (sym k.0, sym k.1) refl

  succeeds :
      (t : Task)
      → MayJoin s cur id pgid t
      → (r ≡ ok 0) × Changed s t.group id pgid u
      → IsSetpgid s cur id pgid r u
  succeeds t m c = rw c.0 (refl, record { task = t; allowed = m; changed = c.1 })

  own_cases :
      (t : Task)
      → (id == cur || is_child cur t.parent) ≡ true
      → (id ≡ cur) ⊎ (is_child cur t.parent ≡ true)
  own_cases t f = elim (Bool-cases (id == cur)) [
    | inl g ↦ inl (ground (arith, g))
    | inr g ↦ inr (rw g at f)
  ]

  change_checked :
      (t : Task)
      → IsLinked s
      → s.tasks id ≡ some t
      → SameSession s t id pgid
      → change_checks s cur id pgid t ≡ returns r u
      → IsSetpgid s cur id pgid r u
  change_checked t i e v h = elim (Bool-cases (id == cur || is_child cur t.parent)) [
    | inl f ↦ elim (Bool-cases ((s.groups t.group).sid == (s.groups t.group).leader)) [
      | inl g ↦ refuses eperm (rw (f, g) at h)
      | inr g ↦
          let m : MayJoin s cur id pgid t = record {
            found = e;
            own = own_cases t f;
            no_leader = ground (arith, g);
            same_session = v;
          } in
          succeeds t m (change_pgid-Changed t.group id pgid s r u i (rw (f, g) at h))
    ]
    | inr f ↦ refuses esrch (rw f at h)
  ]

  join_checked :
      (t : Task) (members : List ℕ)
      → IsLinked s
      → s.tasks id ≡ some t
      → s.pgroup pgid ≡ members
      → join_check s t.group members (change_checks s cur id pgid t) ≡ returns r u
      → IsSetpgid s cur id pgid r u
  unfolding join_check
  join_checked t [] i e f h = refuses eperm h
  join_checked t (first ∷ rest) i e f h =
      elim (Bool-cases ((s.groups t.group).sid == (s.groups first).sid)) [
        | inl g ↦
            let met : Meets s t pgid = record {
              first = first;
              rest = rest;
              members = f;
              same = ground (arith, g);
            } in
            change_checked t i e (inr met) (rw g at h)
        | inr g ↦ refuses eperm (rw g at h)
      ]

  entry_checked :
      (t : Task) (found : Entry)
      → IsLinked s
      → s.tasks id ≡ some t
      → join_entry s t.group pgid found (change_checks s cur id pgid t) ≡ returns r u
      → IsSetpgid s cur id pgid r u
  unfolding join_entry
  entry_checked t missing i e h = refuses eperm h
  entry_checked t outside i e h = no_return r u h
  entry_checked t entry i e h = join_checked t (s.pgroup pgid) i e refl h

  task_checked :
      (o : Option Task)
      → IsLinked s
      → s.tasks id ≡ o
      → setpgid_task s cur id pgid o ≡ returns r u
      → IsSetpgid s cur id pgid r u
  unfolding setpgid_task
  task_checked none i e h = refuses esrch h
  task_checked (some t) i e h = elim (Bool-cases (id == pgid)) [
    | inl f ↦ change_checked t i e (inl (ground (arith, f))) (rw f at h)
    | inr f ↦ entry_checked t (pid_get s pgid) i e (rw f at h)
  ]

  pid_checked :
      (found : Entry)
      → IsLinked s
      → setpgid_entry s cur id pgid found ≡ returns r u
      → IsSetpgid s cur id pgid r u
  unfolding setpgid_entry
  pid_checked missing i h = refuses esrch h
  pid_checked outside i h = no_return r u h
  pid_checked entry i h = task_checked (s.tasks id) i refl h

-- 0 stands for another id.
abbrev pub chosen : ℕ → ℕ → ℕ
chosen id other = if id == 0 then other else id

-- When `sys_setpgid` returns with an error, nothing is changed. When it returns 0, the task is the caller or a child of it and
-- its group no session leader; the new process group is its own or one whose first member is in the same session; the
-- group has the new process group and its old session, no other group is changed, and all lists agree with the links.
-- A group that had another process group before is then in the list of the task's own pid.
pub sys_setpgid-IsSetpgid :
    (s : Sys) (cur id pgid : ℕ) (r : Result ℕ) (u : Sys)
    → IsLinked s
    → sys_setpgid s cur id pgid ≡ returns r u
    → IsSetpgid s cur (chosen id cur) (chosen pgid (chosen id cur)) r u
unfolding sys_setpgid
sys_setpgid-IsSetpgid s cur id pgid r u i h =
    pid_checked s cur (chosen id cur) (chosen pgid (chosen id cur)) r u (pid_get s (chosen id cur))
      i h
