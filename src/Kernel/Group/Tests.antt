-- ===== src/Kernel/Group/Tests.antt =====
-- Runs of kernel/group.c, and its theorems there: a shell, 2, leads the session 2; its child 3 leads a process group, and
-- its child 4 is in the shell's.
use codex_for_ipad.Prelude.{
  ℕ, ◌≡◌, refl, true, false, Option, none, some, [], ◌∷◌, arith, ◌==◌, if◌then◌else◌,
}
use codex_for_ipad.Prelude.Errno.{ok, err, eperm}
use codex_for_ipad.Kernel.Group.{
  Sys, Group, Task, returns, fault, pid_empty, pid_get, sys_setpgid, setpgid_entry, setpgid_task,
  join_entry, join_check, change_pgid, remove_pgroup, enter_pgroup, leave_session, leave_pgroup,
  sys_getpgid, enter_session, max_pid,
}
use codex_for_ipad.Kernel.Group.Sessions.{
  task_setsid, task_leave_session, new_session, drop_tty, leave_terminal, leave_tty,
}
use codex_for_ipad.Kernel.Futex.{list_remove}
use codex_for_ipad.Kernel.Futex.Counts.{times}
use codex_for_ipad.Kernel.Group.Links.{IsLinked}
use codex_for_ipad.Kernel.Group.Pids.{Finds, next_pid-IsNext}
use codex_for_ipad.Kernel.Group.Setpgid.{IsSetpgid, sys_setpgid-IsSetpgid}
use codex_for_ipad.Kernel.Group.Misplaced.{setpgid_misplaces}
use codex_for_ipad.Kernel.Group.Setsid.{IsSetsid, task_setsid-IsSetsid}
use codex_for_ipad.Kernel.Group.Reached.{start, setpgid, Reaches-IsLinked}

abbrev a_task : ℕ → ℕ → Option Task
a_task group parent = some (record { group = group; parent = some parent; zombie = false })

abbrev a_group : ℕ → ℕ → Group
a_group leader pgid = record {
  leader = leader;
  sid = 2;
  pgid = pgid;
  session = some 2;
  pgroup = some pgid;
  tty = some 0;
}

abbrev no_group : Group
no_group = record { leader = 0; sid = 0; pgid = 0; session = none; pgroup = none; tty = none }

abbrev system : Sys
system = record {
  tasks = λ p.
      if p == 2
      then a_task 2 1
      else if p == 3
      then a_task 3 2
      else if p == 4
      then a_task 4 2
      else none;
  session = λ p. if p == 2 then 2 ∷ 3 ∷ 4 ∷ [] else [];
  pgroup = λ p. if p == 2 then 2 ∷ 4 ∷ [] else if p == 3 then 3 ∷ [] else [];
  groups = λ g.
      if g == 2
      then a_group 2 2
      else if g == 3
      then a_group 3 3
      else if g == 4
      then a_group 4 2
      else no_group;
  ttys = λ y. record { session = 2; refcount = 3; live = true };
}

system-IsLinked : IsLinked system
system-IsLinked = record { sessions = λ g p. ground arith; pgroups = λ g p. ground arith }

-- The child 4 in a process group of its own.
abbrev alone : Sys
alone = enter_pgroup 4 4 4 (leave_pgroup 4 (some 2) system)

own_group : sys_setpgid system 2 4 0 ≡ returns (ok 0) alone
unfolding sys_setpgid setpgid_entry setpgid_task join_entry join_check change_pgid remove_pgroup
    leave_pgroup pid_get pid_empty
own_group = refl

sys_setpgid-IsSetpgid_example : IsSetpgid system 2 4 4 (ok 0) alone
sys_setpgid-IsSetpgid_example =
    sys_setpgid-IsSetpgid system 2 4 0 (ok 0) alone system-IsLinked own_group

Reaches-IsLinked_example : IsLinked alone
Reaches-IsLinked_example =
    Reaches-IsLinked system alone system-IsLinked
      (setpgid system alone 2 4 0 (ok 0) own_group start)

-- A session leader starts no process group.
shell_refused : sys_setpgid system 2 2 2 ≡ returns (err eperm) system
unfolding sys_setpgid setpgid_entry setpgid_task pid_get pid_empty
shell_refused = refl

-- The child 4 in the process group of 3, by the list of 4.
abbrev joined : Sys
joined = enter_pgroup 4 4 3 (leave_pgroup 4 (some 2) system)

joins : sys_setpgid system 2 4 3 ≡ returns (ok 0) joined
unfolding sys_setpgid setpgid_entry setpgid_task join_entry join_check change_pgid remove_pgroup
    leave_pgroup pid_get pid_empty
joins = refl

setpgid_misplaces_example :
    ((joined.groups 4).pgid ≡ 3) × (times 4 (joined.pgroup 3) ≡ 0) × (times 4 (joined.pgroup 4) ≡ 1)
setpgid_misplaces_example =
    setpgid_misplaces system 2 4 3 joined (record { group = 4; parent = some 2; zombie = false })
      system-IsLinked (omega arith) (omega arith) (omega arith) refl (omega arith) joins

-- The child 4 in a session of its own.
abbrev daemon : Sys
daemon =
    enter_pgroup 4 4 4 (
      leave_pgroup 4 (some 2)
        (enter_session 4 4 4 (drop_tty 4 0 (leave_session 4 (some 2) system))))

new_daemon : task_setsid 4 4 system ≡ returns (ok 4) daemon
unfolding task_setsid task_leave_session new_session leave_session leave_pgroup leave_terminal
    leave_tty enter_session enter_pgroup pid_get pid_empty list_remove
new_daemon = refl

task_setsid-IsSetsid_example : IsSetsid system 4 4 (ok 4) daemon
task_setsid-IsSetsid_example =
    task_setsid-IsSetsid system 4 4 (ok 4) daemon system-IsLinked new_daemon

-- Nothing is left of the leader of the session, and the last group of it leaves: a null pointer is read.
abbrev orphan : Sys
orphan = record {
  tasks = λ p. if p == 4 then a_task 4 1 else none;
  session = λ p. if p == 2 then 4 ∷ [] else [];
  pgroup = λ p. if p == 3 then 4 ∷ [] else [];
  groups = λ g. if g == 4 then a_group 4 3 else no_group;
  ttys = λ y. record { session = 2; refcount = 1; live = true };
}

orphan_faults : task_setsid 4 4 orphan ≡ fault
unfolding task_setsid task_leave_session new_session leave_session leave_terminal leave_tty pid_get
    pid_empty list_remove
orphan_faults = refl

-- The pid behind the table is read.
behind_table : sys_getpgid system 2 32769 ≡ fault
unfolding sys_getpgid pid_get
behind_table = refl

pid_5_free : pid_empty system 5 ≡ true
unfolding pid_empty
pid_5_free = refl

next_pid-IsNext_example : Finds max_pid system 3
next_pid-IsNext_example =
    next_pid-IsNext system 3 5 pid_5_free (omega arith) (omega arith) (omega arith)
