-- ===== src/Kernel/Group.antt =====
-- kernel/group.c, and the table of pids of kernel/task.c: process groups and sessions. A task is named by its pid, a
-- `struct tgroup` and a terminal by a number.
pub mod Sessions
pub mod Pids
pub mod Links
pub mod Setpgid
pub mod Misplaced
pub mod Setsid
pub mod Reached
mod Tests
use codex_for_ipad.Prelude.{
  ℕ, zero, suc, ◌+◌, ◌-◌, ◌%◌, ◌^◌, Bool, true, false, not, ◌&&◌, ◌||◌, Option, none, some, List,
  [], ◌∷◌, ◌==◌, ltb, if◌then◌else◌,
}
use codex_for_ipad.Prelude.Errno.{Errno, eperm, esrch, Result, ok, err}
use codex_for_ipad.Kernel.Memory.{update}
use codex_for_ipad.Kernel.Futex.{list_remove}

-- A task without parent has none.
pub record Task : Type 0 where
  pub group : ℕ
  pub parent : Option ℕ
  pub zombie : Bool

-- `leader` is the pid of the leader. The links `session` and `pgroup` are null, or in the list of a pid.
pub record Group : Type 0 where
  pub leader : ℕ
  pub sid : ℕ
  pub pgid : ℕ
  pub session : Option ℕ
  pub pgroup : Option ℕ
  pub tty : Option ℕ

-- A terminal is freed at its last reference.
pub record Tty : Type 0 where
  pub session : ℕ
  pub refcount : ℕ
  pub live : Bool

-- The table of pids: for each its task, and its lists of groups.
pub record Sys : Type 0 where
  pub tasks : ℕ → Option Task
  pub session : ℕ → List ℕ
  pub pgroup : ℕ → List ℕ
  pub groups : ℕ → Group
  pub ttys : ℕ → Tty

-- What a call returns, or a read through a null pointer or behind the table.
pub data Outcome : Type 0 where
  returns : Result ℕ → Sys → Outcome
  fault : Outcome

abbrev pub max_pid : ℕ
max_pid = 2 ^ 15

abbrev pub is_nil : List ℕ → Bool
is_nil [] = true
is_nil (x ∷ xs) = false

abbrev pub is_none {ℓ} : {A : Type ℓ} → Option A → Bool
is_none none = true
is_none (some x) = false

unfoldable pub pid_empty : Sys → ℕ → Bool
pid_empty s p = is_none (s.tasks p) && is_nil (s.session p) && is_nil (s.pgroup p)

-- The table has `max_pid + 1` entries, and the test lets one more through.
pub data Entry : Type 0 where
  missing : Entry
  outside : Entry
  entry : Entry

unfoldable pub pid_get : Sys → ℕ → Entry
pid_get s id =
    if ltb (max_pid + 1) id
    then missing
    else if id == max_pid + 1
    then outside
    else if pid_empty s id
    then missing
    else entry

-- The loop of `task_create_` that looks for a pid, for a number of rounds.
unfoldable pub next_pid : ℕ → Sys → ℕ → Option ℕ
next_pid zero s cur = none
next_pid (suc k) s cur =
    let next = if ltb max_pid (cur + 1) then 1 else cur + 1 in
    let rest = next_pid k s next in if pid_empty s next then some next else rest

abbrev pub copy_of : ℕ → Option Task → Task
copy_of p none = record { group = 0; parent = some p; zombie = false }
copy_of p (some t) = record t { parent = some p }

abbrev pub child_of : Sys → Option ℕ → Task
child_of s none = record { group = 0; parent = none; zombie = false }
child_of s (some p) = copy_of p (s.tasks p)

-- `task_create_` with the pid that the loop has found, up to where it gives up the lock.
unfoldable pub task_create : Sys → Option ℕ → ℕ → Sys
task_create s parent pid = record s {
  tasks = update s.tasks pid (some (child_of s parent));
  session = update s.session pid [];
  pgroup = update s.pgroup pid [];
}

-- `list_remove` of a group in the list of a process group: the links must not be null.
unfoldable pub remove_pgroup : ℕ → Option ℕ → Sys → Option Sys
remove_pgroup g none s = none
remove_pgroup g (some p) s = some (record s {
  pgroup = update s.pgroup p (list_remove g (s.pgroup p));
  groups = update s.groups g (record (s.groups g) { pgroup = none });
})

-- `list_remove_safe`
unfoldable pub leave_pgroup : ℕ → Option ℕ → Sys → Sys
leave_pgroup g none s = s
leave_pgroup g (some p) s = record s {
  pgroup = update s.pgroup p (list_remove g (s.pgroup p));
  groups = update s.groups g (record (s.groups g) { pgroup = none });
}

unfoldable pub leave_session : ℕ → Option ℕ → Sys → Sys
leave_session g none s = s
leave_session g (some p) s = record s {
  session = update s.session p (list_remove g (s.session p));
  groups = update s.groups g (record (s.groups g) { session = none });
}

-- The process group `pgid`, in the list of `p`.
unfoldable pub enter_pgroup : ℕ → ℕ → ℕ → Sys → Sys
enter_pgroup g p pgid s = record s {
  pgroup = update s.pgroup p (g ∷ s.pgroup p);
  groups = update s.groups g (record (s.groups g) { pgroup = some p; pgid = pgid });
}

unfoldable pub enter_session : ℕ → ℕ → ℕ → Sys → Sys
enter_session g p sid s = record s {
  session = update s.session p (g ∷ s.session p);
  groups = update s.groups g (record (s.groups g) { session = some p; sid = sid });
}

-- What `sys_setpgid` does behind its tests, in the list of the pid `id`.
unfoldable pub change_pgid : ℕ → ℕ → ℕ → Sys → Outcome
change_pgid g id pgid s =
    if (s.groups g).pgid == pgid
    then returns (ok 0) s
    else elim (remove_pgroup g (s.groups g).pgroup s) [
      | none ↦ fault
      | some u ↦ returns (ok 0) (enter_pgroup g id pgid u)
    ]

-- A group joins only a process group whose first member is in its session.
unfoldable pub join_check : Sys → ℕ → List ℕ → Outcome → Outcome
join_check s g [] go = returns (err eperm) s
join_check s g (first ∷ rest) go =
    if (s.groups g).sid == (s.groups first).sid then go else returns (err eperm) s

unfoldable pub join_entry : Sys → ℕ → ℕ → Entry → Outcome → Outcome
join_entry s g pgid missing go = returns (err eperm) s
join_entry s g pgid outside go = fault
join_entry s g pgid entry go = join_check s g (s.pgroup pgid) go

abbrev pub is_child : ℕ → Option ℕ → Bool
is_child cur none = false
is_child cur (some p) = p == cur

-- Only the own process group or a child's may be changed, and none of a session leader.
abbrev pub change_checks : Sys → ℕ → ℕ → ℕ → Task → Outcome
change_checks s cur id pgid t =
    if not (id == cur || is_child cur t.parent)
    then returns (err esrch) s
    else if (s.groups t.group).sid == (s.groups t.group).leader
    then returns (err eperm) s
    else change_pgid t.group id pgid s

unfoldable pub setpgid_task : Sys → ℕ → ℕ → ℕ → Option Task → Outcome
setpgid_task s cur id pgid none = returns (err esrch) s
setpgid_task s cur id pgid (some t) =
    let change = change_checks s cur id pgid t in
    if id == pgid then change else join_entry s t.group pgid (pid_get s pgid) change

unfoldable pub setpgid_entry : Sys → ℕ → ℕ → ℕ → Entry → Outcome
setpgid_entry s cur id pgid missing = returns (err esrch) s
setpgid_entry s cur id pgid outside = fault
setpgid_entry s cur id pgid entry = setpgid_task s cur id pgid (s.tasks id)

-- `cur` is the pid of the calling task.
unfoldable pub sys_setpgid : Sys → ℕ → ℕ → ℕ → Outcome
sys_setpgid s cur id pgid =
    let who = if id == 0 then cur else id in
    let target = if pgid == 0 then who else pgid in setpgid_entry s cur who target (pid_get s who)

abbrev pub sys_setpgrp : Sys → ℕ → Outcome
sys_setpgrp s cur = sys_setpgid s cur 0 0

abbrev pub group_pgid : Sys → Option Task → Outcome
group_pgid s none = returns (err esrch) s
group_pgid s (some t) =
    if t.zombie then returns (err esrch) s else returns (ok (s.groups t.group).pgid) s

abbrev pub getpgid_entry : Sys → ℕ → Entry → Outcome
getpgid_entry s pid missing = returns (err esrch) s
getpgid_entry s pid outside = fault
getpgid_entry s pid entry = group_pgid s (s.tasks pid)

-- `mine` is the group of the calling task.
unfoldable pub sys_getpgid : Sys → ℕ → ℕ → Outcome
sys_getpgid s mine pid =
    if pid == 0 then returns (ok (s.groups mine).pgid) s else getpgid_entry s pid (pid_get s pid)
