-- ===== src/Kernel/Group/Sessions.antt =====
-- kernel/group.c: sessions, and what a new process takes over by `tgroup_copy` of kernel/fork.c.
use codex_for_ipad.Prelude.{
  ℕ, ◌+◌, ◌-◌, ◌%◌, ◌^◌, not, ◌||◌, Option, none, some, List, [], ◌∷◌, ◌==◌, if◌then◌else◌,
}
use codex_for_ipad.Prelude.Errno.{eperm, ok, err}
use codex_for_ipad.Kernel.Memory.{update}
use codex_for_ipad.Kernel.Group.{
  Sys, Outcome, returns, fault, Entry, missing, outside, entry, is_nil, pid_get, leave_session,
  leave_pgroup, enter_session, enter_pgroup,
}

abbrev pub tty_release : ℕ → Sys → Sys
tty_release y s =
    let tty = s.ttys y in
    let left = (tty.refcount + 2 ^ 32 - 1) % 2 ^ 32 in
    record s { ttys = update s.ttys y (record tty { refcount = left; live = not (left == 0) }) }

abbrev pub drop_tty : ℕ → ℕ → Sys → Sys
drop_tty g y s =
    let u = tty_release y s in
    record u { groups = update u.groups g (record (u.groups g) { tty = none }) }

-- A terminal loses its session when the last group of the session has left it. A session whose pid is empty has none.
unfoldable pub leave_tty : ℕ → ℕ → Entry → Sys → Option Sys
leave_tty g y missing s = none
leave_tty g y outside s = none
leave_tty g y entry s =
    let tty = s.ttys y in
    some (
      drop_tty g y (
        if is_nil (s.session (s.groups g).sid)
        then record s { ttys = update s.ttys y (record tty { session = 0 }) }
        else s))

unfoldable pub leave_terminal : ℕ → Option ℕ → Sys → Option Sys
leave_terminal g none s = some s
leave_terminal g (some y) s = leave_tty g y (pid_get s (s.groups g).sid) s

unfoldable pub task_leave_session : ℕ → Sys → Option Sys
task_leave_session g s =
    let u = leave_session g (s.groups g).session s in leave_terminal g (u.groups g).tty u

-- The new session of the task `pid` and its group, in the lists of `pid`.
unfoldable pub new_session : ℕ → ℕ → ℕ → Option Sys → Outcome
new_session g pid sid none = fault
new_session g pid sid (some s) =
    let u = enter_session g pid sid s in
    returns (ok sid) (enter_pgroup g pid sid (leave_pgroup g (u.groups g).pgroup u))

unfoldable pub task_setsid : ℕ → ℕ → Sys → Outcome
task_setsid g pid s =
    let sid = (s.groups g).leader in
    if (s.groups g).pgid == sid || (s.groups g).sid == sid
    then returns (err eperm) s
    else new_session g pid sid (task_leave_session g s)

abbrev pub sys_getsid : Sys → ℕ → ℕ
sys_getsid s mine = (s.groups mine).sid

-- `list_add` behind an item of a list.
unfoldable pub insert_behind : ℕ → ℕ → List ℕ → List ℕ
insert_behind old g [] = []
insert_behind old g (x ∷ xs) =
    let rest = insert_behind old g xs in if x == old then x ∷ g ∷ xs else x ∷ rest

abbrev pub hold_tty : Option ℕ → Sys → Sys
hold_tty none s = s
hold_tty (some y) s =
    let tty = s.ttys y in
    record s { ttys = update s.ttys y (record tty { refcount = (tty.refcount + 1) % 2 ^ 32 }) }

-- `tgroup_copy` for the new group `g` and its leader: what kernel/group.c uses of the group. The old group is in a list of
-- each kind.
unfoldable pub tgroup_copy : ℕ → ℕ → ℕ → Option ℕ → Option ℕ → Sys → Option Sys
tgroup_copy old g leader (some p) (some q) s = some (
    hold_tty (s.groups old).tty (record s {
      session = update s.session p (insert_behind old g (s.session p));
      pgroup = update s.pgroup q (insert_behind old g (s.pgroup q));
      groups = update s.groups g (record (s.groups old) { leader = leader });
    }))
tgroup_copy old g leader _ _ s = none
