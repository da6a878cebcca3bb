-- ===== src/Kernel/Signal/Pids.antt =====
-- kernel/signal.c: sending signals to tasks and groups. The tasks that `pid_get_task` and `pid_get` find are arguments.
use codex_for_ipad.Prelude.{
  ℕ, zero, suc, ◌+◌, ◌-◌, Bool, true, false, not, ◌&&◌, ◌||◌, Option, none, some, List, [], ◌∷◌,
  ◌==◌, leb, if◌then◌else◌,
}
use codex_for_ipad.Prelude.Int.{ℤ, pos, negsuc, leb_ℤ}
use codex_for_ipad.Prelude.Errno.{Errno, eperm, esrch, einval}
use codex_for_ipad.Kernel.Group.{max_pid}
use codex_for_ipad.Kernel.Signal.{num_sigs, Siginfo, Task, send_signal}

-- The ids by which the current task, the first, may signal another.
pub record Ids : Type 0 where
  pub uid : ℕ
  pub euid : ℕ
  pub suid : ℕ

unfoldable pub may_kill : Ids → Ids → Bool
may_kill me it =
    me.euid == 0 || me.uid == it.uid || me.uid == it.suid || me.euid == it.uid || me.euid == it.suid

-- A task with its ids; `self` tells whether it is the current one.
pub record Target : Type 0 where
  pub self : Bool
  pub ids : Ids
  pub task : Task

abbrev pub user_info : ℕ → Ids → Siginfo
user_info pid me = record { sig = 0; code = pos 0; words = pid ∷ me.uid ∷ [] }

unfoldable pub kill_task : ℕ → Ids → Target → ℕ → Target × Option Errno
kill_task pid me it sig =
    if may_kill me it.ids
    then (record it { task = (send_signal it.self it.task sig (user_info pid me)).0 }, none)
    else (it, some eperm)

abbrev pub is_eperm : Option Errno → Bool
is_eperm (some eperm) = true
is_eperm _ = false

-- The loop over the leaders of a group, and the error so far.
unfoldable pub kill_loop : ℕ → Ids → ℕ → Option Errno → List Target → List Target × Option Errno
kill_loop pid me sig error [] = ([], error)
kill_loop pid me sig error (it ∷ its) =
    let r = kill_task pid me it sig in
    let rest = kill_loop pid me sig (if is_eperm error then r.1 else error) its in
    (r.0 ∷ rest.0, rest.1)

-- A group that does not exist is missing.
unfoldable pub kill_group : ℕ → Ids → ℕ → Option (List Target) → Option (List Target) × Option Errno
kill_group pid me sig none = (none, some esrch)
kill_group pid me sig (some its) = let r = kill_loop pid me sig (some eperm) its in (some r.0, r.1)

-- What `pid_get_task` finds: a task with the number of its thread group, and whether it leads that.
pub record Found : Type 0 where
  pub tgid : ℕ
  pub leader : Bool
  pub target : Target

abbrev pub with_leader : Option Found → List Target → List Target
with_leader none its = its
with_leader (some f) its = if f.target.self || not f.leader then its else f.target ∷ its

-- The tasks that the loop of `kill_everything` does not skip, for `k` pids from `i` on.
unfoldable pub leaders : (ℕ → Option Found) → ℕ → ℕ → List Target
leaders tasks zero i = []
leaders tasks (suc k) i = with_leader (tasks i) (leaders tasks k (i + 1))

-- The loop goes from pid 2 up to below MAX_PID; signals do not change the table.
unfoldable pub kill_everything : ℕ → Ids → ℕ → (ℕ → Option Found) → List Target × Option Errno
kill_everything pid me sig tasks = kill_loop pid me sig (some eperm) (leaders tasks (max_pid - 2) 2)

-- The current task's pid, its group and ids, and all groups and tasks by their numbers.
pub record Pids : Type 0 where
  pub pid : ℕ
  pub pgid : ℕ
  pub ids : Ids
  pub groups : ℕ → Option (List Target)
  pub tasks : ℕ → Option Found

-- The tasks that a call has looked at, as it leaves them, and its error.
abbrev pub group_result : Option (List Target) × Option Errno → List Target × Option Errno
group_result (none, e) = ([], e)
group_result (some its, e) = (its, e)

unfoldable pub kill_pid : Pids → ℕ → ℕ → Option Found → List Target × Option Errno
kill_pid w sig tgid none = ([], some esrch)
kill_pid w sig tgid (some f) =
    if not (tgid == 0) && not (f.tgid == tgid)
    then ([], some esrch)
    else (let r = kill_task w.pid w.ids f.target sig in (r.0 ∷ [], r.1))

-- `-pgid`
abbrev pub negated : ℕ → ℤ
negated zero = pos 0
negated (suc n) = negsuc n

unfoldable pub kill_target : Pids → ℕ → ℕ → ℤ → List Target × Option Errno
kill_target w sig tgid (negsuc zero) = kill_everything w.pid w.ids sig w.tasks
kill_target w sig tgid (negsuc (suc n)) =
    group_result (kill_group w.pid w.ids sig (w.groups (suc (suc n))))
kill_target w sig tgid (pos pid) = kill_pid w sig tgid (w.tasks pid)

abbrev pub is_zero : ℤ → Bool
is_zero (pos n) = n == 0
is_zero (negsuc n) = false

unfoldable pub do_kill : Pids → ℤ → ℕ → ℕ → List Target × Option Errno
do_kill w pid sig tgid =
    if leb num_sigs sig
    then ([], some einval)
    else kill_target w sig tgid (if is_zero pid then negated w.pgid else pid)

unfoldable pub sys_kill : Pids → ℤ → ℕ → List Target × Option Errno
sys_kill w pid sig = do_kill w pid sig 0

-- `tgid`, if it is positive.
abbrev pub magnitude : ℤ → ℕ
magnitude (pos n) = n
magnitude (negsuc n) = suc n

unfoldable pub sys_tgkill : Pids → ℤ → ℤ → ℕ → List Target × Option Errno
sys_tgkill w tgid tid sig =
    if leb_ℤ tid (pos 0) || leb_ℤ tgid (pos 0)
    then ([], some einval)
    else do_kill w tid sig (magnitude tgid)

unfoldable pub sys_tkill : Pids → ℤ → ℕ → List Target × Option Errno
sys_tkill w tid sig = if leb_ℤ tid (pos 0) then ([], some einval) else do_kill w tid sig 0
